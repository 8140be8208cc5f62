-- ===== src/Netpack/Tests.antt =====
-- lualib-src/lua-netpack.c: the theorems at concrete inputs.
use paohuzi_server.Shared.{true, update, ℕ, ◌≡◌, refl, none, some, List, [], ◌∷◌, ◌++◌, arith}
use paohuzi_server.Netpack.{
  Netpack, Queue, get_queue, push_data, pop, filter_data, close_uncomplete,
}
use paohuzi_server.Netpack.Ring.{HasPacks, push_data_lem, pop_lem, get_queue-HasPacks}
use paohuzi_server.Netpack.Partial.{partial, IsValid, SameOthers, close_uncomplete_lem}
use paohuzi_server.Netpack.Filter.{filter_data_lem}
use paohuzi_server.Netpack.Fill.{Outcome}
use paohuzi_server.Netpack.Stream.{Server}
use paohuzi_server.Netpack.Delivery.{none-IsValid}

abbrev two_packages : List (List ℕ)
two_packages = (7 ∷ 8 ∷ []) ∷ (9 ∷ []) ∷ []

abbrev stream : List ℕ
stream = 0 ∷ 2 ∷ 7 ∷ 8 ∷ 0 ∷ 1 ∷ 9 ∷ []

abbrev pieces : List (ℕ × List ℕ)
pieces = (3, 0 ∷ []) ∷ (5, 0 ∷ []) ∷ (3, 2 ∷ 7 ∷ 8 ∷ 0 ∷ []) ∷ (3, 1 ∷ 9 ∷ []) ∷ []

-- Socket 3 is open, and socket 5 is not.
abbrev server : Server
server = record {
  queue = none;
  connection = update (λ fd. none) 3 (some true);
  client_number = 1;
  maxclient = 1024;
  socket = some 2;
}

filter_data_example : Outcome none [] 3 (partial none 3 ++ stream) (filter_data none 3 stream)
filter_data_example =
    filter_data_lem none 3 stream none-IsValid
      (
        omega arith,
        (
          omega arith,
          (omega arith, (omega arith, (omega arith, (omega arith, (omega arith, tt))))),
        ),
      )
      (omega arith) (omega arith)

close_uncomplete_example :
    IsValid (close_uncomplete none 3) []
    × (partial (close_uncomplete none 3) 3 ≡ [])
    × SameOthers 3 none (close_uncomplete none 3)
close_uncomplete_example = close_uncomplete_lem none 3 none-IsValid

push_data_example :
    (q : Queue) × (push_data none 3 (9 ∷ []) 1 ≡ some q)
    × HasPacks q (record { id = 3; size = 1; buffer = 9 ∷ [] } ∷ [])
    × (q.hash ≡ (get_queue none).hash)
push_data_example = push_data_lem none 3 (9 ∷ []) 1 get_queue-HasPacks (omega arith)

abbrev one_package : Netpack
one_package = record { id = 3; size = 1; buffer = 9 ∷ [] }

abbrev one_queued : Queue
one_queued = record { cap = 2; head = 1; tail = 0; hash = λ _. []; queue = λ _. some one_package }

one_queued-HasPacks : HasPacks one_queued (one_package ∷ [])
one_queued-HasPacks = record {
  head_in = omega arith;
  tail_in = omega arith;
  count = refl;
  cells = λ i lt. ground arith;
}

pop_example :
    (q : Queue) × (pop (some one_queued) ≡ some (some q, some one_package))
    × HasPacks q []
    × (q.hash ≡ one_queued.hash)
pop_example = pop_lem one_queued-HasPacks
