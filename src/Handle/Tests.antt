-- ===== src/Handle/Tests.antt =====
-- skynet-src/skynet_handle.c: runs on small inputs, and the theorems at concrete ones.
use paohuzi_server.Shared.{ℕ, ◌≡◌, refl, Bool, some, List, [], ◌∷◌, arith}
use paohuzi_server.Handle.{
  HandleName, HandleStorage, search_name, strcmp, register, retire, find_name, insert_name,
}
use paohuzi_server.Handle.Slots.{IsStorage}
use paohuzi_server.Handle.Register.{Registered, register_lem}
use paohuzi_server.Handle.Retire.{Retired, retire_lem}
use paohuzi_server.Handle.Order.{IsSorted}
use paohuzi_server.Handle.Names.{
  Named, lookup_name, handle_or_zero, find_name-lookup_name, insert_name_lem,
}

abbrev two_names : List HandleName
two_names = record { name = 97 ∷ []; handle = 1 } ∷ (record { name = 98 ∷ []; handle = 2 } ∷ [])

-- Four services fill the four slots; each has its own address for its handle.
abbrev full : HandleStorage
full = record {
  harbor = 0;
  handle_index = 4;
  slot_size = 4;
  slot = λ i. some i;
  name_cap = 2;
  names = two_names;
}

abbrev self : ℕ → ℕ
self ctx = ctx

some_inj : {a b : ℕ} → some a ≡ some b → a ≡ b
some_inj h = cc

full-IsStorage : IsStorage self full
full-IsStorage = record {
  width = 2;
  small = omega arith;
  size = refl;
  index = omega arith;
  remote = 0;
  harbor = refl;
  placed = λ i ctx lt e. let same : i ≡ ctx = some_inj e in omega arith;
}

two_names-IsSorted : IsSorted full.names
unfolding strcmp
two_names-IsSorted = ((refl, tt), (tt, tt))

register_example :
    (s' : HandleStorage) × (handle : ℕ) × (register self full 7 ≡ some (s', handle))
    × Registered self full 7 handle s'
register_example =
    register_lem 7 full-IsStorage (omega arith)
      (λ i lt e. let same : i ≡ 7 = some_inj e in omega arith)

retire_example : Retired self full 2 (retire self full 2)
retire_example = retire_lem 2 full-IsStorage

find_name_example :
    find_name full (98 ∷ []) ≡ some (handle_or_zero (lookup_name (98 ∷ []) full.names))
find_name_example = find_name-lookup_name full (98 ∷ []) two_names-IsSorted

insert_name_example :
    (s' : HandleStorage) × (new : Bool) × (insert_name full (97 ∷ (99 ∷ [])) 3 ≡ some (s', new))
    × Named full (97 ∷ (99 ∷ [])) 3 s' new
insert_name_example = insert_name_lem full (97 ∷ (99 ∷ [])) 3 two_names-IsSorted (omega arith)

found : find_name full (98 ∷ []) ≡ some 2
unfolding find_name search_name strcmp
found = refl
