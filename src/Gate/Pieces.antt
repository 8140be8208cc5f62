-- ===== src/Gate/Pieces.antt =====
-- service-src/service_gate.c: the bytes of one connection, in any number of pieces.
use paohuzi_server.Shared.{
  ℕ, suc, ◌+◌, ◌^◌, ◌≤◌, ◌<◌, ◌≡◌, refl, Option, some, List, [], ◌∷◌, ◌++◌, map, arith, sym, ◌∙◌,
  ap, subst, append-nil, append_assoc, ◌>>=◌, length, length-append,
}
use paohuzi_server.Gate.{Connection, Gate, Effect, message_for, dispatch_message}
use paohuzi_server.Gate.Packages.{
  wait, next, Ending, waiting, too_large, packages, packages_fuel, packages-append, packages-Rest,
  packages-suc, go_on, Rest, finish, next-short,
}
use paohuzi_server.Gate.Dispatch.{
  Holds, Keeps, Dispatched, dispatch_message_lem, message_for-buffer,
}

abbrev pub IsWaiting : Ending → Type 0
IsWaiting (waiting h l) = Unit
IsWaiting too_large = ⊥

abbrev pub joined : List (List ℕ) → List ℕ
joined [] = []
joined (chunk ∷ chunks) = chunk ++ joined chunks

map-append : (f : List ℕ → Effect) (a b : List (List ℕ)) → map f (a ++ b) ≡ map f a ++ map f b
map-append f [] b = refl
map-append f (x ∷ a) b = ap (λ k. f x ∷ k) (map-append f a b)

module _ (data_text : ℕ → List ℕ) where
  -- The messages of type SKYNET_SOCKET_TYPE_DATA for a connection that the gate knows
  unfoldable pub receive : Gate → Connection → List (List ℕ) → Option (List Effect × Connection)
  receive g c [] = some ([], c)
  receive g c (chunk ∷ chunks) = dispatch_message data_text g c chunk >>= λ r.
      receive g r.1 chunks >>= λ s. some (r.0 ++ s.0, s.1)

  module _ (g : Gate) (message : List ℕ → Effect) (pos : 0 < g.header_size) where
    receive_step :
        (c : Connection) (chunk : List ℕ) (chunks : List (List ℕ)) {es fs : List Effect}
        {c1 c2 : Connection}
        → dispatch_message data_text g c chunk ≡ some (es, c1)
        → receive g c1 chunks ≡ some (fs, c2)
        → receive g c (chunk ∷ chunks) ≡ some (es ++ fs, c2)
    unfolding receive
    receive_step c chunk chunks e f = rw (e, f) refl

    -- The packages `x` are sent, and what is left is kept.
    abbrev Received : Connection → List (List ℕ) → List (List ℕ) × Ending → Type 0
    Received c chunks x =
        (c' : Connection) × (receive g c chunks ≡ some (map message x.0, c')) × Keeps c'.buffer x.1

    Received-later :
        (n : ℕ) (c c1 : Connection) (chunk : List ℕ) (chunks : List (List ℕ)) (bound : ℕ)
        (es : List Effect)
        → message_for data_text g c ≡ some message
        → dispatch_message data_text g c chunk ≡ some (es, c1)
        → (y : List (List ℕ) × Ending) → Dispatched message c y es c1
        → Rest g.header_size bound y.1
        → IsWaiting (go_on n g.header_size y (joined chunks)).1
        → ((h : ℕ) (l : List ℕ)
            → message_for data_text g c1 ≡ some message
            → Holds c1.buffer h l
            → next g.header_size h l ≡ wait h l
            → length l ≤ bound
            → IsWaiting (packages n g.header_size h (l ++ joined chunks)).1
            → Received c1 chunks (packages n g.header_size h (l ++ joined chunks)))
        → Received c (chunk ∷ chunks) (go_on n g.header_size y (joined chunks))
    Received-later n c c1 chunk chunks bound es m done (ps, too_large) d left waits rec =
        elim waits [ ]
    Received-later n c c1 chunk chunks bound es m done (ps, waiting h l) d left waits rec =
        let m1 : message_for data_text g c1 ≡ some message =
          ap (message_for data_text g) d.same ∙ message_for-buffer data_text g c c1.buffer ∙ m in
        let (c2, rest, kept) = rec h l m1 d.left left.1 left.0 waits in
        let more : List (List ℕ) = (packages n g.header_size h (l ++ joined chunks)).0 in
        (
          c2,
          receive_step c chunk chunks done rest
              ∙ ap (λ k. some (k, c2))
                  (ap (λ k. k ++ map message more) (d.sent ∙ append-nil (map message ps))
                    ∙ sym (map-append message ps more)),
          kept,
        )

    receive_from :
        (n : ℕ) (c : Connection) (h : ℕ) (l : List ℕ) (chunks : List (List ℕ))
        → message_for data_text g c ≡ some message
        → Holds c.buffer h l
        → next g.header_size h l ≡ wait h l
        → length l + length (joined chunks) < 2 ^ 31
        → length l + length (joined chunks) < n
        → IsWaiting (packages n g.header_size h (l ++ joined chunks)).1
        → Received c chunks (packages n g.header_size h (l ++ joined chunks))
    unfolding receive
    receive_from n c h l [] m b settled small fuel waits =
        let alone : packages n g.header_size h (l ++ []) ≡ ([], waiting h l) =
          ap (packages n g.header_size h) (append-nil l)
          ∙ packages_fuel n (suc n) g.header_size h l pos (omega arith) (omega arith)
          ∙ packages-suc n g.header_size h l
          ∙ ap (λ x. finish x (packages n g.header_size 0)) settled in
        subst (Received c []) (sym alone) (c, refl, b)
    receive_from n c h l (chunk ∷ chunks) m b settled small fuel waits =
        let k : ℕ = g.header_size in
        let size = length-append chunk (joined chunks) in
        let first = length-append l chunk in
        let (es, c1, done, d) =
          dispatch_message_lem data_text g message c h l chunk pos m b (omega arith) in
        let same : packages (length (l ++ chunk) + 1) k h (l ++ chunk)
            ≡ packages n k h (l ++ chunk) =
          packages_fuel (length (l ++ chunk) + 1) n k h (l ++ chunk) pos (omega arith)
            (omega arith) in
        let split : packages n k h (l ++ joined (chunk ∷ chunks))
            ≡ go_on n k (packages n k h (l ++ chunk)) (joined chunks) =
          ap (packages n k h) (sym (append_assoc l chunk (joined chunks)))
          ∙ packages-append n n k h (l ++ chunk) (joined chunks) pos (omega arith) (omega arith) in
        subst (Received c (chunk ∷ chunks)) (sym split) (
          Received-later n c c1 chunk chunks (length (l ++ chunk)) es m done
            (packages n k h (l ++ chunk)) (subst (λ y. Dispatched message c y es c1) same d)
            (packages-Rest n k h (l ++ chunk) pos (omega arith))
            (subst (λ y. IsWaiting y.1) split waits)
            (λ h1 l1 m1 b1 settled1 le waits1.
              receive_from n c1 h1 l1 chunks m1 b1 settled1 (omega arith) (omega arith) waits1))

  -- The bytes of a new connection may arrive in any pieces: the messages that the gate sends are the
  -- packages of the whole stream, in order, and what it keeps is the beginning of the next one. This
  -- is for streams below 2^31 bytes with no package of 16M or more.
  pub receive_lem :
      (g : Gate) (message : List ℕ → Effect) (c : Connection) (chunks : List (List ℕ)) (n : ℕ)
      → 0 < g.header_size
      → message_for data_text g c ≡ some message
      → Holds c.buffer 0 []
      → length (joined chunks) < 2 ^ 31
      → length (joined chunks) < n
      → IsWaiting (packages n g.header_size 0 (joined chunks)).1
      → (c' : Connection) × (receive g c chunks
          ≡ some (map message (packages n g.header_size 0 (joined chunks)).0, c'))
        × Keeps c'.buffer (packages n g.header_size 0 (joined chunks)).1
  receive_lem g message c chunks n pos m b small fuel waits =
      receive_from g message pos n c 0 [] chunks m b (next-short g.header_size [] pos) (omega arith)
        (omega arith) waits
