-- ===== src/Handle/Bisection.antt =====
-- skynet-src/skynet_handle.c: the bisection of the sorted names.
use Prim.Native.Nat.{Ordering}
use paohuzi_server.Shared.{
  ℕ, zero, suc, ◌+◌, ◌-◌, ◌/◌, ◌≤◌, ◌<◌, ◌≡◌, refl, ◌≢◌, inl, inr, true, false, Option, some, List,
  [], ◌∷◌, arith, ltb, sym, ◌∙◌, ap, get_elem?, length, dec_lt, ℕ_discrete,
}
use paohuzi_server.Handle.{HandleName, strcmp, Place, hit, miss, search_name}
use paohuzi_server.Handle.Order.{
  Ordering-cases, strcmp_eq, strcmp_gt, strcmp_trans, IsSorted, sorted_at, get_elem?-lt,
}

-- The name is in the list, or belongs between the names before and behind a position.
abbrev pub Finds : List HandleName → List ℕ → Place → Type 0
Finds l name (hit n) = (i : ℕ) × (get_elem? l i ≡ some n) × (n.name ≡ name)
Finds l name (miss at) =
    (at ≤ length l)
    × ((i : ℕ) (n : HandleName)
        → i < at
        → get_elem? l i ≡ some n
        → strcmp n.name name ≡ Ordering.lt)
    × ((i : ℕ) (n : HandleName)
        → at ≤ i
        → get_elem? l i ≡ some n
        → strcmp name n.name ≡ Ordering.lt)

pub some_inj : {a b : HandleName} → some a ≡ some b → a ≡ b
some_inj h = cc

past_end : (l : List HandleName) (i : ℕ) {n : HandleName} → length l ≤ i → get_elem? l i ≢ some n
past_end [] i h e = cc
past_end (x ∷ l) zero h e = absurd (omega arith)
past_end (x ∷ l) (suc i) h e = past_end l i (omega arith) e

-- A round of the bisection.
abbrev middle : ℕ → ℕ → ℕ
middle begin past = (begin + (past - 1)) / 2

abbrev look : ℕ → List HandleName → List ℕ → ℕ → ℕ → HandleName → Ordering → Option Place
look fuel l name begin past n Ordering.eq = some (hit n)
look fuel l name begin past n Ordering.lt = search_name fuel l name (middle begin past + 1) past
look fuel l name begin past n Ordering.gt = search_name fuel l name begin (middle begin past)

search_name_step :
    (fuel : ℕ) (l : List HandleName) (name : List ℕ) (begin past : ℕ) (n : HandleName)
    (o : Ordering)
    → begin < past
    → get_elem? l (middle begin past) ≡ some n
    → strcmp n.name name ≡ o
    → search_name (suc fuel) l name begin past ≡ look fuel l name begin past n o
unfolding search_name
search_name_step fuel l name begin past n o more here e =
    let t : ltb begin past ≡ true = ground arith in
    (rw (t, here) refl) ∙ by_order (strcmp n.name name) ∙ ap (look fuel l name begin past n) e
  where
    by_order :
        (o : Ordering)
        → (elim o as (λ x. Option Place) [
          | Ordering.eq ↦ some (hit n)
          | Ordering.lt ↦ search_name fuel l name (middle begin past + 1) past
          | Ordering.gt ↦ search_name fuel l name begin (middle begin past)
        ])
          ≡ look fuel l name begin past n o
    by_order Ordering.eq = refl
    by_order Ordering.lt = refl
    by_order Ordering.gt = refl

module _ (l : List HandleName) (name : List ℕ) (sorted : IsSorted l) where
  search_name_lem :
      (fuel begin past : ℕ)
      → past - begin < fuel
      → begin ≤ past
      → past ≤ length l
      → ((i : ℕ) (n : HandleName)
          → i < begin
          → get_elem? l i ≡ some n
          → strcmp n.name name ≡ Ordering.lt)
      → ((i : ℕ) (n : HandleName)
          → past ≤ i
          → get_elem? l i ≡ some n
          → strcmp name n.name ≡ Ordering.lt)
      → (place : Place) × (search_name fuel l name begin past ≡ some place) × Finds l name place
  unfolding search_name
  search_name_lem zero begin past f o b below above = absurd (omega arith)
  search_name_lem (suc fuel) begin past f o b below above = elim (dec_lt begin past) [
    | no done ↦
        let t : ltb begin past ≡ false = ground arith in
        let e : begin ≡ past = omega arith in
        (miss begin, rw t refl, (omega arith, below, λ i n le at. above i n (omega arith) at))
    | yes more ↦
        let mid : ℕ = middle begin past in
        let (n, here) = get_elem?-lt l mid (omega arith) in
        elim (Ordering-cases (strcmp n.name name)) [
          | inl lt ↦
              let (place, e, found) =
                search_name_lem fuel (mid + 1) past (omega arith) (omega arith) b
                  (λ i m lt' at. elim (ℕ_discrete i mid) [
                    | yes same ↦
                        let mine : n ≡ m = some_inj (sym here ∙ ap (get_elem? l) (sym same) ∙ at) in
                        ap (λ x. strcmp x.name name) (sym mine) ∙ lt
                    | no ne ↦
                        strcmp_trans m.name n.name name
                          (sorted_at l i mid sorted (omega arith) at here) lt
                  ])
                  above in
              (place, search_name_step fuel l name begin past n Ordering.lt more here lt ∙ e, found)
          | inr (inl eq) ↦ (
            hit n,
            search_name_step fuel l name begin past n Ordering.eq more here eq,
            (mid, here, strcmp_eq n.name name eq),
          )
          | inr (inr gt) ↦
              let (place, e, found) =
                search_name_lem fuel begin mid (omega arith) (omega arith) (omega arith) below
                  (λ i m le at. elim (ℕ_discrete mid i) [
                    | yes same ↦
                        let mine : n ≡ m = some_inj (sym here ∙ ap (get_elem? l) same ∙ at) in
                        ap (λ x. strcmp name x.name) (sym mine) ∙ strcmp_gt n.name name gt
                    | no ne ↦
                        strcmp_trans name n.name m.name (strcmp_gt n.name name gt)
                          (sorted_at l mid i sorted (omega arith) here at)
                  ]) in
              (place, search_name_step fuel l name begin past n Ordering.gt more here gt ∙ e, found)
        ]
  ]

  -- The bisection ends within the fuel, at the name or where it belongs.
  pub search_whole :
      (place : Place) × (search_name (length l + 1) l name 0 (length l) ≡ some place)
      × Finds l name place
  search_whole =
      search_name_lem (length l + 1) 0 (length l) (omega arith) (omega arith) (omega arith)
        (λ i n lt at. absurd (omega arith)) (λ i n le at. absurd (past_end l i le at))
