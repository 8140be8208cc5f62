-- ===== src/Hashid/Insert.antt =====
-- service-src/hashid.h: what inserting an id changes.
use Prim.Native.Nat.{bit_and}
use native.Mathlib.Nat.{mod-lt}
use paohuzi_server.Shared.{
  ℕ, zero, suc, ◌+◌, ◌-◌, ◌%◌, ◌^◌, leb, ◌≤◌, ◌<◌, ◌≡◌, ◌≢◌, ◌⊎◌, inl, inr, refl, true, false,
  Option, none, some, ◌∷◌, arith, sym, ◌∙◌, ap, subst, ◌==◌, ==_ne, if◌then◌else◌, Bool-cases,
  Option-cases, ℕ_discrete, update, update_same, update_ne,
}
use paohuzi_server.Handle.Slots.{cover}
use paohuzi_server.Mq.Global.{In, Distinct}
use paohuzi_server.Hashid.{Hashid, hashid_lookup, free_cell, hashid_insert, hashid_full, is_free}
use paohuzi_server.Hashid.Lookup.{IsHashid, hashid_lookup_lem, used, busy, used-update, Option-ext}

some_inj : {a b : ℕ} → some a ≡ some b → a ≡ b
some_inj h = cc

module _ {hi : Hashid} (v : IsHashid hi) (id c0 : ℕ) (below : c0 < hi.cap) (free : hi.id c0 ≡ none)
    (unused : (c : ℕ) → hi.id c ≢ some id) where
  abbrev chain : ℕ
  chain = bit_and id hi.hashmod

  abbrev pub inserted : Hashid
  inserted = record hi {
    count = hi.count + 1;
    id = update hi.id c0 (some id);
    hash = update hi.hash chain (c0 ∷ hi.hash chain);
  }

  other_cell : (c x : ℕ) → hi.id c ≡ some x → c0 ≢ c
  other_cell c x e same = absurd (ground (arith, ap hi.id same, free, e))

  other_kept : (c x : ℕ) → hi.id c ≡ some x → inserted.id c ≡ some x
  other_kept c x e = update_ne hi.id c0 c (some id) (other_cell c x e) ∙ e

  new_kept : inserted.id c0 ≡ some id
  new_kept = update_same hi.id c0 c0 (some id) refl

  -- A cell with an id is the new one, or had it before.
  either : (c x : ℕ) → inserted.id c ≡ some x → ((c0 ≡ c) × (id ≡ x)) ⊎ (hi.id c ≡ some x)
  either c x e = elim (ℕ_discrete c0 c) [
    | yes same ↦ inl (same, some_inj (sym (update_same hi.id c0 c (some id) same) ∙ e))
    | no ne ↦ inr (sym (update_ne hi.id c0 c (some id) ne) ∙ e)
  ]

  In-hash : (h c : ℕ) → In c (hi.hash h) → In c (inserted.hash h)
  In-hash h c m = elim (ℕ_discrete chain h) [
    | yes same ↦
        subst (In c) (sym (update_same hi.hash chain h (c0 ∷ hi.hash chain) same))
          (inr (subst (λ k. In c (hi.hash k)) (sym same) m))
    | no differ ↦ subst (In c) (sym (update_ne hi.hash chain h (c0 ∷ hi.hash chain) differ)) m
  ]

  new-In : In c0 (inserted.hash chain)
  new-In =
      subst (In c0) (sym (update_same hi.hash chain chain (c0 ∷ hi.hash chain) refl)) (inl refl)

  not_In : (h : ℕ) → ¬ In c0 (hi.hash h)
  not_In h m = let (lt, x, e, at) = v.linked h c0 m in absurd (ground (arith, free, e))

  inserted_linked :
      (h c : ℕ)
      → In c (inserted.hash h)
      → (c < hi.cap) × (x : ℕ) × (inserted.id c ≡ some x) × (bit_and x hi.hashmod ≡ h)
  inserted_linked h c m = elim (ℕ_discrete chain h) [
    | yes same ↦ elim (subst (In c) (update_same hi.hash chain h (c0 ∷ hi.hash chain) same) m) [
      | inl new ↦ (omega (arith, new), id, ap (update hi.id c0 (some id)) new ∙ new_kept, same)
      | inr old ↦ let (lt, x, e, at) = v.linked chain c old in (lt, x, other_kept c x e, at ∙ same)
    ]
    | no differ ↦
        let (lt, x, e, at) =
          v.linked h c (subst (In c) (update_ne hi.hash chain h (c0 ∷ hi.hash chain) differ) m) in
        (lt, x, other_kept c x e, at)
  ]

  inserted_unique : (c d x : ℕ) → inserted.id c ≡ some x → inserted.id d ≡ some x → c ≡ d
  inserted_unique c d x e k = elim (either c x e) [
    | inl (new, same) ↦ elim (either d x k) [
      | inl (new', same') ↦ sym new ∙ new'
      | inr old' ↦ absurd (unused d (old' ∙ ap some (sym same)))
    ]
    | inr old ↦ elim (either d x k) [
      | inl (new', same') ↦ absurd (unused c (old ∙ ap some (sym same')))
      | inr old' ↦ v.unique c d x old old'
    ]
  ]

  pub inserted-IsHashid : IsHashid inserted
  inserted-IsHashid = record {
    placed = λ c x e. elim (either c x e) [
      | inl (new, same) ↦
          subst (λ d. In d (inserted.hash (bit_and x hi.hashmod))) new
            (subst (λ y. In c0 (inserted.hash (bit_and y hi.hashmod))) same new-In)
      | inr old ↦ In-hash (bit_and x hi.hashmod) c (v.placed c x old)
    ];
    linked = inserted_linked;
    unique = inserted_unique;
    distinct = λ h. elim (ℕ_discrete chain h) [
      | yes same ↦
          subst Distinct (sym (update_same hi.hash chain h (c0 ∷ hi.hash chain) same))
            (not_In chain, v.distinct chain)
      | no differ ↦
          subst Distinct (sym (update_ne hi.hash chain h (c0 ∷ hi.hash chain) differ))
            (v.distinct h)
    ];
    counted = omega (arith, v.counted, ap busy free, used-update hi.id c0 (some id) hi.cap below);
  }

  inserted_table :
      (x : ℕ) → hashid_lookup inserted x ≡ (if id == x then some c0 else hashid_lookup hi x)
  inserted_table x = elim (ℕ_discrete id x) [
    | yes same ↦
        let t : (id == x) ≡ true = ground arith in
        rw t ((hashid_lookup_lem x c0 inserted-IsHashid).1 (new_kept ∙ ap some same))
    | no differ ↦ rw (==_ne id x differ) (
        Option-ext (hashid_lookup inserted x) (hashid_lookup hi x) (λ c. (
          λ e. elim (either c x ((hashid_lookup_lem x c inserted-IsHashid).0 e)) [
            | inl (new, same) ↦ absurd (differ same)
            | inr old ↦ (hashid_lookup_lem x c v).1 old
          ],
          λ e.
              (hashid_lookup_lem x c inserted-IsHashid).1
                (other_kept c x ((hashid_lookup_lem x c v).0 e)),
        )))
  ]

free_cell-some :
    (hi : Hashid) (id rounds i : ℕ) {c : ℕ}
    → free_cell hi id rounds i ≡ some c
    → (is_free (hi.id c) ≡ true) × ((j : ℕ) × (c ≡ (j + id) % hi.cap))
unfolding free_cell
free_cell-some hi id zero i e = absurd (ground (arith, e))
free_cell-some hi id (suc rounds) i {c} e = elim (Bool-cases (leb (2 ^ 31) (i + id))) [
  | inl t ↦ absurd (ground (arith, t, e))
  | inr t ↦ elim (Bool-cases (is_free (hi.id ((i + id) % hi.cap)))) [
    | inl free ↦
        let same : (i + id) % hi.cap ≡ c = ground (arith, t, free, e) in
        (ap (λ k. is_free (hi.id k)) (sym same) ∙ free, (i, sym same))
    | inr taken ↦ free_cell-some hi id rounds (i + 1) (ground (arith, t, taken, e))
  ]
]

free_cell-none :
    (hi : Hashid) (id rounds i j : ℕ)
    → free_cell hi id rounds i ≡ none
    → i + rounds + id ≤ 2 ^ 31
    → j < rounds
    → is_free (hi.id ((i + j + id) % hi.cap)) ≡ false
unfolding free_cell
free_cell-none hi id zero i j e small h = absurd (omega arith)
free_cell-none hi id (suc rounds) i j e small h =
    let t : leb (2 ^ 31) (i + id) ≡ false = ground arith in
    elim (Bool-cases (is_free (hi.id ((i + id) % hi.cap)))) [
      | inl free ↦ absurd (ground (arith, t, free, e))
      | inr taken ↦ elim (ℕ_discrete j 0) [
        | yes z ↦
            let same : i + j + id ≡ i + id = omega arith in
            ap (λ k. is_free (hi.id (k % hi.cap))) same ∙ taken
        | no nz ↦
            let same : i + j + id ≡ i + 1 + (j - 1) + id = omega arith in
            ap (λ k. is_free (hi.id (k % hi.cap))) same
            ∙ free_cell-none hi id rounds (i + 1) (j - 1) (ground (arith, t, taken, e))
                (omega arith) (omega arith)
      ]
    ]

used_all : (id : ℕ → Option ℕ) (n : ℕ) → ((t : ℕ) → t < n → is_free (id t) ≡ false) → used id n ≡ n
used_all id zero h = refl
used_all id (suc n) h =
    let last : busy (id n) ≡ 1 = ground (arith, h n (omega arith)) in
    omega (arith, last, used_all id n (λ t lt. h t (omega arith)))

-- Where no cell is found, all are in use.
free_cell-full :
    (hi : Hashid) (id : ℕ)
    → free_cell hi id hi.cap 0 ≡ none
    → hi.cap + id ≤ 2 ^ 31
    → used hi.id hi.cap ≡ hi.cap
free_cell-full hi id e small = used_all hi.id hi.cap (λ t lt.
    let n : ℕ = hi.cap in
    let j : ℕ = (t + (n - id % n)) % n in
    let below : j < n = mod-lt (t + (n - id % n)) (omega arith) in
    let zero_first : 0 + j ≡ j = omega arith in
    ap (λ k. is_free (hi.id k)) (sym (cover t n id lt))
    ∙ ap (λ k. is_free (hi.id ((k + id) % n))) (sym zero_first)
    ∙ free_cell-none hi id n 0 j e (omega arith) below)

-- The id has a cell that was free, and the other ids keep theirs.
pub record Inserted (hi : Hashid) (id : ℕ) (hi' : Hashid) (c : ℕ) : Type 0 where
  pub valid : IsHashid hi'
  pub within : c < hi.cap
  pub was_free : hi.id c ≡ none
  pub table : (x : ℕ) → hashid_lookup hi' x ≡ (if id == x then some c else hashid_lookup hi x)

insert_found :
    {hi : Hashid} (v : IsHashid hi) (id c : ℕ) (below : c < hi.cap) (free : hi.id c ≡ none)
    (unused : (d : ℕ) → hi.id d ≢ some id)
    → free_cell hi id hi.cap 0 ≡ some c
    → hashid_insert hi id ≡ some (inserted v id c below free unused, c)
unfolding hashid_insert
insert_found v id c below free unused e = rw (e, hashid_insert) refl

cap_pos : {hi : Hashid} → IsHashid hi → hashid_full hi ≡ false → 0 < hi.cap
unfolding hashid_full
cap_pos {hi} v room = elim (ℕ_discrete hi.cap 0) [
  | no ne ↦ omega arith
  | yes z ↦ absurd (ground (arith, v.counted, ap (used hi.id) z, room))
]

-- While the table is not full, `hashid_insert` gives an id that is not in it a cell of its own, fails
-- no assert, and leaves the other ids. An id is below 2^31 by the number of cells.
pub hashid_insert_lem :
    {hi : Hashid} (id : ℕ)
    → IsHashid hi
    → hashid_full hi ≡ false
    → hashid_lookup hi id ≡ none
    → hi.cap + id ≤ 2 ^ 31
    → (hi' : Hashid) × (c : ℕ) × (hashid_insert hi id ≡ some (hi', c)) × Inserted hi id hi' c
unfolding hashid_full
hashid_insert_lem {hi} id v room new small =
    let unused : (d : ℕ) → hi.id d ≢ some id =
      λ d e. absurd (ground (arith, (hashid_lookup_lem id d v).1 e, new)) in
    elim (Option-cases (free_cell hi id hi.cap 0)) [
      | inl e ↦ absurd (ground (arith, free_cell-full hi id e small, v.counted, room))
      | inr (c, e) ↦
          let (t, (j, at)) = free_cell-some hi id hi.cap 0 e in
          let below : c < hi.cap =
            omega (arith, at, mod-lt (j + id) {m = hi.cap} (cap_pos v room)) in
          let free : hi.id c ≡ none = elim (Option-cases (hi.id c)) [
            | inl k ↦ k
            | inr (x, k) ↦ absurd (ground (arith, k, t))
          ] in
          (
            inserted v id c below free unused,
            c,
            insert_found v id c below free unused e,
            record {
              valid = inserted-IsHashid v id c below free unused;
              within = below;
              was_free = free;
              table = inserted_table v id c below free unused;
            },
          )
    ]
