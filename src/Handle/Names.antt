-- ===== src/Handle/Names.antt =====
-- skynet-src/skynet_handle.c: the names of services, found and inserted.
use Prim.Native.Nat.{Ordering}
use paohuzi_server.Shared.{
  ℕ, zero, suc, ◌+◌, ◌*◌, ◌^◌, ◌≤◌, ◌≡◌, ◌↔◌, refl, ◌≢◌, inl, inr, Bool, true, false, Option, some,
  none, List, [], ◌∷◌, ◌++◌, arith, leb, if◌then◌else◌, sym, ◌∙◌, ap, get_elem?, length, take, drop,
  dec_lt,
}
use paohuzi_server.Handle.{
  HandleName, HandleStorage, strcmp, Place, hit, miss, search_name, find_name, insert_name_before,
  insert_name, max_slot_size,
}
use paohuzi_server.Handle.Order.{
  Ordering-cases, strcmp_self, strcmp_eq, strcmp_lt, strcmp_trans, AllBehind, AllBehind-at,
  IsSorted,
}
use paohuzi_server.Handle.Bisection.{some_inj, Finds, search_whole}

-- The names as a table, read one after the other.
abbrev pub lookup_name : List ℕ → List HandleName → Option ℕ
lookup_name name [] = none
lookup_name name (n ∷ l) =
    let rest = lookup_name name l in
    elim (strcmp n.name name) [
      | Ordering.eq ↦ some n.handle
      | Ordering.lt ↦ rest
      | Ordering.gt ↦ rest
    ]

lookup_name-hit :
    (l : List HandleName) (name : List ℕ) (i : ℕ) {n : HandleName}
    → IsSorted l
    → get_elem? l i ≡ some n
    → n.name ≡ name
    → lookup_name name l ≡ some n.handle
lookup_name-hit [] name i h e same = cc
lookup_name-hit (x ∷ l) name zero {n} h e same =
    let mine : x ≡ n = some_inj e in
    let eq : strcmp x.name name ≡ Ordering.eq =
      ap (λ y. strcmp y.name name) mine ∙ ap (strcmp n.name) (sym same) ∙ strcmp_self n.name in
    rw (eq, lookup_name) (ap (λ y. some y.handle) mine)
lookup_name-hit (x ∷ l) name (suc i) {n} h e same =
    let lt : strcmp x.name name ≡ Ordering.lt =
      ap (strcmp x.name) (sym same) ∙ AllBehind-at x.name l i h.0 e in
    rw (lt, lookup_name) (lookup_name-hit l name i h.1 e same)

lookup_name-miss :
    (l : List HandleName) (name : List ℕ)
    → ((i : ℕ) (n : HandleName) → get_elem? l i ≡ some n → strcmp n.name name ≢ Ordering.eq)
    → lookup_name name l ≡ none
lookup_name-miss [] name h = refl
lookup_name-miss (x ∷ l) name h = elim (Ordering-cases (strcmp x.name name)) [
  | inl e ↦ rw (e, lookup_name) (lookup_name-miss l name (λ i n at. h (suc i) n at))
  | inr (inl e) ↦ absurd (h 0 x refl e)
  | inr (inr e) ↦ rw (e, lookup_name) (lookup_name-miss l name (λ i n at. h (suc i) n at))
]

pub Finds-lookup :
    (l : List HandleName) (name : List ℕ) (place : Place)
    → IsSorted l
    → Finds l name place
    → lookup_name name l
      ≡ (elim place as (λ p. Option ℕ) [ hit n ↦ some n.handle | miss at ↦ none ])
Finds-lookup l name (hit n) sorted (i, at, same) = lookup_name-hit l name i sorted at same
Finds-lookup l name (miss at) sorted (inside, below, above) =
    lookup_name-miss l name (λ i n here eq. elim (dec_lt i at) [
      | yes lt ↦ absurd (ground (arith, below i n lt here, eq))
      | no ge ↦ absurd (ground (arith, strcmp_lt name n.name (above i n (omega arith) here), eq))
    ])

abbrev pub handle_or_zero : Option ℕ → ℕ
handle_or_zero none = 0
handle_or_zero (some handle) = handle

-- `skynet_handle_findname` finds by bisection of the sorted names what reading them all would find, or
-- gives 0; its loop ends within the rounds that there are names.
pub find_name-lookup_name :
    (s : HandleStorage) (name : List ℕ)
    → IsSorted s.names
    → find_name s name ≡ some (handle_or_zero (lookup_name name s.names))
unfolding find_name
find_name-lookup_name s name sorted =
    let (place, e, found) = search_whole s.names name sorted in
    rw (e, Finds-lookup s.names name place sorted found) (by_place place)
  where
    by_place :
        (place : Place)
        → (elim place as (λ p. Option ℕ) [ hit n ↦ some n.handle | miss at ↦ some 0 ])
          ≡ some (
              handle_or_zero
                (elim place as (λ p. Option ℕ) [ hit n ↦ some n.handle | miss at ↦ none ]))
    by_place (hit n) = refl
    by_place (miss at) = refl

AllBehind-trans :
    (a b : List ℕ) (l : List HandleName) → strcmp a b ≡ Ordering.lt → AllBehind b l → AllBehind a l
AllBehind-trans a b [] h k = tt
AllBehind-trans a b (n ∷ l) h k = (strcmp_trans a b n.name h k.0, AllBehind-trans a b l h k.1)

abbrev insert_at : ℕ → HandleName → List HandleName → List HandleName
insert_at at entry l = take at l ++ (entry ∷ drop at l)

AllBehind-insert :
    (at : ℕ) (entry : HandleName) (l : List HandleName) (name : List ℕ)
    → strcmp name entry.name ≡ Ordering.lt
    → AllBehind name l
    → AllBehind name (insert_at at entry l)
AllBehind-insert zero entry l name h k = (h, k)
AllBehind-insert (suc at) entry [] name h k = (h, tt)
AllBehind-insert (suc at) entry (n ∷ l) name h k = (k.0, AllBehind-insert at entry l name h k.1)

lookup_name_tail :
    (name : List ℕ) (n : HandleName) (l : List HandleName)
    → lookup_name name (n ∷ l) ≡ none
    → lookup_name name l ≡ none
lookup_name_tail name n l h = elim (Ordering-cases (strcmp n.name name)) [
  | inl e ↦ sym (rw (e, lookup_name) refl) ∙ h
  | inr (inl e) ↦ absurd (ground (arith, e, h))
  | inr (inr e) ↦ sym (rw (e, lookup_name) refl) ∙ h
]

-- The new name at its place keeps the names sorted, and is added to the table.
module _ (entry : HandleName) where
  insert_at-IsSorted :
      (at : ℕ) (l : List HandleName)
      → IsSorted l
      → Finds l entry.name (miss at)
      → IsSorted (insert_at at entry l)
  insert_at-IsSorted zero [] sorted f = (tt, tt)
  insert_at-IsSorted zero (n ∷ l) sorted f =
      let first : strcmp entry.name n.name ≡ Ordering.lt = f.2 0 n (omega arith) refl in
      ((first, AllBehind-trans entry.name n.name l first sorted.0), sorted)
  insert_at-IsSorted (suc at) [] sorted f = absurd (omega (arith, f.0))
  insert_at-IsSorted (suc at) (n ∷ l) sorted f = (
    AllBehind-insert at entry l n.name (f.1 0 n (omega arith) refl) sorted.0,
    insert_at-IsSorted at l sorted.1 (
      omega (arith, f.0),
      λ i m lt e. f.1 (suc i) m (omega arith) e,
      λ i m le e. f.2 (suc i) m (omega arith) e,
    ),
  )

  -- The table with `entry` for its name, where there was none.
  abbrev added : List ℕ → Option ℕ → Option ℕ
  added name (some handle) = some handle
  added name none = elim (strcmp entry.name name) [
    | Ordering.eq ↦ some entry.handle
    | Ordering.lt ↦ none
    | Ordering.gt ↦ none
  ]

  added_other :
      (name : List ℕ) (o : Option ℕ) → strcmp entry.name name ≢ Ordering.eq → added name o ≡ o
  added_other name (some handle) ne = refl
  added_other name none ne = elim (Ordering-cases (strcmp entry.name name)) [
    | inl e ↦ rw (e, added) refl
    | inr (inl e) ↦ absurd (ne e)
    | inr (inr e) ↦ rw (e, added) refl
  ]

  added_own :
      (name : List ℕ) → strcmp entry.name name ≡ Ordering.eq → added name none ≡ some entry.handle
  added_own name e = rw (e, added) refl

  lookup_name-insert_at :
      (at : ℕ) (l : List HandleName) (name : List ℕ)
      → lookup_name entry.name l ≡ none
      → lookup_name name (insert_at at entry l) ≡ added name (lookup_name name l)
  lookup_name-insert_at zero l name new = elim (Ordering-cases (strcmp entry.name name)) [
    | inl e ↦
        rw (e, lookup_name) (sym (added_other name (lookup_name name l) (λ eq. cc (sym e ∙ eq))))
    | inr (inl e) ↦
        let mine : lookup_name name l ≡ none =
          ap (λ k. lookup_name k l) (sym (strcmp_eq entry.name name e)) ∙ new in
        rw (e, lookup_name) (sym (ap (added name) mine ∙ added_own name e))
    | inr (inr e) ↦
        rw (e, lookup_name) (sym (added_other name (lookup_name name l) (λ eq. cc (sym e ∙ eq))))
  ]
  lookup_name-insert_at (suc at) [] name new = elim (Ordering-cases (strcmp entry.name name)) [
    | inl e ↦ rw (e, lookup_name, added) refl
    | inr (inl e) ↦ rw (e, lookup_name, added) refl
    | inr (inr e) ↦ rw (e, lookup_name, added) refl
  ]
  lookup_name-insert_at (suc at) (n ∷ l) name new = elim (Ordering-cases (strcmp n.name name)) [
    | inl e ↦
        rw (e, lookup_name) (lookup_name-insert_at at l name (lookup_name_tail entry.name n l new))
    | inr (inl e) ↦ rw (e, lookup_name) refl
    | inr (inr e) ↦
        rw (e, lookup_name) (lookup_name-insert_at at l name (lookup_name_tail entry.name n l new))
  ]

  -- A name that is there keeps its handle.
  added_taken :
      (l : List HandleName) (name : List ℕ) {handle : ℕ}
      → lookup_name entry.name l ≡ some handle
      → lookup_name name l ≡ added name (lookup_name name l)
  added_taken l name old = elim (Ordering-cases (strcmp entry.name name)) [
    | inl e ↦ sym (added_other name (lookup_name name l) (λ eq. cc (sym e ∙ eq)))
    | inr (inl e) ↦
        let here = ap (λ k. lookup_name k l) (sym (strcmp_eq entry.name name e)) ∙ old in
        here ∙ sym (ap (added name) here)
    | inr (inr e) ↦ sym (added_other name (lookup_name name l) (λ eq. cc (sym e ∙ eq)))
  ]

-- What `insert_name` has done: the names are sorted, those that were there keep their handles, and the
-- new one has its own if it was not there.
pub record Named (s : HandleStorage) (name : List ℕ) (handle : ℕ) (s' : HandleStorage) (new : Bool)
    : Type 0 where
  pub sorted : IsSorted s'.names
  pub fresh : (new ≡ true) ↔ (lookup_name name s.names ≡ none)
  pub table :
      (k : List ℕ)
      → lookup_name k s'.names
        ≡ added (record { name = name; handle = handle }) k (lookup_name k s.names)
  pub slots : s'.slot ≡ s.slot

insert_name-hit :
    (s : HandleStorage) (name : List ℕ) (handle : ℕ) {n : HandleName}
    → search_name (length s.names + 1) s.names name 0 (length s.names) ≡ some (hit n)
    → insert_name s name handle ≡ some (s, false)
unfolding insert_name
insert_name-hit s name handle e = rw e refl

module _ (s : HandleStorage) (name : List ℕ) (handle : ℕ) where
  abbrev entry : HandleName
  entry = record { name = name; handle = handle }

  abbrev inserted : ℕ → HandleStorage
  inserted at = record s {
    name_cap = if leb s.name_cap (length s.names) then s.name_cap * 2 else s.name_cap;
    names = insert_at at entry s.names;
  }

  insert_name_before_lem :
      (at : ℕ) → s.name_cap ≤ 2 ^ 29 → insert_name_before s name handle at ≡ some (inserted at)
  unfolding insert_name_before
  insert_name_before_lem at small =
      let room : leb (if leb s.name_cap (length s.names) then s.name_cap * 2 else s.name_cap)
            max_slot_size
          ≡ true =
        ground arith in
      rw room refl

  insert_name-miss :
      (at : ℕ)
      → s.name_cap ≤ 2 ^ 29
      → search_name (length s.names + 1) s.names name 0 (length s.names) ≡ some (miss at)
      → insert_name s name handle ≡ some (inserted at, true)
  unfolding insert_name
  insert_name-miss at small e = rw (e, insert_name_before_lem at small) refl

-- `skynet_handle_namehandle` names a service, unless the name is taken, and leaves the other names.
-- It fails no assert while there are less than 2^29 cells for names.
pub insert_name_lem :
    (s : HandleStorage) (name : List ℕ) (handle : ℕ)
    → IsSorted s.names
    → s.name_cap ≤ 2 ^ 29
    → (s' : HandleStorage) × (new : Bool) × (insert_name s name handle ≡ some (s', new))
      × Named s name handle s' new
insert_name_lem s name handle sorted small =
    let (place, e, found) = search_whole s.names name sorted in by_place place e found
  where
    by_place :
        (place : Place)
        → search_name (length s.names + 1) s.names name 0 (length s.names) ≡ some place
        → Finds s.names name place
        → (s' : HandleStorage) × (new : Bool) × (insert_name s name handle ≡ some (s', new))
          × Named s name handle s' new
    by_place (hit n) e found =
        let old = Finds-lookup s.names name (hit n) sorted found in
        (
          s,
          false,
          insert_name-hit s name handle e,
          record {
            sorted = sorted;
            fresh = (λ t. cc, λ t. absurd (ground (arith, old, t)));
            table = λ k. added_taken (entry s name handle) s.names k old;
            slots = refl;
          },
        )
    by_place (miss at) e found =
        let none_yet = Finds-lookup s.names name (miss at) sorted found in
        (
          inserted s name handle at,
          true,
          insert_name-miss s name handle at small e,
          record {
            sorted = insert_at-IsSorted (entry s name handle) at s.names sorted found;
            fresh = (λ t. none_yet, λ t. refl);
            table = λ k. lookup_name-insert_at (entry s name handle) at s.names k none_yet;
            slots = refl;
          },
        )
