-- ===== src/Handle/Order.antt =====
-- skynet-src/skynet_handle.c: `strcmp` orders the names.
use Prim.Native.Nat.{Ordering}
use paohuzi_server.Shared.{
  ℕ, zero, suc, ◌<◌, ◌≡◌, refl, ◌⊎◌, inl, inr, some, List, [], ◌∷◌, arith, sym, ◌∙◌, ap, get_elem?,
  length,
}
use paohuzi_server.Handle.{HandleName, strcmp}

pub Ordering-cases : (o : Ordering) → (o ≡ Ordering.lt) ⊎ ((o ≡ Ordering.eq) ⊎ (o ≡ Ordering.gt))
Ordering-cases Ordering.lt = inl refl
Ordering-cases Ordering.eq = inr (inl refl)
Ordering-cases Ordering.gt = inr (inr refl)

pub strcmp_self : (s : List ℕ) → strcmp s s ≡ Ordering.eq
unfolding strcmp
strcmp_self [] = refl
strcmp_self (x ∷ s) = ground (arith, strcmp_self s)

pub strcmp_eq : (s t : List ℕ) → strcmp s t ≡ Ordering.eq → s ≡ t
unfolding strcmp
strcmp_eq [] [] h = refl
strcmp_eq [] (y ∷ t) h = cc
strcmp_eq (x ∷ s) [] h = cc
strcmp_eq (x ∷ s) (y ∷ t) h = ground (arith, strcmp_eq s t)

pub strcmp_gt : (s t : List ℕ) → strcmp s t ≡ Ordering.gt → strcmp t s ≡ Ordering.lt
unfolding strcmp
strcmp_gt [] [] h = cc
strcmp_gt [] (y ∷ t) h = cc
strcmp_gt (x ∷ s) [] h = refl
strcmp_gt (x ∷ s) (y ∷ t) h = ground (arith, strcmp_gt s t)

pub strcmp_lt : (s t : List ℕ) → strcmp s t ≡ Ordering.lt → strcmp t s ≡ Ordering.gt
unfolding strcmp
strcmp_lt [] [] h = cc
strcmp_lt [] (y ∷ t) h = refl
strcmp_lt (x ∷ s) [] h = cc
strcmp_lt (x ∷ s) (y ∷ t) h = ground (arith, strcmp_lt s t)

pub strcmp_trans :
    (s t u : List ℕ)
    → strcmp s t ≡ Ordering.lt
    → strcmp t u ≡ Ordering.lt
    → strcmp s u ≡ Ordering.lt
unfolding strcmp
strcmp_trans [] [] u h k = cc
strcmp_trans [] (y ∷ t) [] h k = cc
strcmp_trans [] (y ∷ t) (z ∷ u) h k = refl
strcmp_trans (x ∷ s) [] u h k = cc
strcmp_trans (x ∷ s) (y ∷ t) [] h k = cc
strcmp_trans (x ∷ s) (y ∷ t) (z ∷ u) h k = ground (arith, strcmp_trans s t u)

-- All names of the list come behind this one.
abbrev pub AllBehind : List ℕ → List HandleName → Type 0
AllBehind name [] = Unit
AllBehind name (n ∷ l) = (strcmp name n.name ≡ Ordering.lt) × AllBehind name l

abbrev pub IsSorted : List HandleName → Type 0
IsSorted [] = Unit
IsSorted (n ∷ l) = AllBehind n.name l × IsSorted l

pub AllBehind-at :
    (name : List ℕ) (l : List HandleName) (i : ℕ) {n : HandleName}
    → AllBehind name l
    → get_elem? l i ≡ some n
    → strcmp name n.name ≡ Ordering.lt
AllBehind-at name [] i h e = cc
AllBehind-at name (m ∷ l) zero {n} h e =
    let same : m ≡ n = cc in ap (λ x. strcmp name x.name) (sym same) ∙ h.0
AllBehind-at name (m ∷ l) (suc i) h e = AllBehind-at name l i h.1 e

pub sorted_at :
    (l : List HandleName) (i j : ℕ) {m n : HandleName}
    → IsSorted l
    → i < j
    → get_elem? l i ≡ some m
    → get_elem? l j ≡ some n
    → strcmp m.name n.name ≡ Ordering.lt
sorted_at [] i j h lt e f = cc
sorted_at (x ∷ l) i zero h lt e f = absurd (omega arith)
sorted_at (x ∷ l) zero (suc j) {m} {n} h lt e f =
    let same : x ≡ m = cc in
    ap (λ y. strcmp y.name n.name) (sym same) ∙ AllBehind-at x.name l j h.0 f
sorted_at (x ∷ l) (suc i) (suc j) h lt e f = sorted_at l i j h.1 (omega arith) e f

pub get_elem?-lt :
    (l : List HandleName) (i : ℕ) → i < length l → (n : HandleName) × (get_elem? l i ≡ some n)
get_elem?-lt [] i h = absurd (omega arith)
get_elem?-lt (x ∷ l) zero h = (x, refl)
get_elem?-lt (x ∷ l) (suc i) h = get_elem?-lt l i (omega arith)
