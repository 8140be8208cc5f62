-- ===== src/Gate/Packages.antt =====
-- service-src/service_gate.c: the packages of a stream of bytes, told without the code's state.
use paohuzi_server.Shared.{
  ℕ, zero, suc, ◌+◌, ◌^◌, ◌≤◌, ◌<◌, ◌≡◌, ◌≢◌, ◌⊎◌, inl, inr, refl, true, false, List, [], ◌∷◌, ◌++◌,
  arith, sym, ◌∙◌, ap, ap₂, subst, append-nil, ltb, leb, ◌==◌, ◌||◌, if◌then◌else◌, length, take,
  drop, length-append, length-drop, take-append_left, drop-append_left, dec_lt, ℕ_discrete,
}
use paohuzi_server.Gate.{header_value, max_package}

-- What a stream begins with, where a header of `h` that is not 0 was read before: less than a
-- package, and then what header and bytes are left; a package, or one that is too large.
pub data Next : Type 0 where
  wait : ℕ → List ℕ → Next
  big : Next
  got : List ℕ → List ℕ → Next

abbrev pub body : ℕ → List ℕ → Next
body h l =
    if leb (2 ^ 31) h || ltb (length l) h
    then wait h l
    else if leb max_package h
    then big
    else got (take h l) (drop h l)

abbrev pub next : ℕ → ℕ → List ℕ → Next
next k h l =
    if h == 0
    then (if ltb (length l) k then wait 0 l else body (header_value (take k l)) (drop k l))
    else body h l

-- How a stream ends: waiting for more, or with a package that is too large.
pub data Ending : Type 0 where
  waiting : ℕ → List ℕ → Ending
  too_large : Ending

-- Empty packages are passed over.
abbrev pub keep : List ℕ → List (List ℕ) → List (List ℕ)
keep [] ps = ps
keep (x ∷ p) ps = (x ∷ p) ∷ ps

-- The packages of a stream. The fuel is more than its length.
unfoldable pub packages : ℕ → ℕ → ℕ → List ℕ → List (List ℕ) × Ending
packages zero k h l = ([], waiting h l)
packages (suc fuel) k h l = elim (next k h l) [
  | wait h' l' ↦ ([], waiting h' l')
  | big ↦ ([], too_large)
  | got p l' ↦ let rest = packages fuel k 0 l' in (keep p rest.0, rest.1)
]

pub Next-cases :
    (n : Next)
    → ((h : ℕ) × (l : List ℕ) × (n ≡ wait h l))
      ⊎ ((n ≡ big) ⊎ ((p : List ℕ) × (l : List ℕ) × (n ≡ got p l)))
Next-cases (wait h l) = inl (h, l, refl)
Next-cases big = inr (inl refl)
Next-cases (got p l) = inr (inr (p, l, refl))

pub body-got :
    (h : ℕ) (l : List ℕ) → h ≤ length l → h < max_package → body h l ≡ got (take h l) (drop h l)
body-got h l fits small =
    let t : leb (2 ^ 31) h || ltb (length l) h ≡ false = ground arith in
    let u : leb max_package h ≡ false = ground arith in rw (t, u) refl

body-big : (h : ℕ) (l : List ℕ) → h ≤ length l → max_package ≤ h → h < 2 ^ 31 → body h l ≡ big
body-big h l fits large small =
    let t : leb (2 ^ 31) h || ltb (length l) h ≡ false = ground arith in
    let u : leb max_package h ≡ true = ground arith in rw (t, u) refl

body-wait : (h : ℕ) (l : List ℕ) → (2 ^ 31 ≤ h) ⊎ (length l < h) → body h l ≡ wait h l
body-wait h l more = let t : leb (2 ^ 31) h || ltb (length l) h ≡ true = ground arith in rw t refl

-- The three ways that a body can be found.
pub data BodyView (h : ℕ) (l : List ℕ) : Type 0 where
  is_wait : (2 ^ 31 ≤ h) ⊎ (length l < h) → body h l ≡ wait h l → BodyView h l
  is_big : h ≤ length l → max_package ≤ h → h < 2 ^ 31 → body h l ≡ big → BodyView h l
  is_got : h ≤ length l → h < max_package → body h l ≡ got (take h l) (drop h l) → BodyView h l

pub view_body : (h : ℕ) (l : List ℕ) → BodyView h l
view_body h l = elim (dec_lt (length l) h) [
  | yes lt ↦ is_wait (inr lt) (body-wait h l (inr lt))
  | no ge ↦ elim (dec_lt h max_package) [
    | yes small ↦ is_got (omega arith) small (body-got h l (omega arith) small)
    | no large ↦ elim (dec_lt h (2 ^ 31)) [
      | yes fits ↦
          is_big (omega arith) (omega arith) fits (body-big h l (omega arith) (omega arith) fits)
      | no minus ↦ is_wait (inl (omega arith)) (body-wait h l (inl (omega arith)))
    ]
  ]
]

pub next-body : (k h : ℕ) (l : List ℕ) → h ≢ 0 → next k h l ≡ body h l
next-body k h l ne = let t : (h == 0) ≡ false = ground arith in rw t refl

pub next-short : (k : ℕ) (l : List ℕ) → length l < k → next k 0 l ≡ wait 0 l
next-short k l lt = let t : ltb (length l) k ≡ true = ground arith in rw t refl

pub next-header :
    (k : ℕ) (l : List ℕ) → k ≤ length l → next k 0 l ≡ body (header_value (take k l)) (drop k l)
next-header k l le = let t : ltb (length l) k ≡ false = ground arith in rw t refl

-- More bytes behind a stream
abbrev extend : ℕ → Next → List ℕ → Next
extend k (wait h l) more = next k h (l ++ more)
extend k big more = big
extend k (got p l) more = got p (l ++ more)

body-append : (k h : ℕ) (l more : List ℕ) → body h (l ++ more) ≡ extend k (body h l) more
body-append k h l more = elim (view_body h l) [
  | is_wait cause e ↦
      sym (ap (λ n. extend k n more) e ∙ next-body k h (l ++ more) (λ z. ground arith))
  | is_big fits large small e ↦
      body-big h (l ++ more) (omega (arith, length-append l more)) large small
      ∙ sym (ap (λ n. extend k n more) e)
  | is_got fits small e ↦
      body-got h (l ++ more) (omega (arith, length-append l more)) small
      ∙ ap₂ got (take-append_left h l more fits) (drop-append_left h l more fits)
      ∙ sym (ap (λ n. extend k n more) e)
]

-- What a stream begins with, once there are more bytes behind it.
next-append : (k h : ℕ) (l more : List ℕ) → next k h (l ++ more) ≡ extend k (next k h l) more
next-append k h l more = elim (ℕ_discrete h 0) [
  | no ne ↦
      next-body k h (l ++ more) ne
      ∙ body-append k h l more
      ∙ sym (ap (λ n. extend k n more) (next-body k h l ne))
  | yes z ↦ elim (dec_lt (length l) k) [
    | yes lt ↦
        ap (λ i. next k i (l ++ more)) z
        ∙ sym (ap (λ n. extend k n more) (ap (λ i. next k i l) z ∙ next-short k l lt))
    | no ge ↦
        let le : k ≤ length l = omega arith in
        ap (λ i. next k i (l ++ more)) z
        ∙ next-header k (l ++ more) (omega (arith, length-append l more))
        ∙ ap₂ (λ a b. body (header_value a) b) (take-append_left k l more le)
            (drop-append_left k l more le)
        ∙ body-append k (header_value (take k l)) (drop k l) more
        ∙ sym (ap (λ n. extend k n more) (ap (λ i. next k i l) z ∙ next-header k l le))
  ]
]

-- What is left of a stream when its first package is taken, or its header.
abbrev Left : ℕ → Next → Type 0
Left n (wait h l) = length l ≤ n
Left n big = Unit
Left n (got p l) = length l < n

body-Left : (n h : ℕ) (l : List ℕ) → length l ≤ n → (h ≢ 0) ⊎ (length l < n) → Left n (body h l)
body-Left n h l le less = elim (view_body h l) [
  | is_wait cause e ↦ subst (Left n) (sym e) le
  | is_big fits large small e ↦ subst (Left n) (sym e) tt
  | is_got fits small e ↦ subst (Left n) (sym e) (ground (arith, length-drop h l, less))
]

next-Left : (k h : ℕ) (l : List ℕ) → 0 < k → Left (length l) (next k h l)
next-Left k h l pos = elim (ℕ_discrete h 0) [
  | no ne ↦
      subst (Left (length l)) (sym (next-body k h l ne))
        (body-Left (length l) h l (omega arith) (inl ne))
  | yes z ↦ elim (dec_lt (length l) k) [
    | yes lt ↦
        subst (Left (length l)) (sym (ap (λ i. next k i l) z ∙ next-short k l lt)) (omega arith)
    | no ge ↦
        subst (Left (length l)) (sym (ap (λ i. next k i l) z ∙ next-header k l (omega arith))) (
          body-Left (length l) (header_value (take k l)) (drop k l) (omega (arith, length-drop k l))
            (inr (omega (arith, length-drop k l))))
  ]
]

pub got-shorter :
    (k h : ℕ) (l : List ℕ) {p r : List ℕ} → 0 < k → next k h l ≡ got p r → length r < length l
got-shorter k h l pos e = subst (Left (length l)) e (next-Left k h l pos)

-- What `packages` makes of what a stream begins with, where `later` gives the packages of the rest.
abbrev pub finish : Next → (List ℕ → List (List ℕ) × Ending) → List (List ℕ) × Ending
finish (wait h l) later = ([], waiting h l)
finish big later = ([], too_large)
finish (got p l) later = (keep p (later l).0, (later l).1)

pub packages-suc :
    (n k h : ℕ) (l : List ℕ) → packages (suc n) k h l ≡ finish (next k h l) (packages n k 0)
unfolding packages
packages-suc n k h l = elim (Next-cases (next k h l)) [
  | inl (h', l', e) ↦ rw (e, packages) refl
  | inr (inl e) ↦ rw (e, packages) refl
  | inr (inr (p, l', e)) ↦ rw (e, packages) refl
]

-- Enough fuel.
pub packages_fuel :
    (n m k h : ℕ) (l : List ℕ)
    → 0 < k
    → length l < n
    → length l < m
    → packages n k h l ≡ packages m k h l
packages_fuel zero m k h l pos a b = absurd (omega arith)
packages_fuel (suc n) zero k h l pos a b = absurd (omega arith)
packages_fuel (suc n) (suc m) k h l pos a b =
    packages-suc n k h l
    ∙ by_next (next k h l) (next-Left k h l pos)
        (λ l' less. packages_fuel n m k 0 l' pos (omega arith) (omega arith))
    ∙ sym (packages-suc m k h l)
  where
    by_next :
        (x : Next)
        → Left (length l) x
        → ((l' : List ℕ) → length l' < length l → packages n k 0 l' ≡ packages m k 0 l')
        → finish x (packages n k 0) ≡ finish x (packages m k 0)
    by_next (wait h' l') less same = refl
    by_next big less same = refl
    by_next (got p l') less same = ap (λ r. (keep p r.0, r.1)) (same l' less)

-- A stream that goes on behind the packages that it had.
abbrev pub go_on : ℕ → ℕ → List (List ℕ) × Ending → List ℕ → List (List ℕ) × Ending
go_on n k (ps, waiting h l) more = let rest = packages n k h (l ++ more) in (ps ++ rest.0, rest.1)
go_on n k (ps, too_large) more = (ps, too_large)

go_on-keep :
    (n k : ℕ) (p : List ℕ) (r : List (List ℕ) × Ending) (more : List ℕ)
    → go_on n k (keep p r.0, r.1) more ≡ (keep p (go_on n k r more).0, (go_on n k r more).1)
go_on-keep n k [] (ps, waiting h l) more = refl
go_on-keep n k [] (ps, too_large) more = refl
go_on-keep n k (x ∷ p) (ps, waiting h l) more = refl
go_on-keep n k (x ∷ p) (ps, too_large) more = refl

-- The packages of a stream are those of its beginning, and those of the rest behind what was left.
pub packages-append :
    (n m k h : ℕ) (l more : List ℕ)
    → 0 < k
    → length l + length more < n
    → length l + length more < m
    → packages n k h (l ++ more) ≡ go_on m k (packages n k h l) more
packages-append zero m k h l more pos a b = absurd (omega arith)
packages-append (suc n) m k h l more pos a b =
    packages-suc n k h (l ++ more)
    ∙ ap (λ x. finish x (packages n k 0)) (next-append k h l more)
    ∙ by_next (next k h l) (next-Left k h l pos)
        (λ l' less. packages-append n m k 0 l' more pos (omega arith) (omega arith))
    ∙ sym (ap (λ r. go_on m k r more) (packages-suc n k h l))
  where
    by_next :
        (x : Next)
        → Left (length l) x
        → ((l' : List ℕ)
            → length l' < length l
            → packages n k 0 (l' ++ more) ≡ go_on m k (packages n k 0 l') more)
        → finish (extend k x more) (packages n k 0) ≡ go_on m k (finish x (packages n k 0)) more
    by_next (wait h' l') less same =
        sym (packages-suc n k h' (l' ++ more))
        ∙ packages_fuel (suc n) m k h' (l' ++ more) pos (omega (arith, length-append l' more))
            (omega (arith, length-append l' more))
    by_next big less same = refl
    by_next (got p l') less same =
        ap (λ r. (keep p r.0, r.1)) (same l' less) ∙ sym (go_on-keep m k p (packages n k 0 l') more)

-- What is left at the end is the beginning of a package, and no more than there was.
abbrev pub Rest : ℕ → ℕ → Ending → Type 0
Rest k n (waiting h l) = (length l ≤ n) × (next k h l ≡ wait h l)
Rest k n too_large = Unit

Rest-mono : (k n m : ℕ) (e : Ending) → n ≤ m → Rest k n e → Rest k m e
Rest-mono k n m (waiting h l) le r = (omega (arith, r.0), r.1)
Rest-mono k n m too_large le r = tt

next-wait :
    (k h : ℕ) (l : List ℕ) {h' : ℕ} {l' : List ℕ}
    → next k h l ≡ wait h' l'
    → next k h' l' ≡ wait h' l'
next-wait k h l {h'} {l'} e =
    ap (next k h') (sym (append-nil l'))
    ∙ sym (ap (λ n. extend k n []) e)
    ∙ sym (next-append k h l [])
    ∙ ap (next k h) (append-nil l)
    ∙ e

pub packages-Rest :
    (n k h : ℕ) (l : List ℕ) → 0 < k → length l < n → Rest k (length l) (packages n k h l).1
packages-Rest zero k h l pos less = absurd (omega arith)
packages-Rest (suc n) k h l pos less =
    subst (λ r. Rest k (length l) r.1) (sym (packages-suc n k h l))
      (elim (Next-cases (next k h l)) [
        | inl (h', l', e) ↦
            subst (λ x. Rest k (length l) (finish x (packages n k 0)).1) (sym e)
              (subst (Left (length l)) e (next-Left k h l pos), next-wait k h l e)
        | inr (inl e) ↦ subst (λ x. Rest k (length l) (finish x (packages n k 0)).1) (sym e) tt
        | inr (inr (p, l', e)) ↦
            let fewer : length l' < length l = got-shorter k h l pos e in
            subst (λ x. Rest k (length l) (finish x (packages n k 0)).1) (sym e)
              (Rest-mono k (length l') (length l) (packages n k 0 l').1 (omega arith)
                (packages-Rest n k 0 l' pos (omega arith)))
      ])
