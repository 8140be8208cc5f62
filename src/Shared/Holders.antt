-- ===== src/Shared/Holders.antt =====
-- The calls of threads that hold an object by its address, and how many hold it.
use paohuzi_server.Shared.{
  ℕ, ◌+◌, ◌≤◌, ◌<◌, ◌≡◌, refl, Bool, true, false, List, [], ◌∷◌, arith, ◌==◌, ◌&&◌, ◌⊎◌, inl, inr,
  if◌then◌else◌, ℕ_discrete,
}

-- What the threads hold, as pairs of a thread and an address.
abbrev pub Held : Type 0
Held = List (ℕ × ℕ)

abbrev pub HeldBy : ℕ → ℕ → Held → Type 0
HeldBy i a [] = ⊥
HeldBy i a ((j, b) ∷ h) = ((i ≡ j) × (a ≡ b)) ⊎ HeldBy i a h

abbrev pub remove : ℕ → ℕ → Held → Held
remove i a [] = []
remove i a ((j, b) ∷ h) = if (i == j) && (a == b) then h else (j, b) ∷ remove i a h

abbrev pub one_if : Bool → ℕ
one_if true = 1
one_if false = 0

abbrev pub holders : ℕ → Held → ℕ
holders a [] = 0
holders a ((j, b) ∷ h) = one_if (a == b) + holders a h

pub holders-remove :
    (i a b : ℕ) (h : Held) → HeldBy i a h → holders b (remove i a h) + one_if (b == a) ≡ holders b h
holders-remove i a b [] m = elim m [ ]
holders-remove i a b ((j, c) ∷ h) (inl e) = ground arith
holders-remove i a b ((j, c) ∷ h) (inr m) = ground (arith, holders-remove i a b h m)

pub holders_pos : (i a : ℕ) (h : Held) → HeldBy i a h → 0 < holders a h
holders_pos i a [] m = elim m [ ]
holders_pos i a ((j, c) ∷ h) (inl e) = ground arith
holders_pos i a ((j, c) ∷ h) (inr m) = omega (arith, holders_pos i a h m)

pub one_if-le : (b : Bool) → one_if b ≤ 1
one_if-le true = omega arith
one_if-le false = omega arith

pub holders_two : (i j a : ℕ) (h : Held) → HeldBy i a h → HeldBy j a h → (i ≡ j) ⊎ (1 < holders a h)
holders_two i j a [] m n = elim m [ ]
holders_two i j a ((k, b) ∷ h) (inl e) (inl f) = inl (ground arith)
holders_two i j a ((k, b) ∷ h) (inl e) (inr n) = inr (ground (arith, holders_pos j a h n))
holders_two i j a ((k, b) ∷ h) (inr m) (inl f) = inr (ground (arith, holders_pos i a h m))
holders_two i j a ((k, b) ∷ h) (inr m) (inr n) = elim (holders_two i j a h m n) [
  | inl same ↦ inl same
  | inr more ↦ inr (omega arith)
]

pub HeldBy-of_holders : (a : ℕ) (h : Held) → 0 < holders a h → (i : ℕ) × HeldBy i a h
HeldBy-of_holders a [] p = absurd (omega arith)
HeldBy-of_holders a ((j, b) ∷ h) p = elim (ℕ_discrete a b) [
  | yes e ↦ (j, inl (refl, e))
  | no ne ↦ let r = HeldBy-of_holders a h (ground arith) in (r.0, inr r.1)
]
