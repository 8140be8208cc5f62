-- ===== src/Handle/Slots.antt =====
-- skynet-src/skynet_handle.c: the slots as a table of the live services by handle.
use Prim.Native.Nat.{bit_and}
use native.Mathlib.Nat.{
  div-add-mod, mul-add-mod_self_left, mul_assoc, mul_comm, pow-suc, mod-lt, mod-add-mod, mul-suc,
  mod-eq_of_lt, mod-eq-sub-mod,
}
use paohuzi_server.Shared.{
  ℕ, zero, suc, ◌+◌, ◌-◌, ◌*◌, ◌/◌, ◌%◌, ◌^◌, ◌≤◌, ◌<◌, ◌≡◌, refl, ◌⊎◌, true, false, none, some,
  arith, sym, ◌∙◌, ap, ℕ_discrete, dec_lt, Bool-cases, inl, inr,
}
use paohuzi_server.Shared.Bits.{bit_and_ones, two_pow_pos}
use paohuzi_server.Handle.{HandleStorage, handle_init, hash, candidate, is_null, find_free}

pub two_pow-add : (k j : ℕ) → 2 ^ (k + j) ≡ 2 ^ k * 2 ^ j
two_pow-add zero j = let e : 0 + j ≡ j = omega arith in ap (λ n. 2 ^ n) e ∙ omega arith
two_pow-add (suc k) j =
    let e : suc k + j ≡ suc (k + j) = omega arith in
    ap (λ n. 2 ^ n) e
    ∙ pow-suc 2 (k + j)
    ∙ ap (λ n. n * 2) (two_pow-add k j)
    ∙ mul_assoc (2 ^ k) (2 ^ j) 2
    ∙ ap (λ n. 2 ^ k * n) (mul_comm (2 ^ j) 2)
    ∙ sym (mul_assoc (2 ^ k) 2 (2 ^ j))
    ∙ ap (λ n. n * 2 ^ j) (sym (pow-suc 2 k))

-- A remainder by a multiple of `c` loses nothing by `c`.
pub mod-mod_mul : (c q x : ℕ) → x % (c * q) % c ≡ x % c
mod-mod_mul c q x =
    sym (mul-add-mod_self_left c (q * (x / (c * q))) (x % (c * q)))
    ∙ ap (λ t. (t + x % (c * q)) % c) (sym (mul_assoc c q (x / (c * q))))
    ∙ ap (λ t. t % c) (div-add-mod x (c * q))

pub mod-mod_double : (c x : ℕ) → x % (c * 2) % c ≡ x % c
mod-mod_double c x = mod-mod_mul c 2 x

pub mod_double_cases : (c x : ℕ) → 0 < c → (x % (c * 2) ≡ x % c) ⊎ (x % (c * 2) ≡ x % c + c)
mod_double_cases c x h =
    let r : ℕ = x % (c * 2) in
    let small : r < c * 2 = mod-lt x (omega arith) in
    let e : r % c ≡ x % c = mod-mod_double c x in
    elim (dec_lt r c) [
      | yes lt ↦ inl (sym (mod-eq_of_lt lt) ∙ e)
      | no ge ↦ inr (
          omega (
            arith,
            e,
            mod-eq-sub-mod {n = r} {m = c} (omega arith),
            mod-eq_of_lt {n = r - c} {m = c} (omega arith),
          ))
    ]

-- There are 2^width slots, and the service in a slot has a handle that belongs there.
pub record IsStorage (handle_of : ℕ → ℕ) (s : HandleStorage) : Type 0 where
  pub width : ℕ
  pub small : width ≤ 24
  pub size : s.slot_size ≡ 2 ^ width
  pub index : s.handle_index ≤ 2 ^ 24
  pub remote : ℕ
  pub harbor : s.harbor ≡ remote * 2 ^ 24
  pub placed : (i ctx : ℕ) → i < s.slot_size → s.slot i ≡ some ctx → handle_of ctx % s.slot_size ≡ i

module _ {handle_of : ℕ → ℕ} {s : HandleStorage} (v : IsStorage handle_of s) where
  pub size_pos : 0 < s.slot_size
  size_pos = omega (arith, v.size, two_pow_pos v.width)

  pub hash-mod : (h : ℕ) → hash s h ≡ h % s.slot_size
  hash-mod h =
      ap (λ n. bit_and h (n - 1)) v.size ∙ bit_and_ones v.width h ∙ ap (λ n. h % n) (sym v.size)

  pub hash-lt : (h : ℕ) → hash s h < s.slot_size
  hash-lt h = omega (arith, hash-mod h, mod-lt h {m = s.slot_size} size_pos)

  candidate-mod : (i : ℕ) → i < 2 ^ 24 → candidate s i ≡ (i + s.handle_index) % 2 ^ 24
  candidate-mod i h = bit_and_ones 24 ((i + s.handle_index) % 2 ^ 32) ∙ omega (arith, v.index)

  pub size_factor : 2 ^ 24 ≡ s.slot_size * 2 ^ (24 - v.width)
  size_factor =
      let split : 24 ≡ v.width + (24 - v.width) = omega (arith, v.small) in
      ap (λ n. 2 ^ n) split
      ∙ two_pow-add v.width (24 - v.width)
      ∙ ap (λ n. n * 2 ^ (24 - v.width)) (sym v.size)

  -- The slots that the rounds try are those of consecutive handles.
  pub hash-candidate :
      (i : ℕ) → i < 2 ^ 24 → hash s (candidate s i) ≡ (i + s.handle_index) % s.slot_size
  hash-candidate i h =
      hash-mod (candidate s i)
      ∙ ap (λ n. n % s.slot_size)
          (candidate-mod i h ∙ ap (λ n. (i + s.handle_index) % n) size_factor)
      ∙ mod-mod_mul s.slot_size (2 ^ (24 - v.width)) (i + s.handle_index)

  pub candidate-lt : (i : ℕ) → candidate s i < 2 ^ 24
  candidate-lt i = omega (arith, bit_and_ones 24 ((i + s.handle_index) % 2 ^ 32))

  pub size_bound : s.slot_size ≤ 2 ^ 24
  size_bound = grind (arith, two_pow_pos (24 - v.width), size_factor)

-- A handle that `find_free` finds has a free slot.
pub find_free-some :
    (s : HandleStorage) (rounds i : ℕ) {h : ℕ}
    → find_free s rounds i ≡ some h
    → (is_null (s.slot (hash s h)) ≡ true) × ((j : ℕ) × (h ≡ candidate s j))
unfolding find_free
find_free-some s zero i e = absurd (ground (arith, e))
find_free-some s (suc rounds) i {h} e =
    elim (Bool-cases (is_null (s.slot (hash s (candidate s i))))) [
      | inl free ↦
          let same : candidate s i ≡ h = ground (arith, free, e) in
          (ap (λ k. is_null (s.slot (hash s k))) (sym same) ∙ free, (i, sym same))
      | inr taken ↦ find_free-some s rounds (i + 1) (ground (arith, taken, e))
    ]

-- If it finds none, it has seen a service in each slot that it tried.
find_free-none :
    (s : HandleStorage) (rounds i j : ℕ)
    → find_free s rounds i ≡ none
    → j < rounds
    → is_null (s.slot (hash s (candidate s (i + j)))) ≡ false
unfolding find_free
find_free-none s zero i j e h = absurd (omega arith)
find_free-none s (suc rounds) i j e h =
    elim (Bool-cases (is_null (s.slot (hash s (candidate s i))))) [
      | inl free ↦ absurd (ground (arith, free, e))
      | inr taken ↦ elim (ℕ_discrete j 0) [
        | yes z ↦
            let same : i + j ≡ i = omega arith in
            ap (λ k. is_null (s.slot (hash s (candidate s k)))) same ∙ taken
        | no nz ↦
            let same : i + j ≡ i + 1 + (j - 1) = omega arith in
            ap (λ k. is_null (s.slot (hash s (candidate s k)))) same
            ∙ find_free-none s rounds (i + 1) (j - 1) (ground (arith, taken, e)) (omega arith)
      ]
    ]

-- Every remainder comes up among `n` consecutive numbers.
pub cover : (t n x : ℕ) → t < n → ((t + (n - x % n)) % n + x) % n ≡ t
cover t n x h =
    let r : ℕ = x % n in
    let small : r < n = mod-lt x (omega arith) in
    let whole : t + (n - r) + x ≡ n * suc (x / n) + t =
      omega (arith, div-add-mod x n, mul-suc n (x / n)) in
    mod-add-mod (t + (n - r)) n x
    ∙ ap (λ k. k % n) whole
    ∙ mul-add-mod_self_left n (suc (x / n)) t
    ∙ mod-eq_of_lt h

pub find_free-full :
    {handle_of : ℕ → ℕ} {s : HandleStorage} (v : IsStorage handle_of s)
    → find_free s s.slot_size 0 ≡ none
    → (t : ℕ) → t < s.slot_size
    → is_null (s.slot t) ≡ false
find_free-full {handle_of} {s} v e t h =
    let n : ℕ = s.slot_size in
    let j : ℕ = (t + (n - s.handle_index % n)) % n in
    let below : j < n = mod-lt (t + (n - s.handle_index % n)) (omega arith) in
    let zero_first : 0 + j ≡ j = omega arith in
    let at : hash s (candidate s j) ≡ t =
      hash-candidate v j (omega (arith, size_bound v)) ∙ cover t n s.handle_index h in
    ap (λ k. is_null (s.slot k)) (sym at)
    ∙ ap (λ k. is_null (s.slot (hash s (candidate s k)))) (sym zero_first)
    ∙ find_free-none s n 0 j e below

pub handle_init-IsStorage :
    (handle_of : ℕ → ℕ) (harbor : ℕ) → IsStorage handle_of (handle_init harbor)
unfolding handle_init
handle_init-IsStorage handle_of harbor = record {
  width = 2;
  small = omega arith;
  size = refl;
  index = omega arith;
  remote = bit_and harbor 0xff;
  harbor = refl;
  placed = λ i ctx lt e. cc;
}
