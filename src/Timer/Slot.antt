-- ===== src/Timer/Slot.antt =====
-- skynet-src/skynet_timer.c: where `add_node` puts a node, as a number: 0 to 255 is a near bucket,
-- and 256 + 64 * i + j is bucket j of level i.
use paohuzi_server.Shared.{
  ℕ, ◌+◌, ◌-◌, ◌/◌, ◌%◌, ◌^◌, ◌<◌, ◌≡◌, refl, ◌≢◌, ◌⊎◌, inl, inr, Option, none, some, ◌==◌,
  if◌then◌else◌, arith, ◌∙◌, sym, ap, ℕ_discrete, ==_ne, ==_refl,
}
use paohuzi_server.Timer.{u32}

abbrev pub slot : ℕ → ℕ → ℕ
slot c e =
    if e / 2 ^ 8 == c / 2 ^ 8
    then e % 2 ^ 8
    else if e / 2 ^ 14 == c / 2 ^ 14
    then 256 + e / 2 ^ 8 % 64
    else if e / 2 ^ 20 == c / 2 ^ 20
    then 320 + e / 2 ^ 14 % 64
    else if e / 2 ^ 26 == c / 2 ^ 26
    then 384 + e / 2 ^ 20 % 64
    else 448 + e / 2 ^ 26 % 64

-- Ticks from `c` to `e` on the 32-bit clock.
abbrev pub remaining : ℕ → ℕ → ℕ
remaining c e = (e + u32 - c) % u32

-- The bucket that `timer_shift` empties when the clock reaches `c`, if any.
abbrev pub moved : ℕ → Option ℕ
moved c =
    if c % 2 ^ 8 == 0
    then if c / 2 ^ 8 % 64 == 0
      then if c / 2 ^ 14 % 64 == 0
        then if c / 2 ^ 20 % 64 == 0
          then some (448 + c / 2 ^ 26 % 64)
          else some (384 + c / 2 ^ 20 % 64)
        else some (320 + c / 2 ^ 14 % 64)
      else some (256 + c / 2 ^ 8 % 64)
    else none

pub fire_slot : (c e : ℕ) → c < u32 → e < u32 → remaining c e < 2 ^ 31 → slot c e ≡ c % 256 → e ≡ c
fire_slot c e hc he r h = ground arith

module _ (c e : ℕ) where
  slot_0 : e / 2 ^ 8 ≢ c / 2 ^ 8 → e / 2 ^ 14 ≡ c / 2 ^ 14 → slot c e ≡ 256 + e / 2 ^ 8 % 64
  slot_0 a b = rw (==_ne _ _ a, b, ==_refl (c / 2 ^ 14)) refl

  slot_1 : e / 2 ^ 14 ≢ c / 2 ^ 14 → e / 2 ^ 20 ≡ c / 2 ^ 20 → slot c e ≡ 320 + e / 2 ^ 14 % 64
  slot_1 a b =
      rw (==_ne (e / 2 ^ 8) (c / 2 ^ 8) (omega arith), ==_ne _ _ a, b, ==_refl (c / 2 ^ 20)) refl

  slot_2 : e / 2 ^ 20 ≢ c / 2 ^ 20 → e / 2 ^ 26 ≡ c / 2 ^ 26 → slot c e ≡ 384 + e / 2 ^ 20 % 64
  slot_2 a b =
      rw
        (
          ==_ne (e / 2 ^ 8) (c / 2 ^ 8) (omega arith),
          ==_ne (e / 2 ^ 14) (c / 2 ^ 14) (omega arith),
          ==_ne _ _ a,
          b,
          ==_refl (c / 2 ^ 26),
        )
        refl

  slot_3 : e / 2 ^ 26 ≢ c / 2 ^ 26 → slot c e ≡ 448 + e / 2 ^ 26 % 64
  slot_3 a =
      rw
        (
          ==_ne (e / 2 ^ 8) (c / 2 ^ 8) (omega arith),
          ==_ne (e / 2 ^ 14) (c / 2 ^ 14) (omega arith),
          ==_ne (e / 2 ^ 20) (c / 2 ^ 20) (omega arith),
          ==_ne _ _ a,
        )
        refl

module _ (c : ℕ) where
  pub moved-none : c % 2 ^ 8 ≢ 0 → moved c ≡ none
  moved-none a = rw (==_ne _ _ a) refl

  moved_0 : c % 2 ^ 8 ≡ 0 → c / 2 ^ 8 % 64 ≢ 0 → moved c ≡ some (256 + c / 2 ^ 8 % 64)
  moved_0 a b = rw (a, ==_ne _ _ b) refl

  pub moved_1 : c % 2 ^ 14 ≡ 0 → c / 2 ^ 14 % 64 ≢ 0 → moved c ≡ some (320 + c / 2 ^ 14 % 64)
  moved_1 a b =
      let x : c % 2 ^ 8 ≡ 0 = omega arith in
      let y : c / 2 ^ 8 % 64 ≡ 0 = omega arith in rw (x, y, ==_ne _ _ b) refl

  pub moved_2 : c % 2 ^ 20 ≡ 0 → c / 2 ^ 20 % 64 ≢ 0 → moved c ≡ some (384 + c / 2 ^ 20 % 64)
  moved_2 a b =
      let x : c % 2 ^ 8 ≡ 0 = omega arith in
      let y : c / 2 ^ 8 % 64 ≡ 0 = omega arith in
      let z : c / 2 ^ 14 % 64 ≡ 0 = omega arith in rw (x, y, z, ==_ne _ _ b) refl

  pub moved_3 : c % 2 ^ 26 ≡ 0 → moved c ≡ some (448 + c / 2 ^ 26 % 64)
  moved_3 a =
      let x : c % 2 ^ 8 ≡ 0 = omega arith in
      let y : c / 2 ^ 8 % 64 ≡ 0 = omega arith in
      let z : c / 2 ^ 14 % 64 ≡ 0 = omega arith in
      let u : c / 2 ^ 20 % 64 ≡ 0 = omega arith in rw (x, y, z, u) refl

module _ (c e : ℕ) (hc : c < u32) (he : e < u32) (p : 0 < remaining c e)
    (r : remaining c e < 2 ^ 31) where
  abbrev c' : ℕ
  c' = (c + 1) % u32

  carry_none : c % 2 ^ 8 ≢ 255 → slot c' e ≡ slot c e
  carry_none h = rw (e8, e14, e20, e26) refl
    where
      e8 : c' / 2 ^ 8 ≡ c / 2 ^ 8
      e8 = omega arith

      e14 : c' / 2 ^ 14 ≡ c / 2 ^ 14
      e14 = omega arith

      e20 : c' / 2 ^ 20 ≡ c / 2 ^ 20
      e20 = omega arith

      e26 : c' / 2 ^ 26 ≡ c / 2 ^ 26
      e26 = omega arith

  -- No node to come is left in the buckets of a block that ends.
  not_near : c % 2 ^ 8 ≡ 255 → e / 2 ^ 8 ≢ c / 2 ^ 8
  not_near h = omega arith

  not_level_0 : c % 2 ^ 14 ≡ 2 ^ 14 - 1 → e / 2 ^ 14 ≢ c / 2 ^ 14
  not_level_0 h = omega arith

  not_level_1 : c % 2 ^ 20 ≡ 2 ^ 20 - 1 → e / 2 ^ 20 ≢ c / 2 ^ 20
  not_level_1 h = omega arith

  not_level_2 : c % 2 ^ 26 ≡ 2 ^ 26 - 1 → e / 2 ^ 26 ≢ c / 2 ^ 26
  not_level_2 h = omega arith

  abbrev Shifted : Type 0
  Shifted = (moved c' ≡ some (slot c e)) ⊎ (slot c' e ≡ slot c e)

  -- Beyond the blocks that end, nothing changes.
  stay_2 :
      e / 2 ^ 20 ≢ c / 2 ^ 20
      → e / 2 ^ 20 ≢ c' / 2 ^ 20
      → c' / 2 ^ 26 ≡ c / 2 ^ 26
      → slot c' e ≡ slot c e
  stay_2 a b d = elim (ℕ_discrete (e / 2 ^ 26) (c / 2 ^ 26)) [
    | yes x ↦ slot_2 c' e b (omega arith) ∙ sym (slot_2 c e a x)
    | no x ↦ slot_3 c' e (omega arith) ∙ sym (slot_3 c e x)
  ]

  stay_1 :
      e / 2 ^ 14 ≢ c / 2 ^ 14
      → e / 2 ^ 14 ≢ c' / 2 ^ 14
      → c' / 2 ^ 20 ≡ c / 2 ^ 20
      → slot c' e ≡ slot c e
  stay_1 a b d = elim (ℕ_discrete (e / 2 ^ 20) (c / 2 ^ 20)) [
    | yes x ↦ slot_1 c' e b (omega arith) ∙ sym (slot_1 c e a x)
    | no x ↦ stay_2 x (omega arith) (omega arith)
  ]

  carry_0 : c % 2 ^ 8 ≡ 255 → c % 2 ^ 14 ≢ 2 ^ 14 - 1 → Shifted
  carry_0 h k = elim (ℕ_discrete (e / 2 ^ 14) (c / 2 ^ 14)) [
    | yes x ↦ elim (ℕ_discrete (e / 2 ^ 8 % 64) (c' / 2 ^ 8 % 64)) [
      | yes hit ↦ inl (
          moved_0 c' (omega arith) (omega arith)
          ∙ ap some (rw (slot_0 c e (not_near h) x) (omega arith)))
      | no miss ↦ inr (slot_0 c' e (omega arith) (omega arith) ∙ sym (slot_0 c e (not_near h) x))
    ]
    | no x ↦ inr (stay_1 x (omega arith) (omega arith))
  ]

  carry_1 : c % 2 ^ 14 ≡ 2 ^ 14 - 1 → c % 2 ^ 20 ≢ 2 ^ 20 - 1 → Shifted
  carry_1 h k = elim (ℕ_discrete (e / 2 ^ 20) (c / 2 ^ 20)) [
    | yes x ↦ elim (ℕ_discrete (e / 2 ^ 14 % 64) (c' / 2 ^ 14 % 64)) [
      | yes hit ↦ inl (
          moved_1 c' (omega arith) (omega arith)
          ∙ ap some (rw (slot_1 c e (not_level_0 h) x) (omega arith)))
      | no miss ↦ inr (slot_1 c' e (omega arith) (omega arith) ∙ sym (slot_1 c e (not_level_0 h) x))
    ]
    | no x ↦ inr (stay_2 x (omega arith) (omega arith))
  ]

  carry_2 : c % 2 ^ 20 ≡ 2 ^ 20 - 1 → c % 2 ^ 26 ≢ 2 ^ 26 - 1 → Shifted
  carry_2 h k = elim (ℕ_discrete (e / 2 ^ 26) (c / 2 ^ 26)) [
    | yes x ↦ elim (ℕ_discrete (e / 2 ^ 20 % 64) (c' / 2 ^ 20 % 64)) [
      | yes hit ↦ inl (
          moved_2 c' (omega arith) (omega arith)
          ∙ ap some (rw (slot_2 c e (not_level_1 h) x) (omega arith)))
      | no miss ↦ inr (slot_2 c' e (omega arith) (omega arith) ∙ sym (slot_2 c e (not_level_1 h) x))
    ]
    | no x ↦ inr (slot_3 c' e (omega arith) ∙ sym (slot_3 c e x))
  ]

  carry_3 : c % 2 ^ 26 ≡ 2 ^ 26 - 1 → Shifted
  carry_3 h = elim (ℕ_discrete (e / 2 ^ 26 % 64) (c' / 2 ^ 26 % 64)) [
    | yes hit ↦
        inl (moved_3 c' (omega arith) ∙ ap some (rw (slot_3 c e (not_level_2 h)) (omega arith)))
    | no miss ↦ inr (slot_3 c' e (omega arith) ∙ sym (slot_3 c e (not_level_2 h)))
  ]

  -- A tick leaves the bucket of each node to come as it was, but for the one that is emptied.
  pub shift_slot : Shifted
  shift_slot = elim (ℕ_discrete (c % 2 ^ 8) 255) [
    | no h ↦ inr (carry_none h)
    | yes h ↦ elim (ℕ_discrete (c % 2 ^ 14) (2 ^ 14 - 1)) [
      | no k ↦ carry_0 h k
      | yes k ↦ elim (ℕ_discrete (c % 2 ^ 20) (2 ^ 20 - 1)) [
        | no m ↦ carry_1 k m
        | yes m ↦ elim (ℕ_discrete (c % 2 ^ 26) (2 ^ 26 - 1)) [
          | no n ↦ carry_2 m n
          | yes n ↦ carry_3 n
        ]
      ]
    ]
  ]
