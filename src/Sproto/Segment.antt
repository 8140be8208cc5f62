-- ===== src/Sproto/Segment.antt =====
-- lualib-src/sproto/sproto.c: what `pack_seg` leaves in the buffer.
use Prim.Native.Nat.{bit_or}
use native.Mathlib.Nat.{pow-suc, mul_assoc, mul-add}
use paohuzi_server.Shared.{
  ℕ, suc, ◌+◌, ◌*◌, ◌^◌, ◌≤◌, ◌<◌, ◌≡◌, ◌≢◌, refl, Bool, true, false, ◌&&◌, ◌||◌, List, [], ◌∷◌,
  arith, sym, ◌∙◌, ap, ap₂, subst, ltb, ◌==◌, if◌then◌else◌, length, Bool-cases, inl, inr,
}
use paohuzi_server.Shared.Bits.{bit_or_low}
use paohuzi_server.Sproto.{store_within, seg_loop, pack_seg, read}
use paohuzi_server.Sproto.Memory.{
  store_within_old, store_within_here, store_within_after, read_same,
}
use paohuzi_server.Sproto.Tokens.{bits, non_zeros}

pub non_zeros-le : (l : List ℕ) → length (non_zeros l) ≤ length l
non_zeros-le [] = omega arith
non_zeros-le (b ∷ l) = elim (Bool-cases (b == 0)) [
  | inl t ↦ rw t (omega (arith, non_zeros-le l))
  | inr t ↦ rw t (omega (arith, non_zeros-le l))
]

bits-lt : (l : List ℕ) → bits l < 2 ^ length l
bits-lt [] = omega arith
bits-lt (b ∷ l) =
    let double = pow-suc 2 (length l) in
    elim (Bool-cases (b == 0)) [
      | inl t ↦ rw t (omega (arith, bits-lt l, double))
      | inr t ↦ rw t (omega (arith, bits-lt l, double))
    ]

-- Only a segment without zeros has all bits.
bits_gap-lt : (l : List ℕ) → length (non_zeros l) < length l → bits l + 1 < 2 ^ length l
bits_gap-lt [] = λ lt. absurd (omega arith)
bits_gap-lt (b ∷ l) =
    let double = pow-suc 2 (length l) in
    elim (Bool-cases (b == 0)) [
      | inl t ↦ rw t (λ lt. omega (arith, bits-lt l, double))
      | inr t ↦ rw t (λ lt. omega (arith, bits_gap-lt l (omega (arith, lt)), double))
    ]

pub bits_not_ff : (seg : List ℕ) → length seg ≡ 8 → length (non_zeros seg) < 8 → bits seg ≢ 0xff
bits_not_ff seg n lt e =
    let small = bits_gap-lt seg (omega arith) in
    let whole : 2 ^ length seg ≡ 256 = ap (λ k. 2 ^ k) n in absurd (omega (arith, small, whole, e))

-- What the loop over a segment does that has the bits `value` and the bytes `kept`.
record Looped (cap i at header notzero : ℕ) (buffer : ℕ → ℕ) (value : ℕ) (kept : List ℕ)
    (r : ℕ × ℕ × (ℕ → ℕ)) : Type 0 where
  sum : r.0 ≡ header + 2 ^ i * value
  count : r.1 ≡ notzero + length kept
  old : (j : ℕ) → j < at → r.2 j ≡ buffer j
  new : at + length kept ≤ cap → read r.2 at (length kept) ≡ kept

module _ (cap b : ℕ) (src : List ℕ) (i at header notzero : ℕ) (buffer : ℕ → ℕ) where
  loop_skip :
      (b == 0) ≡ true
      → seg_loop cap (b ∷ src) i at header notzero buffer
        ≡ seg_loop cap src (i + 1) at header notzero buffer
  unfolding seg_loop
  loop_skip t = rw t refl

  loop_keep :
      (b == 0) ≡ false
      → seg_loop cap (b ∷ src) i at header notzero buffer
        ≡ seg_loop cap src
            (i + 1)
            (at + 1)
            (bit_or (1 * 2 ^ i) header)
            (notzero + 1)
            (store_within cap buffer at b)
  unfolding seg_loop
  loop_keep t = rw t refl

power_next : (i : ℕ) → 2 ^ (i + 1) ≡ 2 ^ i * 2
power_next i = let e : i + 1 ≡ suc i = omega arith in ap (λ k. 2 ^ k) e ∙ pow-suc 2 i

double_value : (i v : ℕ) → 2 ^ (i + 1) * v ≡ 2 ^ i * (2 * v)
double_value i v = ap (λ k. k * v) (power_next i) ∙ mul_assoc (2 ^ i) 2 v

Looped-skip :
    {cap i at header notzero : ℕ} {buffer : ℕ → ℕ} {value : ℕ} {kept : List ℕ} {r : ℕ × ℕ × (ℕ → ℕ)}
    → Looped cap (i + 1) at header notzero buffer value kept r
    → Looped cap i at header notzero buffer (2 * value) kept r
Looped-skip {cap} {i} {at} {header} {value = value} h = record {
  sum = h.sum ∙ ap (λ k. header + k) (double_value i value);
  count = h.count;
  old = h.old;
  new = h.new;
}

Looped-keep :
    {cap i at header notzero b : ℕ} {buffer : ℕ → ℕ} {value : ℕ} {kept : List ℕ}
    {r : ℕ × ℕ × (ℕ → ℕ)}
    → header < 2 ^ i
    → Looped cap
        (i + 1)
        (at + 1)
        (bit_or (1 * 2 ^ i) header)
        (notzero + 1)
        (store_within cap buffer at b)
        value
        kept
        r
    → Looped cap i at header notzero buffer (1 + 2 * value) (b ∷ kept) r
Looped-keep {cap} {i} {at} {header} {notzero} {b} {buffer} {value} {kept} {r} lt h = record {
  sum =
      omega (
        arith,
        h.sum,
        double_value i value,
        bit_or_low i 1 header lt,
        mul-add (2 ^ i) 1 (2 * value),
      );
  count = omega (arith, h.count);
  old = λ j below. h.old j (omega arith) ∙ store_within_old cap buffer at b j below;
  new = λ room.
      ap₂ (λ x l. x ∷ l) (h.old at (omega arith) ∙ store_within_here cap buffer at b (omega arith))
        (h.new (omega arith));
}

seg_loop_lem :
    (cap : ℕ) (src : List ℕ) (i at header notzero : ℕ) (buffer : ℕ → ℕ)
    → header < 2 ^ i
    → Looped cap i at header notzero buffer
        (bits src)
        (non_zeros src)
        (seg_loop cap src i at header notzero buffer)
unfolding seg_loop
seg_loop_lem cap [] i at header notzero buffer lt = record {
  sum = omega arith;
  count = omega arith;
  old = λ j lt. refl;
  new = λ room. refl;
}
seg_loop_lem cap (b ∷ src) i at header notzero buffer lt = elim (Bool-cases (b == 0)) [
  | inl t ↦
      let r = seg_loop cap src (i + 1) at header notzero buffer in
      let e : bits (b ∷ src) ≡ 2 * bits src = rw t (omega arith) in
      let e' : non_zeros (b ∷ src) ≡ non_zeros src = rw t refl in
      subst (Looped cap i at header notzero buffer (bits (b ∷ src)) (non_zeros (b ∷ src)))
        (sym (loop_skip cap b src i at header notzero buffer t))
        (subst (λ v. Looped cap i at header notzero buffer v (non_zeros (b ∷ src)) r) (sym e)
          (subst (λ k. Looped cap i at header notzero buffer (2 * bits src) k r) (sym e')
            (Looped-skip (
              seg_loop_lem cap src (i + 1) at header notzero buffer
                (omega (arith, power_next i))))))
  | inr t ↦
      let r =
        seg_loop cap src (i + 1) (at + 1) (bit_or (1 * 2 ^ i) header) (notzero + 1)
          (store_within cap buffer at b) in
      let e : bits (b ∷ src) ≡ 1 + 2 * bits src = rw t refl in
      let e' : non_zeros (b ∷ src) ≡ b ∷ non_zeros src = rw t refl in
      subst (Looped cap i at header notzero buffer (bits (b ∷ src)) (non_zeros (b ∷ src)))
        (sym (loop_keep cap b src i at header notzero buffer t))
        (subst (λ v. Looped cap i at header notzero buffer v (non_zeros (b ∷ src)) r) (sym e)
          (subst (λ k. Looped cap i at header notzero buffer (1 + 2 * bits src) k r) (sym e')
            (Looped-keep lt (
              seg_loop_lem cap src (i + 1) (at + 1) (bit_or (1 * 2 ^ i) header) (notzero + 1)
                (store_within cap buffer at b)
                (omega (arith, power_next i, bit_or_low i 1 header lt))))))
]

-- Whether `pack_seg` takes a segment with `m` bytes that are not zero for a full one, and the size that
-- it tells.
abbrev pub is_full : ℕ → ℕ → Bool
is_full m n = (((m == 7) || (m == 6)) && ltb 0 n) || (m == 8)

abbrev pub seg_size : ℕ → ℕ → ℕ
seg_size m n = if is_full m n then (if ltb 0 n then 8 else 10) else m + 1

-- A segment is packed at `at`, or, where it is full, is left to `write_ff`.
pub record Packed (cap : ℕ) (seg : List ℕ) (buffer : ℕ → ℕ) (at n : ℕ) (r : (ℕ → ℕ) × ℕ)
    : Type 0 where
  pub size : r.1 ≡ seg_size (length (non_zeros seg)) n
  pub old : (j : ℕ) → j < at → r.0 j ≡ buffer j
  pub new :
      is_full (length (non_zeros seg)) n ≡ false
      → at + r.1 ≤ cap
      → read r.0 at r.1 ≡ bits seg ∷ non_zeros seg

module _ (cap : ℕ) (seg : List ℕ) (buffer : ℕ → ℕ) (at n : ℕ) where
  abbrev looped : ℕ × ℕ × (ℕ → ℕ)
  looped = seg_loop cap seg 0 (at + 1) 0 0 buffer

  pack_seg-full :
      is_full looped.1 n ≡ true
      → pack_seg cap seg buffer at n ≡ (looped.2, if ltb 0 n then 8 else 10)
  unfolding pack_seg
  pack_seg-full t = rw t refl

  pack_seg-sparse :
      is_full looped.1 n ≡ false
      → pack_seg cap seg buffer at n ≡ (store_within cap looped.2 at looped.0, looped.1 + 1)
  unfolding pack_seg
  pack_seg-sparse t = rw t refl

  pub pack_seg_lem : Packed cap seg buffer at n (pack_seg cap seg buffer at n)
  pack_seg_lem =
      let h = seg_loop_lem cap seg 0 (at + 1) 0 0 buffer (omega arith) in
      let count : looped.1 ≡ length (non_zeros seg) = omega (arith, h.count) in
      let value : looped.0 ≡ bits seg = omega (arith, h.sum) in
      elim (Bool-cases (is_full looped.1 n)) [
        | inl t ↦
            let t' : is_full (length (non_zeros seg)) n ≡ true =
              ap (λ m. is_full m n) (sym count) ∙ t in
            subst (Packed cap seg buffer at n) (sym (pack_seg-full t)) (record {
              size = sym (rw t' refl);
              old = λ j lt. h.old j (omega arith);
              new = λ f. cc;
            })
        | inr f ↦
            let f' : is_full (length (non_zeros seg)) n ≡ false =
              ap (λ m. is_full m n) (sym count) ∙ f in
            subst (Packed cap seg buffer at n) (sym (pack_seg-sparse f)) (record {
              size = ap (λ m. m + 1) count ∙ sym (rw f' refl);
              old = λ j lt. store_within_old cap looped.2 at looped.0 j lt ∙ h.old j (omega arith);
              new = λ t room.
                  let g = store_within cap looped.2 at looped.0 in
                  let m : ℕ = length (non_zeros seg) in
                  let total : looped.1 + 1 ≡ suc m = omega (arith, count) in
                  ap (read g at) total
                  ∙ ap₂ (λ x l. x ∷ l)
                      (store_within_here cap looped.2 at looped.0 (omega arith) ∙ value)
                      (read_same g looped.2 (at + 1) m
                          (λ j le lt. store_within_after cap looped.2 at looped.0 j (omega arith))
                        ∙ h.new (omega (arith, count, room)));
            })
      ]
