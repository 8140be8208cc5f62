-- ===== src/Sproto/Tokens.antt =====
-- lualib-src/sproto/sproto.c: packed bytes, told without the code's state.
use Prim.Native.Nat.{bit_and}
use native.Mathlib.Nat.{div-div-eq-div-mul, pow-suc}
use paohuzi_server.Shared.{
  ◌&&◌, ◌<◌, ◌^◌, ltb, ℕ, zero, suc, ◌+◌, ◌*◌, ◌/◌, ◌%◌, ◌^◌, ◌≤◌, ◌≡◌, ◌≢◌, refl, true, false,
  Option, none, some, List, [], ◌∷◌, ◌++◌, append-nil, append_assoc, arith, sym, ◌∙◌, ap, subst,
  ltb, leb, ◌==◌, if◌then◌else◌, length, take, drop, length-append, ℕ_discrete, take-append_left,
  take-all, drop-append_left, drop-all,
}
use paohuzi_server.Shared.Bits.{bit_and_ones}
use paohuzi_server.Sproto.{
  Unpacker, unpacking, append, unpack_bits, unpack_ff, unpack_loop, sproto_unpack,
}

-- The header of a segment: a bit for each byte that is not zero, and those bytes.
abbrev pub bits : List ℕ → ℕ
bits [] = 0
bits (b ∷ l) = (if b == 0 then 0 else 1) + 2 * bits l

abbrev pub non_zeros : List ℕ → List ℕ
non_zeros [] = []
non_zeros (b ∷ l) = let rest = non_zeros l in if b == 0 then rest else b ∷ rest

-- `packed` stands for the bytes `plain`: segments of 8 bytes by their header, and runs of them behind
-- 0xff and a count.
pub data Stands : List ℕ → List ℕ → Type 0 where
  nothing : Stands [] []
  sparse :
      (seg : List ℕ) {packed plain : List ℕ}
      → length seg ≡ 8
      → bits seg ≢ 0xff
      → Stands packed plain
      → Stands (bits seg ∷ (non_zeros seg ++ packed)) (seg ++ plain)
  full :
      (run : List ℕ) (count : ℕ) {packed plain : List ℕ}
      → length run ≡ (count + 1) * 8
      → Stands packed plain
      → Stands (0xff ∷ count ∷ (run ++ packed)) (run ++ plain)

pub Stands-append : {a x b y : List ℕ} → Stands a x → Stands b y → Stands (a ++ b) (x ++ y)
Stands-append nothing t = t
Stands-append {b = b} {y = y} (sparse seg {packed} {plain} n ne s) t =
    subst (λ k. Stands (bits seg ∷ k) (seg ++ plain ++ y))
      (sym (append_assoc (non_zeros seg) packed b))
      (subst (Stands (bits seg ∷ (non_zeros seg ++ (packed ++ b)))) (sym (append_assoc seg plain y))
        (sparse seg n ne (Stands-append s t)))
Stands-append {b = b} {y = y} (full run count {packed} {plain} n s) t =
    subst (λ k. Stands (0xff ∷ count ∷ k) (run ++ plain ++ y)) (sym (append_assoc run packed b))
      (subst (Stands (0xff ∷ count ∷ (run ++ (packed ++ b)))) (sym (append_assoc run plain y))
        (full run count n (Stands-append s t)))

-- `v` is `u` with `bytes` behind, as far as there is room for all of them.
pub record Outputs (bufsz : ℕ) (u : Unpacker) (bytes : List ℕ) (v : Unpacker) : Type 0 where
  pub counted : v.size ≡ u.size + length bytes
  pub wrote : u.size + length bytes ≤ bufsz → v.written ≡ u.written ++ bytes

Outputs-trans :
    {bufsz : ℕ} {u v w : Unpacker} {a b : List ℕ}
    → Outputs bufsz u a v
    → Outputs bufsz v b w
    → Outputs bufsz u (a ++ b) w
Outputs-trans {bufsz} {u} {v} {w} {a} {b} o q = record {
  counted = omega (arith, o.counted, q.counted, length-append a b);
  wrote = λ room.
      q.wrote (omega (arith, o.counted, length-append a b))
      ∙ ap (λ k. k ++ b) (o.wrote (omega (arith, length-append a b)))
      ∙ append_assoc u.written a b;
}

append-Outputs : (bufsz : ℕ) (u : Unpacker) (a : List ℕ) → Outputs bufsz u a (append bufsz u a)
append-Outputs bufsz u a = record {
  counted = refl;
  wrote = λ room. let t : leb (u.size + length a) bufsz ≡ true = ground arith in rw t refl;
}

bits_gap :
    (rounds i header : ℕ) (src : Option (List ℕ)) (bufsz : ℕ) (u : Unpacker)
    → (bit_and (header / 2 ^ i) 1 == 0) ≡ true
    → unpack_bits (suc rounds) i header src bufsz u
      ≡ unpack_bits rounds (i + 1) header src bufsz (append bufsz u (0 ∷ []))
unfolding unpack_bits
bits_gap rounds i header none bufsz u t = rw t refl
bits_gap rounds i header (some []) bufsz u t = rw t refl
bits_gap rounds i header (some (b ∷ src)) bufsz u t = rw t refl

bits_byte :
    (rounds i header b : ℕ) (src : List ℕ) (bufsz : ℕ) (u : Unpacker)
    → (bit_and (header / 2 ^ i) 1 == 0) ≡ false
    → unpack_bits (suc rounds) i header (some (b ∷ src)) bufsz u
      ≡ unpack_bits rounds (i + 1) header (some src) bufsz (append bufsz u (b ∷ []))
unfolding unpack_bits
bits_byte rounds i header b src bufsz u t = rw t refl

unpack_bits_lem :
    (seg : List ℕ) (i header : ℕ) (rest : List ℕ) (bufsz : ℕ) (u : Unpacker)
    → header / 2 ^ i ≡ bits seg
    → (v : Unpacker) × (unpack_bits (length seg) i header (some (non_zeros seg ++ rest)) bufsz u
        ≡ some (unpacking (some rest) v))
      × Outputs bufsz u seg v
unfolding unpack_bits
unpack_bits_lem [] i header rest bufsz u e =
    (u, refl, record { counted = omega arith; wrote = λ room. sym (append-nil u.written) })
unpack_bits_lem (b ∷ seg) i header rest bufsz u e =
    let half : header / 2 ^ (i + 1) ≡ header / 2 ^ i / 2 =
      let more : i + 1 ≡ suc i = omega arith in
      ap (λ k. header / 2 ^ k) more
      ∙ ap (λ k. header / k) (pow-suc 2 i)
      ∙ sym (div-div-eq-div-mul header (2 ^ i) 2) in
    let low : bit_and (header / 2 ^ i) 1 ≡ header / 2 ^ i % 2 = bit_and_ones 1 (header / 2 ^ i) in
    elim (ℕ_discrete b 0) [
      | yes z ↦
          let t : (b == 0) ≡ true = ground arith in
          let none_here : non_zeros (b ∷ seg) ≡ non_zeros seg = rw t refl in
          let value : header / 2 ^ i ≡ 2 * bits seg = e ∙ (rw t (omega arith)) in
          let bit : (bit_and (header / 2 ^ i) 1 == 0) ≡ true = ground (arith, low, value) in
          let (v, run, o) =
            unpack_bits_lem seg (i + 1) header rest bufsz (append bufsz u (0 ∷ []))
              (omega (arith, half, value)) in
          (
            v,
            ap (λ k. unpack_bits (suc (length seg)) i header (some (k ++ rest)) bufsz u) none_here
                ∙ bits_gap (length seg) i header (some (non_zeros seg ++ rest)) bufsz u bit
                ∙ run,
            subst (λ k. Outputs bufsz u (k ∷ seg) v) (sym z)
                (Outputs-trans (append-Outputs bufsz u (0 ∷ [])) o),
          )
      | no nz ↦
          let t : (b == 0) ≡ false = ground arith in
          let one_here : non_zeros (b ∷ seg) ≡ b ∷ non_zeros seg = rw t refl in
          let value : header / 2 ^ i ≡ 1 + 2 * bits seg = e ∙ (rw t (omega arith)) in
          let bit : (bit_and (header / 2 ^ i) 1 == 0) ≡ false = ground (arith, low, value) in
          let (v, run, o) =
            unpack_bits_lem seg (i + 1) header rest bufsz (append bufsz u (b ∷ []))
              (omega (arith, half, value)) in
          (
            v,
            ap (λ k. unpack_bits (suc (length seg)) i header (some (k ++ rest)) bufsz u) one_here
                ∙ bits_byte (length seg) i header b (non_zeros seg ++ rest) bufsz u bit
                ∙ run,
            Outputs-trans (append-Outputs bufsz u (b ∷ [])) o,
          )
    ]

unpack_ff_lem :
    (run : List ℕ) (count : ℕ) (packed : List ℕ) (bufsz : ℕ) (u : Unpacker)
    → length run ≡ (count + 1) * 8
    → unpack_ff (count ∷ (run ++ packed)) bufsz u
      ≡ some (unpacking (some packed) (append bufsz u run))
unfolding unpack_ff
unpack_ff_lem run count packed bufsz u n =
    let t : ltb (length (run ++ packed)) ((count + 1) * 8) ≡ false =
      ground (arith, length-append run packed) in
    let behind : drop ((count + 1) * 8) (run ++ packed) ≡ packed =
      drop-append_left ((count + 1) * 8) run packed (omega arith)
      ∙ ap (λ k. k ++ packed) (drop-all ((count + 1) * 8) run (omega arith)) in
    let first : take ((count + 1) * 8) (run ++ packed) ≡ run =
      take-append_left ((count + 1) * 8) run packed (omega arith)
      ∙ take-all ((count + 1) * 8) run (omega arith) in
    rw (t, behind, first) refl

loop_sparse :
    (fuel header : ℕ) (src rest : List ℕ) (bufsz : ℕ) (u v : Unpacker)
    → header ≢ 0xff
    → unpack_bits 8 0 header (some src) bufsz u ≡ some (unpacking (some rest) v)
    → unpack_loop (suc fuel) (header ∷ src) bufsz u ≡ unpack_loop fuel rest bufsz v
unfolding unpack_loop
loop_sparse fuel header src rest bufsz u v ne e =
    let t : (header == 0xff) ≡ false = ground arith in rw (t, e) refl

loop_full :
    (fuel : ℕ) (src rest : List ℕ) (bufsz : ℕ) (u v : Unpacker)
    → unpack_ff src bufsz u ≡ some (unpacking (some rest) v)
    → unpack_loop (suc fuel) (0xff ∷ src) bufsz u ≡ unpack_loop fuel rest bufsz v
unfolding unpack_loop
loop_full fuel src rest bufsz u v e = rw e refl

-- Unpacking gives the bytes that packed ones stand for, and reads nothing behind them.
unpack_loop_lem :
    (fuel : ℕ) {packed plain : List ℕ} (bufsz : ℕ) (u : Unpacker)
    → Stands packed plain
    → length packed ≤ fuel
    → (v : Unpacker) × (unpack_loop fuel packed bufsz u ≡ some (some v)) × Outputs bufsz u plain v
unfolding unpack_loop
unpack_loop_lem fuel bufsz u nothing le =
    (u, refl, record { counted = omega arith; wrote = λ room. sym (append-nil u.written) })
unpack_loop_lem zero bufsz u (sparse seg n ne s) le = absurd (omega arith)
unpack_loop_lem zero bufsz u (full run count n s) le = absurd (omega arith)
unpack_loop_lem (suc fuel) bufsz u (sparse seg {packed} {plain} n ne s) le =
    let start : bits seg / 2 ^ 0 ≡ bits seg = omega arith in
    let (v, e, o) = unpack_bits_lem seg 0 (bits seg) packed bufsz u start in
    let (w, e', o') =
      unpack_loop_lem fuel bufsz v s (omega (arith, length-append (non_zeros seg) packed)) in
    (
      w,
      loop_sparse fuel (bits seg) (non_zeros seg ++ packed) packed bufsz u v ne (
            ap (λ k. unpack_bits k 0 (bits seg) (some (non_zeros seg ++ packed)) bufsz u) (sym n)
            ∙ e)
          ∙ e',
      Outputs-trans o o',
    )
unpack_loop_lem (suc fuel) bufsz u (full run count {packed} {plain} n s) le =
    let v : Unpacker = append bufsz u run in
    let (w, e', o') = unpack_loop_lem fuel bufsz v s (omega (arith, length-append run packed)) in
    (
      w,
      loop_full fuel (count ∷ (run ++ packed)) packed bufsz u v
            (unpack_ff_lem run count packed bufsz u n)
          ∙ e',
      Outputs-trans (append-Outputs bufsz u run) o',
    )

-- `sproto_unpack` writes the bytes if there is room for them, and says how many there are.
pub sproto_unpack_lem :
    {packed plain : List ℕ} (bufsz : ℕ)
    → Stands packed plain
    → length packed < 2 ^ 31
    → length plain < 2 ^ 31
    → bufsz < 2 ^ 31
    → (v : Unpacker) × (sproto_unpack packed bufsz ≡ some (some v))
      × Outputs bufsz (record { size = 0; written = [] }) plain v
unfolding sproto_unpack
sproto_unpack_lem {packed} bufsz s a b c =
    let (v, e, o) =
      unpack_loop_lem (length packed) bufsz (record { size = 0; written = [] }) s (omega arith) in
    let in_int : (ltb (length packed) (2 ^ 31) && ltb bufsz (2 ^ 31)) ≡ true =
      ground (arith, a, c) in
    let size_in : ltb v.size (2 ^ 31) ≡ true = ground (arith, o.counted, b) in
    (v, rw (in_int, e, size_in) refl, o)
