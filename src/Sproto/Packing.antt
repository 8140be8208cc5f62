-- ===== src/Sproto/Packing.antt =====
-- lualib-src/sproto/sproto.c: the rounds of `sproto_pack`.
use paohuzi_server.Shared.{
  ℕ, ◌+◌, ◌-◌, ◌*◌, ◌/◌, ◌%◌, ◌^◌, ◌≤◌, ◌<◌, ◌≡◌, refl, true, false, some, List, [], ◌∷◌, ◌++◌,
  append-nil, arith, sym, ◌∙◌, ap, ap₂, subst, ltb, leb, length, take, drop, length-append,
  length-take, drop-all, take-all, take-append-drop, dec_lt,
}
use paohuzi_server.Sproto.{Packer, read, store_all, write_ff, end_ff, padded, zeros}
use paohuzi_server.Sproto.Memory.{Writes, store_all_lem, read-append, read_same, length-zeros}
use paohuzi_server.Sproto.Tokens.{Stands, nothing, sparse, full, Stands-append, bits, non_zeros}
use paohuzi_server.Sproto.Segment.{bits_not_ff}

-- The bytes that `write_ff` writes for `run`.
abbrev pub run_bytes : ℕ → List ℕ → List ℕ
run_bytes count run = 0xff ∷ count ∷ run

write_ff_lem :
    (cap : ℕ) (src : List ℕ) (buffer : ℕ → ℕ) (des n k : ℕ) (run : List ℕ)
    → n ≤ length src
    → (n + 7) / 8 ≡ k + 1
    → k < 256
    → take n src ++ zeros ((k + 1) * 8 - n) ≡ run
    → des + 2 + length run ≤ cap
    → (g : ℕ → ℕ) × (write_ff cap src buffer des n ≡ some g) × Writes buffer des (run_bytes k run) g
unfolding write_ff
write_ff_lem cap src buffer des n k run fits blocks small whole room =
    let t : ltb (length src) n ≡ false = ground arith in
    let count : ((n + 7) / 8 * 8 / 8 - 1) % 2 ^ 8 ≡ k = omega (arith, blocks) in
    let same : (n + 7) / 8 * 8 ≡ (k + 1) * 8 = ap (λ m. m * 8) blocks in
    let (g, e, w) = store_all_lem cap buffer des (run_bytes k run) (omega arith) in
    (
      g,
      rw t (
          ap₂ (λ c l. store_all cap buffer des (run_bytes c l)) count
            (ap (λ m. take n src ++ zeros (m - n)) same ∙ whole)
          ∙ e),
      w,
    )

-- The end of a run: the buffer has it if there was room, and nothing else of the state changes.
pub record Ended (cap : ℕ) (p : Packer) (k : ℕ) (run : List ℕ) (q : Packer) : Type 0 where
  pub size : q.size ≡ p.size
  pub over : q.ff_n ≡ 0
  pub wrote : p.size ≤ cap → Writes p.buffer p.ff_desstart (run_bytes k run) q.buffer

pub end_ff_lem :
    (cap : ℕ) (p : Packer) (n k : ℕ) (run : List ℕ)
    → n ≤ length p.ff_srcstart
    → (n + 7) / 8 ≡ k + 1
    → k < 256
    → take n p.ff_srcstart ++ zeros ((k + 1) * 8 - n) ≡ run
    → p.ff_desstart + 2 + length run ≤ p.size
    → (q : Packer) × (end_ff cap p n ≡ some q) × Ended cap p k run q
unfolding end_ff
end_ff_lem cap p n k run fits blocks small whole before = elim (dec_lt cap p.size) [
  | yes lt ↦
      let t : leb p.size cap ≡ false = ground arith in
      (
        record p { ff_n = 0 },
        rw t refl,
        record { size = refl; over = refl; wrote = λ room. absurd (omega arith) },
      )
  | no ge ↦
      let t : leb p.size cap ≡ true = ground arith in
      let (g, e, w) =
        write_ff_lem cap p.ff_srcstart p.buffer p.ff_desstart n k run fits blocks small whole
          (omega arith) in
      (
        record p { buffer = g; ff_n = 0 },
        rw (t, e) refl,
        record { size = refl; over = refl; wrote = λ room. w },
      )
]

pub padded-zeros : (src : List ℕ) → padded src ≡ src ++ zeros (8 - length src)
unfolding padded
padded-zeros src = elim (dec_lt (length src) 8) [
  | yes lt ↦ let t : ltb (length src) 8 ≡ true = ground arith in rw t refl
  | no ge ↦
      let t : ltb (length src) 8 ≡ false = ground arith in
      let z : 8 - length src ≡ 0 = omega arith in
      rw t (sym (append-nil src) ∙ ap (λ n. src ++ zeros n) (sym z))
]

-- The segment that a round reads, and what is behind it.
abbrev pub segment : List ℕ → List ℕ
segment src = take 8 (padded src)

pub length-segment : (src : List ℕ) → length (segment src) ≡ 8
length-segment src = length-take 8 (padded src) (
    omega (
      arith,
      ap length (padded-zeros src),
      length-append src (zeros (8 - length src)),
      length-zeros (8 - length src),
    ))

pub segment-rest : (src : List ℕ) → segment src ++ drop 8 src ≡ src ++ zeros (8 - length src)
unfolding padded
segment-rest src = elim (dec_lt (length src) 8) [
  | yes lt ↦
      let rest : drop 8 src ≡ [] = drop-all 8 src (omega arith) in
      let all : segment src ≡ padded src = take-all 8 (padded src) (
        omega (
          arith,
          ap length (padded-zeros src),
          length-append src (zeros (8 - length src)),
          length-zeros (8 - length src),
        )) in
      ap₂ (λ a b. a ++ b) all rest ∙ append-nil (padded src) ∙ padded-zeros src
  | no ge ↦
      let z : 8 - length src ≡ 0 = omega arith in
      let same : padded src ≡ src =
        padded-zeros src ∙ ap (λ n. src ++ zeros n) z ∙ append-nil src in
      ap (λ l. take 8 l ++ drop 8 src) same
      ∙ take-append-drop 8 src
      ∙ sym (append-nil src)
      ∙ ap (λ n. src ++ zeros n) (sym z)
]

-- Where the bytes `done` are packed and `src` are not: either all is in the buffer, or a run at the end
-- of them is not yet. `pad` is how many zeros behind the source count as its last bytes.
pub data State (cap : ℕ) (done src : List ℕ) (pad : ℕ) (p : Packer) : Type 0 where
  ready :
      p.ff_n ≡ 0 → (p.size ≤ cap → Stands (read p.buffer 0 p.size) done) → State cap done src pad p
  running :
      (before run : List ℕ) (k : ℕ)
      → done ≡ before ++ run
      → p.ff_n ≡ k + 1
      → k < 255
      → length run ≡ (k + 1) * 8
      → run ++ src ≡ p.ff_srcstart ++ zeros pad
      → p.size ≡ p.ff_desstart + 2 + length run
      → (p.size ≤ cap → Stands (read p.buffer 0 p.ff_desstart) before)
      → State cap done src pad p

pub Stands-run :
    {f g : ℕ → ℕ} {before : List ℕ} (des k : ℕ) (run : List ℕ)
    → Writes f des (run_bytes k run) g
    → length run ≡ (k + 1) * 8
    → Stands (read f 0 des) before
    → Stands (read g 0 (des + (2 + length run))) (before ++ run)
Stands-run {f} {g} {before} des k run w n s =
    let first : read g 0 des ≡ read f 0 des =
      read_same g f 0 des (λ j le lt. w.old j (omega arith)) in
    let behind : read g (0 + des) (2 + length run) ≡ run_bytes k run =
      (let e : 0 + des ≡ des = omega arith in ap (λ i. read g i (2 + length run)) e)
      ∙ (let e : 2 + length run ≡ length (run_bytes k run) = omega arith in ap (read g des) e)
      ∙ w.new in
    let token : Stands (run_bytes k run) run =
      subst (λ l. Stands (0xff ∷ k ∷ l) run) (append-nil run)
        (subst (Stands (0xff ∷ k ∷ (run ++ []))) (append-nil run) (full run k n nothing)) in
    subst (λ l. Stands l (before ++ run))
      (sym (read-append g 0 des (2 + length run) ∙ ap₂ (λ a b. a ++ b) first behind))
      (Stands-append s token)

pub Stands-segment :
    {f g : ℕ → ℕ} {done : List ℕ} (size : ℕ) (seg : List ℕ) (m : ℕ)
    → ((j : ℕ) → j < size → g j ≡ f j)
    → read g size m ≡ bits seg ∷ non_zeros seg
    → length seg ≡ 8
    → length (non_zeros seg) < 8
    → Stands (read f 0 size) done
    → Stands (read g 0 (size + m)) (done ++ seg)
Stands-segment {f} {g} {done} size seg m old new n lt s =
    let first : read g 0 size ≡ read f 0 size =
      read_same g f 0 size (λ j le below. old j (omega arith)) in
    let behind : read g (0 + size) m ≡ bits seg ∷ non_zeros seg =
      (let e : 0 + size ≡ size = omega arith in ap (λ i. read g i m) e) ∙ new in
    let token : Stands (bits seg ∷ non_zeros seg) seg =
      subst (λ l. Stands (bits seg ∷ l) seg) (append-nil (non_zeros seg))
        (subst (Stands (bits seg ∷ (non_zeros seg ++ []))) (append-nil seg)
          (sparse seg n (bits_not_ff seg n lt) nothing)) in
    subst (λ l. Stands l (done ++ seg))
      (sym (read-append g 0 size m ∙ ap₂ (λ a b. a ++ b) first behind)) (Stands-append s token)
