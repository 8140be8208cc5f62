-- ===== src/Sproto/Loop.antt =====
-- lualib-src/sproto/sproto.c: the loop of `sproto_pack`.
use paohuzi_server.Shared.{
  ℕ, zero, suc, ◌+◌, ◌-◌, ◌%◌, ◌≤◌, ◌<◌, ◌≡◌, ◌⊎◌, inl, inr, refl, true, false, some, List, [], ◌∷◌,
  ◌++◌, append-nil, append_assoc, arith, sym, ◌∙◌, ap, ap₂, subst, ◌==◌, length, drop,
  length-append, length-drop, drop-all, dec_lt, Bool-cases,
}
use paohuzi_server.Sproto.{Packer, pack_round, pack_loop, zeros, maxsz}
use paohuzi_server.Sproto.Tokens.{non_zeros}
use paohuzi_server.Sproto.Segment.{is_full, seg_size, non_zeros-le}
use paohuzi_server.Sproto.Packing.{segment, length-segment, segment-rest, State, ready, running}
use paohuzi_server.Sproto.Rounds.{Round, round_lem}
use paohuzi_server.Sproto.Sizes.{Bound, Bound-round, Bound-end, Bound-short}

-- How many zeros fill the last segment.
abbrev pub filling : ℕ → ℕ
filling n = (8 - n % 8) % 8

-- Not the lengths where up to 2 bytes are missing in the last of 256 segments.
abbrev pub HasRoom : ℕ → ℕ → Type 0
HasRoom d n = (d + n < 2046) ⊎ (n % 8 < 6)

non_zeros-append :
    (a b : List ℕ) → length (non_zeros (a ++ b)) ≡ length (non_zeros a) + length (non_zeros b)
non_zeros-append [] b = omega arith
non_zeros-append (x ∷ a) b = elim (Bool-cases (x == 0)) [
  | inl t ↦ rw t (non_zeros-append a b)
  | inr t ↦ rw t (omega (arith, non_zeros-append a b))
]

non_zeros-zeros : (n : ℕ) → length (non_zeros (zeros n)) ≡ 0
non_zeros-zeros zero = refl
non_zeros-zeros (suc n) = non_zeros-zeros n

-- The last segment, with zeros for what is missing.
segment-short : (src : List ℕ) → length src < 8 → segment src ≡ src ++ zeros (8 - length src)
segment-short src lt =
    sym (append-nil (segment src))
    ∙ ap (λ l. segment src ++ l) (sym (drop-all 8 src (omega arith)))
    ∙ segment-rest src

segment-whole : (src : List ℕ) → 8 ≤ length src → segment src ++ drop 8 src ≡ src
segment-whole src le =
    let z : 8 - length src ≡ 0 = omega arith in
    segment-rest src ∙ ap (λ n. src ++ zeros n) z ∙ append-nil src

kept-short : (src : List ℕ) → length src < 8 → length (non_zeros (segment src)) ≤ length src
kept-short src lt = omega (
  arith,
  ap (λ l. length (non_zeros l)) (segment-short src lt),
  non_zeros-append src (zeros (8 - length src)),
  non_zeros-zeros (8 - length src),
  non_zeros-le src,
)

ff_n-lt :
    {cap : ℕ} {done src : List ℕ} {pad : ℕ} {p : Packer} → State cap done src pad p → p.ff_n < 256
ff_n-lt (ready z stands) = omega (arith, z)
ff_n-lt (running before run k split count few n source at stands) = omega (arith, count, few)

-- A run of 255 segments is more than 2039 bytes.
long_run :
    {cap : ℕ} {done src : List ℕ} {p : Packer}
    → State cap done src 0 p
    → p.ff_n ≡ 255
    → 2040 ≤ length done
long_run (ready z stands) e = absurd (omega (arith, z, e))
long_run (running before run k split count few n source at stands) e =
    omega (arith, ap length split, length-append before run, n, count, e)

-- Only a segment with 6 bytes that are not zero goes to a run.
full-six : (m n : ℕ) → is_full m n ≡ true → 6 ≤ m
full-six m n t = ground (arith, t)

-- The bytes `done` and then `src`, filled up, are packed at the end.
pub record Loops (cap : ℕ) (done src : List ℕ) (q : Packer) : Type 0 where
  pub pad : ℕ
  pub short : pad < 8
  pub alone : q.ff_n ≡ 1 → pad ≡ 0
  pub state : State cap (done ++ (src ++ zeros (filling (length src)))) [] pad q
  pub size : q.size ≤ maxsz (length done + length src)

loop_step :
    (fuel cap : ℕ) (src : List ℕ) (p q : Packer)
    → 0 < length src
    → pack_round cap src p ≡ some q
    → pack_loop (suc fuel) cap src p ≡ pack_loop fuel cap (drop 8 src) q
unfolding pack_loop
loop_step fuel cap src p q pos e =
    let t : (length src == 0) ≡ false = ground arith in rw (t, e) refl

loop_stop :
    (fuel cap : ℕ) (src : List ℕ) (p : Packer) → length src ≡ 0 → pack_loop fuel cap src p ≡ some p
unfolding pack_loop
loop_stop zero cap src p z = refl
loop_stop (suc fuel) cap src p z = let t : (length src == 0) ≡ true = ground arith in rw t refl

-- Where the last bytes would end a run of 256 segments, there are enough of them.
round_room :
    (cap : ℕ) (done src : List ℕ) (p : Packer)
    → State cap done src 0 p
    → HasRoom (length done) (length src)
    → is_full (length (non_zeros (segment src))) p.ff_n ≡ true
    → p.ff_n ≡ 255
    → 8 ≤ length src
round_room cap done src p s room t last = elim (dec_lt (length src) 8) [
  | no ge ↦ omega arith
  | yes lt ↦ absurd (elim room [
    | inl few ↦ omega (
      arith,
      few,
      long_run s last,
      full-six (length (non_zeros (segment src))) p.ff_n t,
      kept-short src lt,
    )
    | inr few ↦
        omega (arith, few, full-six (length (non_zeros (segment src))) p.ff_n t, kept-short src lt)
  ])
]

Loops-short :
    {cap : ℕ} {done src : List ℕ} {p q : Packer}
    → Round cap done src p q
    → State cap done src 0 p
    → Bound (length done) p.size p.ff_n
    → 0 < length src
    → length src < 8
    → Loops cap done src q
Loops-short {cap} {done} {src} {p} {q} r s b some_left lt =
    let fill : 8 - length src ≡ filling (length src) = omega arith in
    let bytes : segment src ≡ src ++ zeros (filling (length src)) =
      segment-short src lt ∙ ap (λ n. src ++ zeros n) fill in
    record {
      pad = r.pad;
      short = r.short;
      alone = r.alone;
      state =
          subst (λ l. State cap (done ++ l) [] r.pad q) bytes
            (subst (λ l. State cap (done ++ segment src) l r.pad q) (drop-all 8 src (omega arith))
              r.state);
      size =
          subst (λ n. n ≤ maxsz (length done + length src)) (sym r.size)
            (Bound-short b (length (non_zeros (segment src))) (length src) (ff_n-lt s)
              (kept-short src lt) lt some_left);
    }

Loops-long :
    {cap : ℕ} {done src : List ℕ} {q : Packer}
    → 8 ≤ length src
    → Loops cap (done ++ segment src) (drop 8 src) q
    → Loops cap done src q
Loops-long {cap} {done} {src} {q} le h =
    let rest : length (drop 8 src) ≡ length src - 8 = length-drop 8 src in
    let fill : filling (length (drop 8 src)) ≡ filling (length src) = omega (arith, rest) in
    let z : ℕ = filling (length (drop 8 src)) in
    let bytes : (done ++ segment src) ++ (drop 8 src ++ zeros z)
        ≡ done ++ (src ++ zeros (filling (length src))) =
      append_assoc done (segment src) (drop 8 src ++ zeros z)
      ∙ ap (λ l. done ++ l)
          (sym (append_assoc (segment src) (drop 8 src) (zeros z))
            ∙ ap₂ (λ a n. a ++ zeros n) (segment-whole src le) fill) in
    let total : length (done ++ segment src) + length (drop 8 src) ≡ length done + length src =
      omega (arith, rest, length-append done (segment src), length-segment src) in
    record {
      pad = h.pad;
      short = h.short;
      alone = h.alone;
      state = subst (λ l. State cap l [] h.pad q) bytes h.state;
      size = subst (λ n. q.size ≤ maxsz n) total h.size;
    }

Loops-stop :
    {cap : ℕ} {done : List ℕ} {p : Packer}
    → State cap done [] 0 p
    → Bound (length done) p.size p.ff_n
    → Loops cap done [] p
Loops-stop {cap} {done} {p} s b = record {
  pad = 0;
  short = omega arith;
  alone = λ e. refl;
  state = subst (λ l. State cap l [] 0 p) (sym (append-nil done)) s;
  size =
      subst (λ n. p.size ≤ maxsz n) (let e : length done ≡ length done + 0 = omega arith in e)
        (Bound-end b 0);
}

-- The state that a round with a whole segment leaves.
next-State :
    {cap : ℕ} {done src : List ℕ} {p q : Packer}
    → Round cap done src p q
    → 8 ≤ length src
    → State cap (done ++ segment src) (drop 8 src) 0 q
next-State {cap} {done} {src} {p} {q} r le =
    subst (λ n. State cap (done ++ segment src) (drop 8 src) n q) (r.whole le) r.state

next-Bound :
    {cap : ℕ} {done src : List ℕ} {p q : Packer}
    → Round cap done src p q
    → State cap done src 0 p
    → Bound (length done) p.size p.ff_n
    → Bound (length (done ++ segment src)) q.size q.ff_n
next-Bound {cap} {done} {src} {p} {q} r s b =
    let m : ℕ = length (non_zeros (segment src)) in
    let len : length done + 8 ≡ length (done ++ segment src) =
      omega (arith, length-append done (segment src), length-segment src) in
    let kept : m ≤ 8 = omega (arith, non_zeros-le (segment src), length-segment src) in
    subst (λ n. Bound n q.size q.ff_n) len
      (subst (λ n. Bound (length done + 8) n q.ff_n) (sym r.size)
        (subst (λ n. Bound (length done + 8) (p.size + seg_size m p.ff_n) n) (sym r.ff_n)
          (Bound-round b m (ff_n-lt s) kept)))

next-HasRoom :
    (done src : List ℕ)
    → 8 ≤ length src
    → HasRoom (length done) (length src)
    → HasRoom (length (done ++ segment src)) (length (drop 8 src))
next-HasRoom done src le room =
    let total = length-append done (segment src) in
    let rest = length-drop 8 src in
    elim room [
      | inl few ↦ inl (omega (arith, few, total, rest, length-segment src))
      | inr few ↦ inr (omega (arith, few, rest))
    ]

pub pack_loop_lem :
    (fuel cap : ℕ) (done src : List ℕ) (p : Packer)
    → length src ≤ fuel
    → State cap done src 0 p
    → Bound (length done) p.size p.ff_n
    → HasRoom (length done) (length src)
    → (q : Packer) × (pack_loop fuel cap src p ≡ some q) × Loops cap done src q
pack_loop_lem fuel cap done [] p le s b room = (p, loop_stop fuel cap [] p refl, Loops-stop s b)
pack_loop_lem zero cap done (x ∷ src) p le s b room = absurd (omega arith)
pack_loop_lem (suc fuel) cap done (x ∷ src) p le s b room =
    let (q, e, r) =
      round_lem cap (x ∷ src) p done s (omega arith) (round_room cap done (x ∷ src) p s room) in
    elim (dec_lt (length (x ∷ src)) 8) [
      | yes lt ↦ (
        q,
        loop_step fuel cap (x ∷ src) p q (omega arith) e
            ∙ loop_stop fuel cap (drop 8 (x ∷ src)) q (omega (arith, length-drop 8 (x ∷ src))),
        Loops-short r s b (omega arith) lt,
      )
      | no ge ↦
          let le8 : 8 ≤ length (x ∷ src) = omega arith in
          let (q2, e2, h) =
            pack_loop_lem fuel cap (done ++ segment (x ∷ src)) (drop 8 (x ∷ src)) q
              (omega (arith, length-drop 8 (x ∷ src))) (next-State r le8) (next-Bound r s b)
              (next-HasRoom done (x ∷ src) le8 room) in
          (q2, loop_step fuel cap (x ∷ src) p q (omega arith) e ∙ e2, Loops-long le8 h)
    ]
