-- ===== src/Sproto/Rounds.antt =====
-- lualib-src/sproto/sproto.c: one round of `sproto_pack`, and its end.
use paohuzi_server.Shared.{
  ℕ, ◌+◌, ◌-◌, ◌*◌, ◌≤◌, ◌<◌, ◌≡◌, inl, inr, refl, true, false, ◌&&◌, some, List, [], ◌++◌,
  append-nil, append_assoc, arith, sym, ◌∙◌, ap, subst, ltb, ◌==◌, if◌then◌else◌, length, take,
  drop, length-append, take-all, take-append_left, dec_lt, Bool-cases,
}
use paohuzi_server.Sproto.{Packer, read, end_ff, pack_seg, padded, pack_round, zeros}
use paohuzi_server.Sproto.Memory.{read_same}
use paohuzi_server.Sproto.Tokens.{Stands, non_zeros}
use paohuzi_server.Sproto.Segment.{Packed, pack_seg_lem, is_full, seg_size, non_zeros-le}
use paohuzi_server.Sproto.Packing.{
  end_ff_lem, padded-zeros, segment, length-segment, segment-rest, State, ready, running,
  Stands-run, Stands-segment,
}

module _ (cap : ℕ) (src : List ℕ) (p : Packer) where
  abbrev seg_result : (ℕ → ℕ) × ℕ
  seg_result = pack_seg cap (segment src) p.buffer p.size p.ff_n

  -- The state with the segment's size and bytes.
  abbrev advanced : Packer
  advanced = record p { buffer = seg_result.0; size = p.size + seg_result.1 }

  round_first :
      seg_result.1 ≡ 10
      → pack_round cap src p
        ≡ some (record advanced { ff_n = 1; ff_srcstart = padded src; ff_desstart = p.size })
  unfolding pack_round
  round_first e = let t : (seg_result.1 == 10) ≡ true = ground arith in rw t refl

  round_more :
      seg_result.1 ≡ 8
      → 0 < p.ff_n
      → p.ff_n + 1 < 256
      → pack_round cap src p ≡ some (record advanced { ff_n = p.ff_n + 1 })
  unfolding pack_round
  round_more e pos lt =
      let t : (seg_result.1 == 10) ≡ false = ground arith in
      let u : ((seg_result.1 == 8) && ltb 0 p.ff_n) ≡ true = ground arith in
      let v : (p.ff_n + 1 == 256) ≡ false = ground arith in rw (t, u, v) refl

  round_last :
      seg_result.1 ≡ 8
      → p.ff_n + 1 ≡ 256
      → pack_round cap src p ≡ end_ff cap (record advanced { ff_n = p.ff_n + 1 }) (256 * 8)
  unfolding pack_round
  round_last e all =
      let t : (seg_result.1 == 10) ≡ false = ground arith in
      let u : ((seg_result.1 == 8) && ltb 0 p.ff_n) ≡ true = ground arith in
      let v : (p.ff_n + 1 == 256) ≡ true = ground arith in rw (t, u, v) refl

  round_end :
      seg_result.1 < 8 → 0 < p.ff_n → pack_round cap src p ≡ end_ff cap advanced (p.ff_n * 8)
  unfolding pack_round
  round_end lt pos =
      let t : (seg_result.1 == 10) ≡ false = ground arith in
      let u : ((seg_result.1 == 8) && ltb 0 p.ff_n) ≡ false = ground arith in
      let v : ltb 0 p.ff_n ≡ true = ground arith in rw (t, u, v) refl

  round_sparse : seg_result.1 < 10 → p.ff_n ≡ 0 → pack_round cap src p ≡ some advanced
  unfolding pack_round
  round_sparse lt z =
      let t : (seg_result.1 == 10) ≡ false = ground arith in
      let u : ((seg_result.1 == 8) && ltb 0 p.ff_n) ≡ false = ground (arith, z) in
      let v : ltb 0 p.ff_n ≡ false = ground (arith, z) in rw (t, u, v) refl

  -- The packed segment, with its number of bytes that are not zero.
  packed : Packed cap (segment src) p.buffer p.size p.ff_n seg_result
  packed = pack_seg_lem cap (segment src) p.buffer p.size p.ff_n

-- The next number of full segments in a row.
abbrev pub next_ff : ℕ → ℕ → ℕ
next_ff m n = if is_full m n then (if n + 1 == 256 then 0 else n + 1) else 0

-- What a round makes of the state, and its size.
pub record Round (cap : ℕ) (done src : List ℕ) (p q : Packer) : Type 0 where
  pub pad : ℕ
  pub whole : 8 ≤ length src → pad ≡ 0
  pub short : pad < 8
  pub alone : q.ff_n ≡ 1 → pad ≡ 0
  pub state : State cap (done ++ segment src) (drop 8 src) pad q
  pub size : q.size ≡ p.size + seg_size (length (non_zeros (segment src))) p.ff_n
  pub ff_n : q.ff_n ≡ next_ff (length (non_zeros (segment src))) p.ff_n

module _ (cap : ℕ) (src : List ℕ) (p : Packer) where
  abbrev kept : ℕ
  kept = length (non_zeros (segment src))

  kept-le : kept ≤ 8
  kept-le = omega (arith, non_zeros-le (segment src), length-segment src)

  size_full : is_full kept p.ff_n ≡ true → 0 < p.ff_n → (seg_result cap src p).1 ≡ 8
  size_full t pos =
      let u : ltb 0 p.ff_n ≡ true = ground arith in (packed cap src p).size ∙ rw (t, u) refl

  size_first : is_full kept p.ff_n ≡ true → p.ff_n ≡ 0 → (seg_result cap src p).1 ≡ 10
  size_first t z =
      let u : ltb 0 p.ff_n ≡ false = ground (arith, z) in (packed cap src p).size ∙ rw (t, u) refl

  size_sparse : is_full kept p.ff_n ≡ false → (seg_result cap src p).1 ≡ kept + 1
  size_sparse t = (packed cap src p).size ∙ rw t refl

  sparse-lt : is_full kept p.ff_n ≡ false → kept < 8
  sparse-lt t = ground (arith, t, kept-le)

  sparse-lt_six : is_full kept p.ff_n ≡ false → 0 < p.ff_n → kept < 6
  sparse-lt_six t pos = ground (arith, t, kept-le)

  next_full :
      (n : ℕ) → is_full kept p.ff_n ≡ true → p.ff_n ≡ n → n + 1 < 256 → n + 1 ≡ next_ff kept p.ff_n
  next_full n t e lt =
      let u : (p.ff_n + 1 == 256) ≡ false = ground (arith, e) in
      ap (λ k. k + 1) (sym e) ∙ sym (rw (t, u) refl)

  next_last : is_full kept p.ff_n ≡ true → p.ff_n ≡ 255 → 0 ≡ next_ff kept p.ff_n
  next_last t e = let u : (p.ff_n + 1 == 256) ≡ true = ground (arith, e) in sym (rw (t, u) refl)

  next_none : is_full kept p.ff_n ≡ false → 0 ≡ next_ff kept p.ff_n
  next_none t = sym (rw t refl)

  -- The bytes before the segment stay where they were.
  old_bytes : (n : ℕ) → n ≤ p.size → read (seg_result cap src p).0 0 n ≡ read p.buffer 0 n
  old_bytes n le =
      read_same (seg_result cap src p).0 p.buffer 0 n
        (λ j lo lt. (packed cap src p).old j (omega arith))

  ready_first :
      (done : List ℕ)
      → p.ff_n ≡ 0
      → (p.size ≤ cap → Stands (read p.buffer 0 p.size) done)
      → is_full kept p.ff_n ≡ true
      → (q : Packer) × (pack_round cap src p ≡ some q) × Round cap done src p q
  ready_first done z stands t =
      let ten = size_first t z in
      (
        record (advanced cap src p) { ff_n = 1; ff_srcstart = padded src; ff_desstart = p.size },
        round_first cap src p ten,
        record {
          pad = 0;
          whole = λ le. refl;
          short = omega arith;
          alone = λ e. refl;
          state =
              running done (segment src) 0 refl refl (omega arith)
                (omega (arith, length-segment src))
                (segment-rest src ∙ sym (padded-zeros src) ∙ sym (append-nil (padded src)))
                (omega (arith, ten, length-segment src))
                (λ room.
                  subst (λ l. Stands l done) (sym (old_bytes p.size (omega arith)))
                    (stands (omega arith)));
          size = ap (λ k. p.size + k) (packed cap src p).size;
          ff_n = next_full 0 t z (omega arith);
        },
      )

  ready_sparse :
      (done : List ℕ)
      → p.ff_n ≡ 0
      → (p.size ≤ cap → Stands (read p.buffer 0 p.size) done)
      → is_full kept p.ff_n ≡ false
      → (q : Packer) × (pack_round cap src p ≡ some q) × Round cap done src p q
  ready_sparse done z stands t =
      let lt = sparse-lt t in
      let one = size_sparse t in
      (
        advanced cap src p,
        round_sparse cap src p (omega (arith, one, lt)) z,
        record {
          pad = 0;
          whole = λ le. refl;
          short = omega arith;
          alone = λ e. refl;
          state = ready z (λ room.
              Stands-segment p.size (segment src) (seg_result cap src p).1 (packed cap src p).old
                ((packed cap src p).new t room) (length-segment src) lt (stands (omega arith)));
          size = ap (λ k. p.size + k) (packed cap src p).size;
          ff_n = z ∙ next_none t;
        },
      )

  module _ (done before run : List ℕ) (k : ℕ) (split : done ≡ before ++ run)
      (count : p.ff_n ≡ k + 1) (few : k < 255) (n : length run ≡ (k + 1) * 8)
      (source : run ++ src ≡ p.ff_srcstart) (at : p.size ≡ p.ff_desstart + 2 + length run)
      (stands : p.size ≤ cap → Stands (read p.buffer 0 p.ff_desstart) before) where
    longer : before ++ (run ++ segment src) ≡ done ++ segment src
    longer = sym (ap (λ l. l ++ segment src) split ∙ append_assoc before run (segment src))

    longer_source : (run ++ segment src) ++ drop 8 src ≡ p.ff_srcstart ++ zeros (8 - length src)
    longer_source =
        append_assoc run (segment src) (drop 8 src)
        ∙ ap (λ l. run ++ l) (segment-rest src)
        ∙ sym (append_assoc run src (zeros (8 - length src)))
        ∙ ap (λ l. l ++ zeros (8 - length src)) source

    length-longer : length (run ++ segment src) ≡ (k + 2) * 8
    length-longer = omega (arith, n, length-append run (segment src), length-segment src)

    running_more :
        0 < length src
        → is_full kept p.ff_n ≡ true
        → k + 1 < 255
        → (q : Packer) × (pack_round cap src p ≡ some q) × Round cap done src p q
    running_more some_left t lt =
        let eight = size_full t (omega (arith, count)) in
        (
          record (advanced cap src p) { ff_n = p.ff_n + 1 },
          round_more cap src p eight (omega (arith, count)) (omega (arith, count)),
          record {
            pad = 8 - length src;
            whole = λ le. omega arith;
            short = omega arith;
            alone = λ e. absurd (omega (arith, e, count));
            state =
                running before (run ++ segment src) (k + 1) (sym longer) (omega (arith, count)) lt
                  (length-longer ∙ omega arith) longer_source
                  (omega (arith, eight, at, length-append run (segment src), length-segment src))
                  (λ room.
                    subst (λ l. Stands l before) (sym (old_bytes p.ff_desstart (omega (arith, at))))
                      (stands (omega (arith, eight))));
            size = ap (λ k. p.size + k) (packed cap src p).size;
            ff_n = ap (λ m. m + 1) count ∙ next_full (k + 1) t count (omega arith);
          },
        )

    running_last :
        8 ≤ length src
        → is_full kept p.ff_n ≡ true
        → k + 1 ≡ 255
        → (q : Packer) × (pack_round cap src p ≡ some q) × Round cap done src p q
    running_last enough t last =
        let more : Packer = record (advanced cap src p) { ff_n = p.ff_n + 1 } in
        let eight = size_full t (omega (arith, count)) in
        let all : List ℕ = run ++ segment src in
        let size : length all ≡ 256 * 8 = omega (arith, length-longer) in
        let no_pad : 8 - length src ≡ 0 = omega arith in
        let begins : all ++ drop 8 src ≡ p.ff_srcstart =
          longer_source ∙ ap (λ m. p.ff_srcstart ++ zeros m) no_pad ∙ append-nil p.ff_srcstart in
        let taken : take (256 * 8) p.ff_srcstart ++ [] ≡ all =
          append-nil (take (256 * 8) p.ff_srcstart)
          ∙ ap (take (256 * 8)) (sym begins)
          ∙ take-append_left (256 * 8) all (drop 8 src) (omega arith)
          ∙ take-all (256 * 8) all (omega arith) in
        let total : p.ff_desstart + (2 + length all) ≡ more.size =
          omega (arith, eight, at, length-append run (segment src), length-segment src) in
        let (q, e, d) =
          end_ff_lem cap more (256 * 8) 255 all
            (omega (arith, ap length begins, length-append all (drop 8 src))) refl (omega arith)
            taken (omega (arith, total)) in
        (
          q,
          round_last cap src p eight (omega (arith, count)) ∙ e,
          record {
            pad = 0;
            whole = λ le. refl;
            short = omega arith;
            alone = λ e. refl;
            state = ready d.over (λ room.
                let here =
                  subst (λ l. Stands l before) (sym (old_bytes p.ff_desstart (omega (arith, at))))
                    (stands (omega (arith, room, d.size, eight))) in
                subst (λ l. Stands (read q.buffer 0 q.size) l) longer
                  (subst (λ m. Stands (read q.buffer 0 m) (before ++ all)) (total ∙ sym d.size)
                    (Stands-run p.ff_desstart 255 all (d.wrote (omega (arith, room, d.size))) size
                      here)));
            size = d.size ∙ ap (λ k. p.size + k) (packed cap src p).size;
            ff_n = d.over ∙ next_last t (count ∙ last);
          },
        )

    running_end :
        is_full kept p.ff_n ≡ false
        → (q : Packer) × (pack_round cap src p ≡ some q) × Round cap done src p q
    running_end t =
        let next : Packer = advanced cap src p in
        let one = size_sparse t in
        let six = sparse-lt_six t (omega (arith, count)) in
        let taken : take (p.ff_n * 8) p.ff_srcstart ++ zeros ((k + 1) * 8 - p.ff_n * 8) ≡ run =
          (let z : (k + 1) * 8 - p.ff_n * 8 ≡ 0 = omega (arith, count) in
            ap (λ m. take (p.ff_n * 8) p.ff_srcstart ++ zeros m) z)
          ∙ append-nil (take (p.ff_n * 8) p.ff_srcstart)
          ∙ ap (take (p.ff_n * 8)) (sym source)
          ∙ take-append_left (p.ff_n * 8) run src (omega (arith, n, count))
          ∙ take-all (p.ff_n * 8) run (omega (arith, n, count)) in
        let (q, e, d) =
          end_ff_lem cap next (p.ff_n * 8) k run
            (omega (arith, ap length source, length-append run src, n, count))
            (omega (arith, count)) (omega arith) taken (omega (arith, at)) in
        (
          q,
          round_end cap src p (omega (arith, one, six)) (omega (arith, count)) ∙ e,
          record {
            pad = 0;
            whole = λ le. refl;
            short = omega arith;
            alone = λ e. refl;
            state = ready d.over (λ room.
                let w = d.wrote (omega (arith, room, d.size)) in
                let here =
                  subst (λ l. Stands l before) (sym (old_bytes p.ff_desstart (omega (arith, at))))
                    (stands (omega (arith, room, d.size, one))) in
                let runs : Stands (read q.buffer 0 p.size) done =
                  subst (λ l. Stands (read q.buffer 0 p.size) l) (sym split)
                    (subst (λ m. Stands (read q.buffer 0 m) (before ++ run)) (omega (arith, at))
                      (Stands-run p.ff_desstart k run w n here)) in
                let behind =
                  read_same q.buffer next.buffer p.size (seg_result cap src p).1
                    (λ j le lt. w.after j (omega (arith, at)))
                  ∙ (packed cap src p).new t (omega (arith, room, d.size)) in
                subst (λ m. Stands (read q.buffer 0 m) (done ++ segment src)) (sym d.size)
                  (Stands-segment p.size (segment src) (seg_result cap src p).1 (λ j lt. refl)
                    behind (length-segment src) (omega (arith, six)) runs));
            size = d.size ∙ ap (λ k. p.size + k) (packed cap src p).size;
            ff_n = d.over ∙ next_none t;
          },
        )

  -- A round goes well, but where the last bytes, padded, end a run of 256 segments.
  pub round_lem :
      (done : List ℕ)
      → State cap done src 0 p
      → 0 < length src
      → (is_full kept p.ff_n ≡ true → p.ff_n ≡ 255 → 8 ≤ length src)
      → (q : Packer) × (pack_round cap src p ≡ some q) × Round cap done src p q
  round_lem done (ready z stands) some_left enough = elim (Bool-cases (is_full kept p.ff_n)) [
    | inl t ↦ ready_first done z stands t
    | inr t ↦ ready_sparse done z stands t
  ]
  round_lem done (running before run k split count few n source at stands) some_left enough =
      let source' = source ∙ append-nil p.ff_srcstart in
      elim (Bool-cases (is_full kept p.ff_n)) [
        | inr t ↦ running_end done before run k split count few n source' at stands t
        | inl t ↦ elim (dec_lt (k + 1) 255) [
          | yes lt ↦
              running_more done before run k split count few n source' at stands some_left t lt
          | no ge ↦
              let last : k + 1 ≡ 255 = omega arith in
              running_last done before run k split count few n source' at stands
                (enough t (count ∙ last)) t last
        ]
      ]
