-- ===== src/Sproto/Sizes.antt =====
-- lualib-src/sproto/sproto.c: how large a packed message gets.
use paohuzi_server.Shared.{
  ℕ, ◌+◌, ◌-◌, ◌*◌, ◌/◌, ◌≤◌, ◌<◌, ◌≡◌, ◌⊎◌, inl, inr, refl, true, false, arith, ap, ◌==◌,
  if◌then◌else◌, ℕ_discrete, Bool-cases,
}
use paohuzi_server.Sproto.{maxsz}
use paohuzi_server.Sproto.Segment.{is_full, seg_size}
use paohuzi_server.Sproto.Rounds.{next_ff}

-- With `d` bytes packed, in whole segments, the last `f` of them in a run that is not written yet.
pub record Bound (d size f : ℕ) : Type 0 where
  pub inside : f * 8 ≤ d
  pub idle : f ≡ 0 → size ≤ d + 2 * (d / 2048)
  pub busy : 0 < f → size ≤ d + 2 * ((d - f * 8) / 2048) + 2

module _ {d size f : ℕ} (b : Bound d size f) (m : ℕ) where
  full-sizes :
      is_full m f ≡ true
      → f < 256
      → (seg_size m f ≡ (if f == 0 then 10 else 8))
        × (next_ff m f ≡ (if f == 255 then 0 else f + 1))
  full-sizes t lt = ground (arith, t)

  sparse-sizes : is_full m f ≡ false → (seg_size m f ≡ m + 1) × (next_ff m f ≡ 0)
  sparse-sizes t = (rw t refl, rw t refl)

  Bound-full : is_full m f ≡ true → f < 256 → Bound (d + 8) (size + seg_size m f) (next_ff m f)
  Bound-full t lt =
      let (s, g) = full-sizes t lt in
      elim (ℕ_discrete f 0) [
        | yes z ↦
            let s' : seg_size m f ≡ 10 = ground (arith, s, z) in
            let g' : next_ff m f ≡ 1 = ground (arith, g, z) in
            record {
              inside = omega (arith, g');
              idle = λ e. absurd (omega (arith, e, g'));
              busy = λ pos. omega (arith, s', g', b.idle z);
            }
        | no nz ↦
            let s' : seg_size m f ≡ 8 = ground (arith, s) in
            let old = b.busy (omega arith) in
            elim (ℕ_discrete f 255) [
              | yes last ↦
                  let g' : next_ff m f ≡ 0 = ground (arith, g, last) in
                  record {
                    inside = omega (arith, g');
                    idle = λ e. omega (arith, s', last, old, b.inside);
                    busy = λ pos. absurd (omega (arith, g', pos));
                  }
              | no ne ↦
                  let g' : next_ff m f ≡ f + 1 = ground (arith, g) in
                  let same : d + 8 - next_ff m f * 8 ≡ d - f * 8 = omega (arith, g') in
                  record {
                    inside = omega (arith, g', b.inside);
                    idle = λ e. absurd (omega (arith, e, g'));
                    busy = λ pos. omega (arith, s', ap (λ k. k / 2048) same, old);
                  }
            ]
      ]

  -- What a segment of `r` bytes, with `m` that are not zero, makes of the size at the end.
  sparse_size : is_full m f ≡ false → m ≤ 8 → (f ≡ 0) ⊎ (m < 6)
  sparse_size t le = ground (arith, t)

  Bound-sparse : is_full m f ≡ false → m ≤ 8 → Bound (d + 8) (size + seg_size m f) (next_ff m f)
  Bound-sparse t le =
      let (s, g) = sparse-sizes t in
      let seven : m < 8 = ground (arith, t) in
      record {
        inside = omega (arith, g);
        idle = λ e. elim (ℕ_discrete f 0) [
          | yes z ↦ omega (arith, s, b.idle z, seven)
          | no nz ↦ elim (sparse_size t le) [
            | inl z ↦ absurd (nz z)
            | inr six ↦ omega (arith, s, b.busy (omega arith), six)
          ]
        ];
        busy = λ pos. absurd (omega (arith, g, pos));
      }

  pub Bound-round : f < 256 → m ≤ 8 → Bound (d + 8) (size + seg_size m f) (next_ff m f)
  Bound-round lt le = elim (Bool-cases (is_full m f)) [
    | inl t ↦ Bound-full t lt
    | inr t ↦ Bound-sparse t le
  ]

  -- At the end of the source, and behind a last segment that has only `r` bytes.
  pub Bound-end : size ≤ maxsz d
  Bound-end = elim (ℕ_discrete f 0) [
    | yes z ↦ omega (arith, b.idle z)
    | no nz ↦ omega (arith, b.busy (omega arith))
  ]

  pub Bound-short : (r : ℕ) → f < 256 → m ≤ r → r < 8 → 0 < r → size + seg_size m f ≤ maxsz (d + r)
  Bound-short r lt le short some_left = elim (Bool-cases (is_full m f)) [
    | inl t ↦ elim (ℕ_discrete f 0) [
      | yes z ↦ absurd (ground (arith, t, z))
      | no nz ↦
          let (s, g) = full-sizes t lt in
          let s' : seg_size m f ≡ 8 = ground (arith, s) in
          let six : 6 ≤ m = ground (arith, t) in omega (arith, s', six, b.busy (omega arith))
    ]
    | inr t ↦
        let (s, g) = sparse-sizes t in
        elim (ℕ_discrete f 0) [
          | yes z ↦ omega (arith, s, b.idle z)
          | no nz ↦ omega (arith, s, b.busy (omega arith))
        ]
  ]
