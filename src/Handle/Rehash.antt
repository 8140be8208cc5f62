-- ===== src/Handle/Rehash.antt =====
-- skynet-src/skynet_handle.c: moving the services to twice as many slots.
use Prim.Native.Nat.{bit_and}
use native.Mathlib.Nat.{mod-lt, mod_self, mod-eq_of_lt, pow-suc}
use paohuzi_server.Shared.{
  ℕ, zero, suc, ◌-◌, ◌*◌, ◌%◌, ◌^◌, ◌≤◌, ◌<◌, ◌≡◌, refl, ◌≢◌, true, false, Option, none, some,
  arith, ltb, ◌==◌, if◌then◌else◌, ◌>>=◌, update, update_same, update_ne, sym, ◌∙◌, ap, ℕ_discrete,
  Bool-cases, Option-cases, inl, inr, ==_ne,
}
use paohuzi_server.Shared.Bits.{bit_and_ones}
use paohuzi_server.Handle.{HandleStorage, is_null, rehash}
use paohuzi_server.Handle.Slots.{mod-mod_double, IsStorage, size_pos}

-- A slot of the larger table, once the first `n` slots are moved.
abbrev pub pick : (ℕ → ℕ) → HandleStorage → ℕ → ℕ → Option ℕ
pick handle_of s n j =
    let old = s.slot (j % s.slot_size) >>= λ ctx.
    if handle_of ctx % (s.slot_size * 2) == j then some ctx else none in
    if ltb (j % s.slot_size) n then old else none

module _ (handle_of : ℕ → ℕ) (s : HandleStorage) where
  pick_in :
      (n j t ctx : ℕ)
      → j % s.slot_size ≡ t
      → t < n
      → s.slot t ≡ some ctx
      → pick handle_of s n j ≡ (if handle_of ctx % (s.slot_size * 2) == j then some ctx else none)
  pick_in n j t ctx e lt here =
      let below : ltb (j % s.slot_size) n ≡ true = ground (arith, e) in
      let same : s.slot (j % s.slot_size) ≡ some ctx = ap s.slot e ∙ here in rw (below, same) refl

  pick_out : (n j : ℕ) → n ≤ j % s.slot_size → pick handle_of s n j ≡ none
  pick_out n j le = let above : ltb (j % s.slot_size) n ≡ false = ground arith in rw above refl

  pick-suc : (n j : ℕ) → j % s.slot_size ≢ n → pick handle_of s (suc n) j ≡ pick handle_of s n j
  pick-suc n j ne =
      let same : ltb (j % s.slot_size) (suc n) ≡ ltb (j % s.slot_size) n = ground arith in
      rw same refl

module _ {handle_of : ℕ → ℕ} {s : HandleStorage} (v : IsStorage handle_of s)
    (full : (t : ℕ) → t < s.slot_size → is_null (s.slot t) ≡ false)
    (room : s.slot_size * 2 ≤ 2 ^ 24) where
  pub taken : (t : ℕ) → t < s.slot_size → (ctx : ℕ) × (s.slot t ≡ some ctx)
  taken t lt = elim (Option-cases (s.slot t)) [
    | inl e ↦ absurd (ground (arith, full t lt, e))
    | inr found ↦ found
  ]

  double_mask : (h : ℕ) → bit_and h (s.slot_size * 2 - 1) ≡ h % (s.slot_size * 2)
  double_mask h =
      let e : s.slot_size * 2 ≡ 2 ^ suc v.width =
        ap (λ n. n * 2) v.size ∙ sym (pow-suc 2 v.width) in
      rw e (bit_and_ones (suc v.width) h)

  pick_moved :
      (n j ctx : ℕ)
      → s.slot n ≡ some ctx
      → j % s.slot_size ≡ n
      → handle_of ctx % (s.slot_size * 2) ≡ j
      → pick handle_of s (suc n) j ≡ some ctx
  pick_moved n j ctx here low same =
      let t : (handle_of ctx % (s.slot_size * 2) == j) ≡ true = ground arith in
      pick_in handle_of s (suc n) j n ctx low (omega arith) here ∙ rw t refl

  pick_kept :
      (n j ctx : ℕ)
      → s.slot n ≡ some ctx
      → handle_of ctx % (s.slot_size * 2) ≢ j
      → pick handle_of s n j ≡ pick handle_of s (suc n) j
  pick_kept n j ctx here ne = elim (ℕ_discrete (j % s.slot_size) n) [
    | yes e ↦
        pick_out handle_of s n j (omega arith)
        ∙ sym (
            pick_in handle_of s (suc n) j n ctx e (omega arith) here
            ∙ rw (==_ne (handle_of ctx % (s.slot_size * 2)) j ne) refl)
    | no other ↦ sym (pick-suc handle_of s n j other)
  ]

  pub rehash_lem :
      (n : ℕ)
      → n ≤ s.slot_size
      → (new : ℕ → Option ℕ) × (rehash handle_of s n ≡ some new)
        × ((j : ℕ) → new j ≡ pick handle_of s n j)
  unfolding rehash
  rehash_lem zero le = ((λ _. none), refl, λ j. sym (pick_out handle_of s 0 j (omega arith)))
  rehash_lem (suc n) le =
      let (new, e, old) = rehash_lem n (omega arith) in
      let (ctx, here) = taken n (omega arith) in
      let at : ℕ = handle_of ctx % (s.slot_size * 2) in
      let low : at % s.slot_size ≡ n =
        mod-mod_double s.slot_size (handle_of ctx) ∙ v.placed n ctx (omega arith) here in
      let free : new at ≡ none = old at ∙ pick_out handle_of s n at (omega (arith, low)) in
      (
        update new at (some ctx),
        rw (e, here, double_mask (handle_of ctx), free) refl,
        λ j. elim (ℕ_discrete at j) [
          | yes same ↦
              update_same new at j (some ctx) same
              ∙ sym (pick_moved n j ctx here (sym (ap (λ k. k % s.slot_size) same) ∙ low) same)
          | no ne ↦ update_ne new at j (some ctx) ne ∙ old j ∙ pick_kept n j ctx here ne
        ],
      )

pub width_room : (w : ℕ) → w ≤ 24 → 2 ^ w * 2 ≤ 2 ^ 24 → w < 24
width_room w le h = elim (ℕ_discrete w 24) [
  | yes e ↦ absurd (omega (arith, ap (λ k. 2 ^ k) e))
  | no ne ↦ omega arith
]

module _ {handle_of : ℕ → ℕ} {s : HandleStorage} (v : IsStorage handle_of s)
    (full : (t : ℕ) → t < s.slot_size → is_null (s.slot t) ≡ false)
    (room : s.slot_size * 2 ≤ 2 ^ 24) where
  pub grown_placed :
      (j ctx : ℕ)
      → pick handle_of s s.slot_size j ≡ some ctx
      → handle_of ctx % (s.slot_size * 2) ≡ j
  grown_placed j ctx e =
      let (c, here) = taken v full room (j % s.slot_size) (mod-lt j (size_pos v)) in
      let e' =
        sym
          (pick_in handle_of s s.slot_size j (j % s.slot_size) c refl (mod-lt j (size_pos v)) here)
        ∙ e in
      ground (arith, e')

  pub grown_grab :
      (h : ℕ)
      → (pick handle_of s s.slot_size (h % (s.slot_size * 2)) >>= λ ctx.
          if handle_of ctx == h then some ctx else none)
        ≡ (s.slot (h % s.slot_size) >>= λ ctx. if handle_of ctx == h then some ctx else none)
  grown_grab h =
      let (c, here) = taken v full room (h % s.slot_size) (mod-lt h (size_pos v)) in
      let j : ℕ = h % (s.slot_size * 2) in
      let e =
        pick_in handle_of s s.slot_size j (h % s.slot_size) c (mod-mod_double s.slot_size h)
          (mod-lt h (size_pos v)) here in
      elim (ℕ_discrete (handle_of c) h) [
        | yes same ↦
            let t : (handle_of c % (s.slot_size * 2) == j) ≡ true =
              ground (arith, ap (λ k. k % (s.slot_size * 2)) same) in
            rw (e, here, t) refl
        | no ne ↦
            let t : (handle_of c == h) ≡ false = ground arith in
            elim (Bool-cases (handle_of c % (s.slot_size * 2) == j)) [
              | inl u ↦ rw (e, here, u, t) refl
              | inr u ↦ rw (e, here, u, t) refl
            ]
      ]

  -- The half of slot 0 where its service is not.
  pub spare_slot : (j : ℕ) × (j < s.slot_size * 2) × (pick handle_of s s.slot_size j ≡ none)
  spare_slot =
      let (c, here) = taken v full room 0 (size_pos v) in
      let zero_low : 0 % s.slot_size ≡ 0 = mod-eq_of_lt (size_pos v) in
      let top_low : s.slot_size % s.slot_size ≡ 0 = mod_self s.slot_size in
      elim (ℕ_discrete (handle_of c % (s.slot_size * 2)) 0) [
        | no ne ↦ (
          0,
          omega (arith, size_pos v),
          pick_in handle_of s s.slot_size 0 0 c zero_low (size_pos v) here
              ∙ rw (==_ne (handle_of c % (s.slot_size * 2)) 0 ne) refl,
        )
        | yes e ↦
            let t : (handle_of c % (s.slot_size * 2) == s.slot_size) ≡ false =
              ground (arith, e, size_pos v) in
            (
              s.slot_size,
              omega (arith, size_pos v),
              pick_in handle_of s s.slot_size s.slot_size 0 c top_low (size_pos v) here ∙ rw t refl,
            )
      ]
