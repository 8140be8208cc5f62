-- ===== src/Handle/Register.antt =====
-- skynet-src/skynet_handle.c: registering and retiring a service, as seen by `skynet_handle_grab`.
use Prim.Native.Nat.{bit_or}
use native.Mathlib.Nat.{pow-suc, mul_comm, mul_assoc, mul-add-mod_self_left}
use paohuzi_server.Shared.{
  ℕ, suc, ◌+◌, ◌-◌, ◌*◌, ◌%◌, ◌^◌, ◌≤◌, ◌<◌, ◌≡◌, refl, ◌≢◌, true, false, Option, none, some, arith,
  leb, ◌==◌, if◌then◌else◌, ◌>>=◌, update, update_same, update_ne, sym, ◌∙◌, ap, ℕ_discrete,
  Option-cases, inl, inr, ==_ne, ==_refl,
}
use paohuzi_server.Shared.Bits.{bit_or_low}
use paohuzi_server.Handle.{
  HandleStorage, handle_mask, hash, is_null, find_free, grow, grab, register_loop, register,
}
use paohuzi_server.Handle.Slots.{
  IsStorage, size_factor, hash-mod, hash-lt, candidate-lt, find_free-some, find_free-full,
}
use paohuzi_server.Handle.Rehash.{
  pick, rehash_lem, width_room, grown_placed, grown_grab, spare_slot,
}

-- Twice as many slots hold the same services, and one of them is free.
record Grown (handle_of : ℕ → ℕ) (s s' : HandleStorage) : Type 0 where
  done : grow handle_of s ≡ some s'
  valid : IsStorage handle_of s'
  same : (h : ℕ) → grab handle_of s' h ≡ grab handle_of s h
  kept : s'.names ≡ s.names
  spare : ℕ
  spare_in : spare < s'.slot_size
  spare_free : is_null (s'.slot spare) ≡ true

module _ {handle_of : ℕ → ℕ} {s : HandleStorage} (v : IsStorage handle_of s)
    (full : (t : ℕ) → t < s.slot_size → is_null (s.slot t) ≡ false)
    (room : s.slot_size * 2 ≤ 2 ^ 24) where
  abbrev larger : (ℕ → Option ℕ) → HandleStorage
  larger new = record s { slot = new; slot_size = s.slot_size * 2 }

  larger-IsStorage :
      (new : ℕ → Option ℕ)
      → ((j : ℕ) → new j ≡ pick handle_of s s.slot_size j)
      → IsStorage handle_of (larger new)
  larger-IsStorage new law = record {
    width = suc v.width;
    small = width_room v.width v.small (omega (arith, v.size));
    size = ap (λ n. n * 2) v.size ∙ sym (pow-suc 2 v.width);
    index = v.index;
    remote = v.remote;
    harbor = v.harbor;
    placed = λ i ctx lt e. grown_placed v full room i ctx (sym (law i) ∙ e);
  }

  larger-grab :
      (new : ℕ → Option ℕ) (h : ℕ)
      → ((j : ℕ) → new j ≡ pick handle_of s s.slot_size j)
      → grab handle_of (larger new) h ≡ grab handle_of s h
  unfolding grab
  larger-grab new h law =
      rw (hash-mod (larger-IsStorage new law) h, law (h % (s.slot_size * 2)), hash-mod v h)
        (grown_grab v full room h)

  grow_lem : (s' : HandleStorage) × Grown handle_of s s'
  unfolding grow
  grow_lem =
      let (new, e, law) = rehash_lem v full room s.slot_size (omega arith) in
      let (j, lt, free) = spare_slot v full room in
      let t : leb (s.slot_size * 2 - 1) handle_mask ≡ true = ground arith in
      (
        larger new,
        record {
          done = rw (t, e) refl;
          valid = larger-IsStorage new law;
          same = λ h. larger-grab new h law;
          kept = refl;
          spare = j;
          spare_in = lt;
          spare_free = ap is_null (law j ∙ free);
        },
      )

some_inj : {a b : ℕ} → some a ≡ some b → a ≡ b
some_inj h = cc

-- `ctx` is registered under `handle`, which had no service, and nothing else changes for `grab`.
pub record Registered (handle_of : ℕ → ℕ) (s : HandleStorage) (ctx handle : ℕ) (s' : HandleStorage)
    : Type 0 where
  pub valid : IsStorage (update handle_of ctx handle) s'
  pub fresh : grab handle_of s handle ≡ none
  pub table :
      (h : ℕ)
      → grab (update handle_of ctx handle) s' h
        ≡ (if handle == h then some ctx else grab handle_of s h)
  pub names : s'.names ≡ s.names

module _ {handle_of : ℕ → ℕ} {s : HandleStorage} (v : IsStorage handle_of s) (ctx h : ℕ)
    (below : h < 2 ^ 24) (free : is_null (s.slot (hash s h)) ≡ true)
    (unused : (i : ℕ) → i < s.slot_size → s.slot i ≢ some ctx) where
  abbrev stored : HandleStorage
  stored = record s { slot = update s.slot (hash s h) (some ctx); handle_index = h + 1 }

  abbrev handle : ℕ
  handle = bit_or s.harbor h

  handle-mod : handle % s.slot_size ≡ h % s.slot_size
  handle-mod =
      let q : ℕ = 2 ^ (24 - v.width) in
      let whole : handle ≡ v.remote * 2 ^ 24 + h =
        ap (λ n. bit_or n h) v.harbor ∙ bit_or_low 24 v.remote h below in
      let high : v.remote * 2 ^ 24 ≡ s.slot_size * (q * v.remote) =
        ap (λ n. v.remote * n) (size_factor v)
        ∙ mul_comm v.remote (s.slot_size * q)
        ∙ mul_assoc s.slot_size q v.remote in
      ap (λ n. n % s.slot_size) (whole ∙ ap (λ n. n + h) high)
      ∙ mul-add-mod_self_left s.slot_size (q * v.remote) h

  hash-handle : hash s handle ≡ hash s h
  hash-handle = hash-mod v handle ∙ handle-mod ∙ sym (hash-mod v h)

  was_free : s.slot (hash s h) ≡ none
  was_free = elim (Option-cases (s.slot (hash s h))) [
    | inl e ↦ e
    | inr (c, e) ↦ absurd (ground (arith, e, free))
  ]

  -- The others keep their handles.
  other_handle :
      (i c : ℕ) → i < s.slot_size → s.slot i ≡ some c → update handle_of ctx handle c ≡ handle_of c
  other_handle i c lt e =
      update_ne handle_of ctx c handle (λ same. unused i lt (e ∙ ap some (sym same)))

  stored_placed :
      (i c : ℕ)
      → i < s.slot_size
      → update s.slot (hash s h) (some ctx) i ≡ some c
      → update handle_of ctx handle c % s.slot_size ≡ i
  stored_placed i c lt e = elim (ℕ_discrete (hash s h) i) [
    | yes same ↦
        let mine : ctx ≡ c = some_inj (sym (update_same s.slot (hash s h) i (some ctx) same) ∙ e) in
        ap (λ k. k % s.slot_size) (update_same handle_of ctx c handle mine)
        ∙ handle-mod
        ∙ sym (hash-mod v h)
        ∙ same
    | no ne ↦
        let old : s.slot i ≡ some c = sym (update_ne s.slot (hash s h) i (some ctx) ne) ∙ e in
        ap (λ k. k % s.slot_size) (other_handle i c lt old) ∙ v.placed i c lt old
  ]

  stored_table :
      (k : ℕ)
      → grab (update handle_of ctx handle) stored k
        ≡ (if handle == k then some ctx else grab handle_of s k)
  unfolding grab
  stored_table k = elim (ℕ_discrete (hash s h) (hash s k)) [
    | yes same ↦
        rw
          (
            update_same s.slot (hash s h) (hash s k) (some ctx) same,
            update_same handle_of ctx ctx handle refl,
            ap s.slot (sym same) ∙ was_free,
          )
          refl
    | no ne ↦
        let differ : handle ≢ k = λ e. ne (sym hash-handle ∙ ap (hash s) e) in
        rw (update_ne s.slot (hash s h) (hash s k) (some ctx) ne, ==_ne handle k differ)
          (elim (Option-cases (s.slot (hash s k))) [
            | inl e ↦ rw e refl
            | inr (c, e) ↦ rw (e, other_handle (hash s k) c (hash-lt v k) e) refl
          ])
  ]

  stored-IsStorage : IsStorage (update handle_of ctx handle) stored
  stored-IsStorage = record {
    width = v.width;
    small = v.small;
    size = v.size;
    index = omega arith;
    remote = v.remote;
    harbor = v.harbor;
    placed = stored_placed;
  }

  stored-Registered : Registered handle_of s ctx handle stored
  unfolding grab
  stored-Registered = record {
    valid = stored-IsStorage;
    fresh = rw (hash-handle, was_free) refl;
    table = stored_table;
    names = refl;
  }

register_found :
    (fuel : ℕ) (handle_of : ℕ → ℕ) (s : HandleStorage) (ctx h : ℕ)
    → find_free s s.slot_size 0 ≡ some h
    → register_loop (suc fuel) handle_of s ctx
      ≡ some (
        record s { slot = update s.slot (hash s h) (some ctx); handle_index = h + 1 },
        bit_or s.harbor h,
      )
unfolding register_loop
register_found fuel handle_of s ctx h e = rw (e, register_loop) refl

register_grown :
    (fuel : ℕ) (handle_of : ℕ → ℕ) (s s1 : HandleStorage) (ctx : ℕ)
    → find_free s s.slot_size 0 ≡ none
    → grow handle_of s ≡ some s1
    → register_loop (suc fuel) handle_of s ctx ≡ register_loop fuel handle_of s1 ctx
unfolding register_loop grow
register_grown fuel handle_of s s1 ctx e g =
    (rw (e, register_loop) refl) ∙ ap (λ m. m >>= λ s'. register_loop fuel handle_of s' ctx) g

-- Doubling the slots is not seen by `grab`.
Registered-moved :
    {handle_of : ℕ → ℕ} {s s1 s' : HandleStorage} {ctx handle : ℕ}
    → Grown handle_of s s1
    → Registered handle_of s1 ctx handle s'
    → Registered handle_of s ctx handle s'
Registered-moved {handle_of} {s} {s1} {s'} {ctx} {handle} g r = record {
  valid = r.valid;
  fresh = sym (g.same handle) ∙ r.fresh;
  table = λ h. r.table h ∙ ap (λ o. if handle == h then some ctx else o) (g.same h);
  names = r.names ∙ g.kept;
}

module _ {handle_of : ℕ → ℕ} {s : HandleStorage} (v : IsStorage handle_of s) (ctx h : ℕ)
    (unused : (i : ℕ) → i < s.slot_size → s.slot i ≢ some ctx)
    (found : find_free s s.slot_size 0 ≡ some h) where
  found_stored :
      (fuel : ℕ)
      → (s' : HandleStorage) × (handle : ℕ) × (register_loop (suc fuel) handle_of s ctx
          ≡ some (s', handle))
        × Registered handle_of s ctx handle s'
  found_stored fuel =
      let (free, (j, e)) = find_free-some s s.slot_size 0 found in
      let below : h < 2 ^ 24 = omega (arith, e, candidate-lt v j) in
      (
        stored v ctx h below free unused,
        bit_or s.harbor h,
        register_found fuel handle_of s ctx h found,
        stored-Registered v ctx h below free unused,
      )

pub grab_placed :
    {handle_of : ℕ → ℕ} {s : HandleStorage} (v : IsStorage handle_of s) (i ctx : ℕ)
    → i < s.slot_size
    → s.slot i ≡ some ctx
    → grab handle_of s (handle_of ctx) ≡ some ctx
unfolding grab
grab_placed {handle_of} {s} v i ctx lt e =
    let at : hash s (handle_of ctx) ≡ i = hash-mod v (handle_of ctx) ∙ v.placed i ctx lt e in
    rw (ap s.slot at ∙ e, ==_refl (handle_of ctx)) refl

pub grab_slot :
    (handle_of : ℕ → ℕ) (s : HandleStorage) (h : ℕ) {ctx : ℕ}
    → grab handle_of s h ≡ some ctx
    → s.slot (hash s h) ≡ some ctx
unfolding grab
grab_slot handle_of s h e = ground (arith, e)

pub grab_handle :
    (handle_of : ℕ → ℕ) (s : HandleStorage) (h : ℕ) {ctx : ℕ}
    → grab handle_of s h ≡ some ctx
    → handle_of ctx ≡ h
unfolding grab
grab_handle handle_of s h e = ground (arith, e)

-- While the slots can still double, `skynet_handle_register` gives a service that is not registered
-- yet a handle that no service has. Once its context holds that handle, `skynet_handle_grab` finds it
-- there, and finds the other services as before, whether the slots were doubled or not.
pub register_lem :
    {handle_of : ℕ → ℕ} {s : HandleStorage} (ctx : ℕ)
    → IsStorage handle_of s
    → s.slot_size * 2 ≤ 2 ^ 24
    → ((i : ℕ) → i < s.slot_size → s.slot i ≢ some ctx)
    → (s' : HandleStorage) × (handle : ℕ) × (register handle_of s ctx ≡ some (s', handle))
      × Registered handle_of s ctx handle s'
unfolding register
register_lem {handle_of} {s} ctx v room unused = elim (Option-cases (find_free s s.slot_size 0)) [
  | inr (h, e) ↦ found_stored v ctx h unused e 1
  | inl e ↦
      let (s1, g) = grow_lem v (find_free-full v e) room in
      let unused1 : (i : ℕ) → i < s1.slot_size → s1.slot i ≢ some ctx = λ i lt at.
        let old = sym (g.same (handle_of ctx)) ∙ grab_placed g.valid i ctx lt at in
        unused (hash s (handle_of ctx)) (hash-lt v (handle_of ctx))
          (grab_slot handle_of s (handle_of ctx) old) in
      elim (Option-cases (find_free s1 s1.slot_size 0)) [
        | inl e1 ↦
            absurd (ground (arith, find_free-full g.valid e1 g.spare g.spare_in, g.spare_free))
        | inr (h, e1) ↦
            let (s', handle, result, r) = found_stored g.valid ctx h unused1 e1 0 in
            (
              s',
              handle,
              register_grown 1 handle_of s s1 ctx e g.done ∙ result,
              Registered-moved g r,
            )
      ]
]
