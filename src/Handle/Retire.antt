-- ===== src/Handle/Retire.antt =====
-- skynet-src/skynet_handle.c: retiring a service, as seen by `skynet_handle_grab`.
use paohuzi_server.Shared.{
  List, [], ◌∷◌, ◌⊎◌, ◌↔◌, ℕ, ◌≡◌, refl, ◌≢◌, true, Option, none, some, arith, ◌==◌, if◌then◌else◌,
  update, update_same, update_ne, sym, ◌∙◌, ap, ℕ_discrete, Option-cases, inl, inr, ==_ne, subst,
}
use paohuzi_server.Handle.{HandleName, HandleStorage, hash, grab, drop_names, retire}
use paohuzi_server.Handle.Slots.{IsStorage}
use paohuzi_server.Handle.Register.{grab_slot, grab_handle}

module _ {handle_of : ℕ → ℕ} {s : HandleStorage} (v : IsStorage handle_of s) (handle : ℕ) where
  abbrev removed : HandleStorage
  removed = record s {
    slot = update s.slot (hash s handle) none;
    names = drop_names handle s.names;
  }

  removed-IsStorage : IsStorage handle_of removed
  removed-IsStorage = record {
    width = v.width;
    small = v.small;
    size = v.size;
    index = v.index;
    remote = v.remote;
    harbor = v.harbor;
    placed = λ i c lt e. elim (ℕ_discrete (hash s handle) i) [
      | yes same ↦ absurd (ground (arith, update_same s.slot (hash s handle) i none same, e))
      | no ne ↦ v.placed i c lt (sym (update_ne s.slot (hash s handle) i none ne) ∙ e)
    ];
  }

  removed_table :
      (ctx : ℕ)
      → grab handle_of s handle ≡ some ctx
      → (h : ℕ) → grab handle_of removed h ≡ (if handle == h then none else grab handle_of s h)
  unfolding grab
  removed_table ctx e h = elim (ℕ_discrete (hash s handle) (hash s h)) [
    | no ne ↦
        let differ : handle ≢ h = λ same. ne (ap (hash s) same) in
        rw (update_ne s.slot (hash s handle) (hash s h) none ne, ==_ne handle h differ) refl
    | yes same ↦
        let here : s.slot (hash s h) ≡ some ctx =
          ap s.slot (sym same) ∙ grab_slot handle_of s handle e in
        let mine : handle_of ctx ≡ handle = grab_handle handle_of s handle e in
        rw (update_same s.slot (hash s handle) (hash s h) none same, here) (ground (arith, mine))
  ]

-- A name is in the list of names.
abbrev pub IsListed : HandleName → List HandleName → Type 0
IsListed n [] = ⊥
IsListed n (m ∷ l) = (n ≡ m) ⊎ IsListed n l

drop_names-IsListed :
    (handle : ℕ) (l : List HandleName) (n : HandleName)
    → IsListed n (drop_names handle l) ↔ (IsListed n l × (n.handle ≢ handle))
unfolding drop_names
drop_names-IsListed handle [] n = (λ h. elim h [ ], λ h. elim h.0 [ ])
drop_names-IsListed handle (m ∷ l) n = elim (ℕ_discrete m.handle handle) [
  | yes e ↦
      let t : (m.handle == handle) ≡ true = ground arith in
      let r = drop_names-IsListed handle l n in
      rw t (
        (λ h. let k = r.0 h in (inr k.0, k.1)),
        (λ h. elim h.0 [
          | inl same ↦ absurd (h.1 (ap (λ x. x.handle) same ∙ e))
          | inr k ↦ r.1 (k, h.1)
        ]),
      )
  | no ne ↦
      let r = drop_names-IsListed handle l n in
      rw (==_ne m.handle handle ne) (
        (λ h. elim h [
          | inl same ↦ (inl same, λ e. ne (sym (ap (λ x. x.handle) same) ∙ e))
          | inr k ↦ let q = r.0 k in (inr q.0, q.1)
        ]),
        (λ h. elim h.0 [ inl same ↦ inl same | inr k ↦ inr (r.1 (k, h.1)) ]),
      )
]

some_out : {o : Option ℕ} {ctx : ℕ} → o ≡ none → o ≡ some ctx → ⊥
some_out a b = absurd (ground (arith, a, b))

retire-none :
    (handle_of : ℕ → ℕ) (s : HandleStorage) (handle : ℕ)
    → grab handle_of s handle ≡ none
    → retire handle_of s handle ≡ (s, none)
unfolding retire
retire-none handle_of s handle e = rw (e, retire) refl

retire-some :
    (handle_of : ℕ → ℕ) (s : HandleStorage) (handle ctx : ℕ)
    → grab handle_of s handle ≡ some ctx
    → retire handle_of s handle ≡ (
      record s { slot = update s.slot (hash s handle) none; names = drop_names handle s.names },
      some ctx,
    )
unfolding retire
retire-some handle_of s handle ctx e = rw (e, retire) refl

-- The service with this handle is out, and no other, and if there was one, so are its names and no
-- others.
pub record Retired (handle_of : ℕ → ℕ) (s : HandleStorage) (handle : ℕ)
    (r : HandleStorage × Option ℕ) : Type 0 where
  pub valid : IsStorage handle_of r.0
  pub gone : r.1 ≡ grab handle_of s handle
  pub table : (h : ℕ) → grab handle_of r.0 h ≡ (if handle == h then none else grab handle_of s h)
  pub names :
      (n : HandleName)
      → IsListed n r.0.names
        ↔ (IsListed n s.names × ((n.handle ≢ handle) ⊎ (grab handle_of s handle ≡ none)))

-- `skynet_handle_retire` takes the service with that handle out of the table and hands it over to be
-- released, and drops its names, if there is one, and leaves the other services and names.
pub retire_lem :
    {handle_of : ℕ → ℕ} {s : HandleStorage} (handle : ℕ)
    → IsStorage handle_of s
    → Retired handle_of s handle (retire handle_of s handle)
retire_lem {handle_of} {s} handle v = elim (Option-cases (grab handle_of s handle)) [
  | inl e ↦ subst (Retired handle_of s handle) (sym (retire-none handle_of s handle e)) (record {
    valid = v;
    gone = sym e;
    table = λ h. elim (ℕ_discrete handle h) [
      | yes same ↦
          let t : (handle == h) ≡ true = ground arith in rw t (ap (grab handle_of s) (sym same) ∙ e)
      | no ne ↦ rw (==_ne handle h ne) refl
    ];
    names = λ n. ((λ h. (h, inr e)), (λ h. h.0));
  })
  | inr (ctx, e) ↦
      subst (Retired handle_of s handle) (sym (retire-some handle_of s handle ctx e)) (record {
        valid = removed-IsStorage v handle;
        gone = sym e;
        table = removed_table v handle ctx e;
        names = λ n.
            let d = drop_names-IsListed handle s.names n in
            (
              (λ h. let k = d.0 h in (k.0, inl k.1)),
              (λ h. elim h.1 [ inl ne ↦ d.1 (h.0, ne) | inr out ↦ absurd (some_out out e) ]),
            );
      })
]
