-- ===== src/Hashid/Change.antt =====
-- service-src/hashid.h: what removing and inserting an id changes.
use Prim.Native.Nat.{bit_and}
use paohuzi_server.Shared.{
  ℕ, ◌-◌, ◌<◌, ◌≡◌, ◌≢◌, inl, inr, refl, true, Option, none, some, arith, sym, ◌∙◌, ap, subst, ◌==◌,
  ==_ne, if◌then◌else◌, Option-cases, ℕ_discrete, update, update_same, update_ne,
}
use paohuzi_server.Mq.Global.{In, Distinct}
use paohuzi_server.Hashid.{Hashid, has_id, unlink, hashid_lookup, hashid_remove}
use paohuzi_server.Hashid.Chains.{
  has_id-some, In-unlink, unlink_keeps, unlink_drops, Distinct-unlink,
}
use paohuzi_server.Hashid.Lookup.{
  IsHashid, hashid_lookup_lem, cell-lt, busy, used-update, Option-ext,
}

some_inj : {a b : ℕ} → some a ≡ some b → a ≡ b
some_inj h = cc

module _ {hi : Hashid} (v : IsHashid hi) (id c0 : ℕ) (mine : hi.id c0 ≡ some id) where
  abbrev chain : ℕ
  chain = bit_and id hi.hashmod

  abbrev removed : Hashid
  removed = record hi {
    count = hi.count - 1;
    id = update hi.id c0 none;
    hash = update hi.hash chain (unlink hi id (hi.hash chain));
  }

  only : (d : ℕ) → has_id hi id d ≡ true → d ≡ c0
  only d t = v.unique d c0 id (has_id-some hi id d t) mine

  -- A cell that still has an id is another one.
  still : (c x : ℕ) → removed.id c ≡ some x → (c0 ≢ c) × (hi.id c ≡ some x)
  still c x e = elim (ℕ_discrete c0 c) [
    | yes same ↦ absurd (ground (arith, update_same hi.id c0 c none same, e))
    | no ne ↦ (ne, sym (update_ne hi.id c0 c none ne) ∙ e)
  ]

  others_same : (c x : ℕ) → c0 ≢ c → hi.id c ≡ some x → removed.id c ≡ some x
  others_same c x ne e = update_ne hi.id c0 c none ne ∙ e

  removed_placed : (c x : ℕ) → removed.id c ≡ some x → In c (removed.hash (bit_and x hi.hashmod))
  removed_placed c x e =
      let (ne, e') = still c x e in
      let old = v.placed c x e' in
      elim (ℕ_discrete chain (bit_and x hi.hashmod)) [
        | yes same ↦
            subst (In c)
              (sym (
                update_same hi.hash chain (bit_and x hi.hashmod) (unlink hi id (hi.hash chain))
                  same))
              (unlink_keeps hi id c0 only mine (hi.hash chain) c
                (subst (λ h. In c (hi.hash h)) (sym same) old) (λ e. ne (sym e)))
        | no differ ↦
            subst (In c)
              (sym (
                update_ne hi.hash chain (bit_and x hi.hashmod) (unlink hi id (hi.hash chain))
                  differ))
              old
      ]

  removed_linked :
      (h c : ℕ)
      → In c (removed.hash h)
      → (c < hi.cap) × (x : ℕ) × (removed.id c ≡ some x) × (bit_and x hi.hashmod ≡ h)
  removed_linked h c m = elim (ℕ_discrete chain h) [
    | yes same ↦
        let m' = subst (In c) (update_same hi.hash chain h (unlink hi id (hi.hash chain)) same) m in
        let (lt, x, e, at) = v.linked chain c (In-unlink hi id c0 only mine (hi.hash chain) c m') in
        let ne : c0 ≢ c = λ k.
          unlink_drops hi id c0 only mine (hi.hash chain) (v.distinct chain)
            (subst (λ d. In d (unlink hi id (hi.hash chain))) (sym k) m') in
        (lt, x, others_same c x ne e, at ∙ same)
    | no differ ↦
        let m' = subst (In c) (update_ne hi.hash chain h (unlink hi id (hi.hash chain)) differ) m in
        let (lt, x, e, at) = v.linked h c m' in
        let ne : c0 ≢ c = λ k.
          differ (ap (λ y. bit_and y hi.hashmod) (some_inj (sym mine ∙ ap hi.id k ∙ e)) ∙ at) in
        (lt, x, others_same c x ne e, at)
  ]

  removed-IsHashid : IsHashid removed
  removed-IsHashid = record {
    placed = removed_placed;
    linked = removed_linked;
    unique = λ c d x e k. v.unique c d x (still c x e).1 (still d x k).1;
    distinct = λ h. elim (ℕ_discrete chain h) [
      | yes same ↦
          subst Distinct (sym (update_same hi.hash chain h (unlink hi id (hi.hash chain)) same))
            (Distinct-unlink hi id c0 only mine (hi.hash chain) (v.distinct chain))
      | no differ ↦
          subst Distinct (sym (update_ne hi.hash chain h (unlink hi id (hi.hash chain)) differ))
            (v.distinct h)
    ];
    counted =
        omega
          (arith, v.counted, ap busy mine, used-update hi.id c0 none hi.cap (cell-lt c0 id v mine));
  }

  removed_table : (x : ℕ) → hashid_lookup removed x ≡ (if id == x then none else hashid_lookup hi x)
  removed_table x = elim (ℕ_discrete id x) [
    | yes same ↦
        let t : (id == x) ≡ true = ground arith in
        rw t (elim (Option-cases (hashid_lookup removed x)) [
          | inl e ↦ e
          | inr (c, e) ↦
              let (ne, k) = still c x ((hashid_lookup_lem x c removed-IsHashid).0 e) in
              absurd (ne (v.unique c0 c id mine (k ∙ ap some (sym same))))
        ])
    | no differ ↦ rw (==_ne id x differ) (
        Option-ext (hashid_lookup removed x) (hashid_lookup hi x) (λ c. (
          λ e.
              (hashid_lookup_lem x c v).1
                (still c x ((hashid_lookup_lem x c removed-IsHashid).0 e)).1,
          λ e.
              let k = (hashid_lookup_lem x c v).0 e in
              (hashid_lookup_lem x c removed-IsHashid).1
                (others_same c x (λ i. differ (some_inj (sym mine ∙ ap hi.id i ∙ k))) k),
        )))
  ]

-- The id is out of the map, and the others stay.
pub record Removed (hi : Hashid) (id : ℕ) (r : Hashid × Option ℕ) : Type 0 where
  pub valid : IsHashid r.0
  pub found : r.1 ≡ hashid_lookup hi id
  pub table : (x : ℕ) → hashid_lookup r.0 x ≡ (if id == x then none else hashid_lookup hi x)

remove-none : (hi : Hashid) (id : ℕ) → hashid_lookup hi id ≡ none → hashid_remove hi id ≡ (hi, none)
unfolding hashid_remove hashid_lookup
remove-none hi id e = rw (e, hashid_remove) refl

remove-some :
    {hi : Hashid} (v : IsHashid hi) (id c : ℕ) (mine : hi.id c ≡ some id)
    → hashid_lookup hi id ≡ some c
    → hashid_remove hi id ≡ (removed v id c mine, some c)
unfolding hashid_remove hashid_lookup
remove-some v id c mine e = rw (e, hashid_remove) refl

-- `hashid_remove` takes an id out of the map and tells its cell, if it has one.
pub hashid_remove_lem : {hi : Hashid} (id : ℕ) → IsHashid hi → Removed hi id (hashid_remove hi id)
hashid_remove_lem {hi} id v = elim (Option-cases (hashid_lookup hi id)) [
  | inl e ↦ subst (Removed hi id) (sym (remove-none hi id e)) (record {
    valid = v;
    found = sym e;
    table = λ x. elim (ℕ_discrete id x) [
      | yes same ↦
          let t : (id == x) ≡ true = ground arith in rw t (ap (hashid_lookup hi) (sym same) ∙ e)
      | no ne ↦ rw (==_ne id x ne) refl
    ];
  })
  | inr (c, e) ↦
      let mine = (hashid_lookup_lem id c v).0 e in
      subst (Removed hi id) (sym (remove-some v id c mine e)) (record {
        valid = removed-IsHashid v id c mine;
        found = sym e;
        table = removed_table v id c mine;
      })
]
