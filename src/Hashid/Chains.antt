-- ===== src/Hashid/Chains.antt =====
-- service-src/hashid.h: chains of cells.
use paohuzi_server.Shared.{
  ℕ, ◌≡◌, ◌≢◌, inl, inr, refl, true, false, none, some, List, [], ◌∷◌, arith, sym, ◌∙◌, ap, subst,
  Bool-cases, Option-cases,
}
use paohuzi_server.Mq.Global.{In, Distinct}
use paohuzi_server.Hashid.{Hashid, has_id, find_node, unlink}

module _ (hi : Hashid) (id : ℕ) where
  pub has_id-some : (c : ℕ) → has_id hi id c ≡ true → hi.id c ≡ some id
  has_id-some c e = elim (Option-cases (hi.id c)) [
    | inl k ↦ absurd (ground (arith, k, e))
    | inr (x, k) ↦ ground (arith, k, e)
  ]

  pub some-has_id : (c : ℕ) → hi.id c ≡ some id → has_id hi id c ≡ true
  some-has_id c e = ground (arith, e)

  pub find_node-some :
      (l : List ℕ) {c : ℕ} → find_node hi id l ≡ some c → In c l × (hi.id c ≡ some id)
  unfolding find_node
  find_node-some [] e = absurd (ground (arith, e))
  find_node-some (d ∷ l) {c} e = elim (Bool-cases (has_id hi id d)) [
    | inl t ↦
        let same : d ≡ c = ground (arith, t, e) in
        (inl (sym same), ap hi.id (sym same) ∙ has_id-some d t)
    | inr f ↦ let (m, k) = find_node-some l (ground (arith, f, e)) in (inr m, k)
  ]

  pub find_node-none : (l : List ℕ) (c : ℕ) → find_node hi id l ≡ none → In c l → hi.id c ≢ some id
  unfolding find_node
  find_node-none [] c e m = absurd m
  find_node-none (d ∷ l) c e m = elim (Bool-cases (has_id hi id d)) [
    | inl t ↦ absurd (ground (arith, t, e))
    | inr f ↦ elim m [
      | inl same ↦ λ k. absurd (ground (arith, some-has_id d (ap hi.id (sym same) ∙ k), f))
      | inr m' ↦ find_node-none l c (ground (arith, f, e)) m'
    ]
  ]

  unlink-hit : (d : ℕ) (l : List ℕ) → has_id hi id d ≡ true → unlink hi id (d ∷ l) ≡ l
  unfolding unlink
  unlink-hit d l t = rw t refl

  unlink-miss :
      (d : ℕ) (l : List ℕ) → has_id hi id d ≡ false → unlink hi id (d ∷ l) ≡ d ∷ unlink hi id l
  unfolding unlink
  unlink-miss d l f = rw f refl

  -- Without the node `c0`, the chain has the others.
  module _ (c0 : ℕ) (only : (d : ℕ) → has_id hi id d ≡ true → d ≡ c0)
      (mine : hi.id c0 ≡ some id) where
    pub In-unlink : (l : List ℕ) (c : ℕ) → In c (unlink hi id l) → In c l
    unfolding unlink
    In-unlink [] c m = m
    In-unlink (d ∷ l) c m = elim (Bool-cases (has_id hi id d)) [
      | inl t ↦ inr (subst (In c) (unlink-hit d l t) m)
      | inr f ↦ elim (subst (In c) (unlink-miss d l f) m) [
        | inl same ↦ inl same
        | inr later ↦ inr (In-unlink l c later)
      ]
    ]

    pub unlink_keeps : (l : List ℕ) (c : ℕ) → In c l → c ≢ c0 → In c (unlink hi id l)
    unlink_keeps [] c m ne = absurd m
    unlink_keeps (d ∷ l) c m ne = elim (Bool-cases (has_id hi id d)) [
      | inl t ↦ elim m [
        | inl same ↦ absurd (ne (same ∙ only d t))
        | inr later ↦ subst (In c) (sym (unlink-hit d l t)) later
      ]
      | inr f ↦ elim m [
        | inl same ↦ subst (In c) (sym (unlink-miss d l f)) (inl same)
        | inr later ↦ subst (In c) (sym (unlink-miss d l f)) (inr (unlink_keeps l c later ne))
      ]
    ]

    pub unlink_drops : (l : List ℕ) → Distinct l → ¬ In c0 (unlink hi id l)
    unfolding unlink
    unlink_drops [] u = λ m. m
    unlink_drops (d ∷ l) u = elim (Bool-cases (has_id hi id d)) [
      | inl t ↦ λ m. u.0 (subst (λ c. In c l) (sym (only d t)) (subst (In c0) (unlink-hit d l t) m))
      | inr f ↦ λ m. elim (subst (In c0) (unlink-miss d l f) m) [
        | inl same ↦ absurd (ground (arith, some-has_id d (ap hi.id (sym same) ∙ mine), f))
        | inr later ↦ unlink_drops l u.1 later
      ]
    ]

    pub Distinct-unlink : (l : List ℕ) → Distinct l → Distinct (unlink hi id l)
    unfolding unlink
    Distinct-unlink [] u = tt
    Distinct-unlink (d ∷ l) u = elim (Bool-cases (has_id hi id d)) [
      | inl t ↦ subst Distinct (sym (unlink-hit d l t)) u.1
      | inr f ↦
          subst Distinct (sym (unlink-miss d l f))
            (λ m. u.0 (In-unlink l d m), Distinct-unlink l u.1)
    ]
