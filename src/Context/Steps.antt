-- ===== src/Context/Steps.antt =====
-- skynet-src/skynet_server.c with skynet-src/skynet_handle.c: the steps by which threads make, take,
-- give back and retire the contexts of services. A thread holds a reference from the call that gave
-- it to the call of `skynet_context_release`.
use paohuzi_server.Shared.{
  ℕ, ◌+◌, ◌-◌, ◌<◌, ◌≡◌, ◌≢◌, refl, Bool, true, false, Option, none, some, ◌∷◌, arith, sym, ◌∙◌, ap,
  subst, ◌==◌, update, update_same, update_ne, Option-cases, inl, inr, ℕ_discrete,
}
use paohuzi_server.Shared.Holders.{
  Held, HeldBy, remove, one_if, holders, holders-remove, holders_pos,
}
use paohuzi_server.Context.{
  set_init, Context, Node, context_new, context_grab, delete_context, context_release,
}
use paohuzi_server.Context.Table.{HandleTable}

pub record System (table : HandleTable) : Type 0 where
  pub node : Node
  pub services : table.T
  pub held : Held

pub data Step (table : HandleTable) (s : System table) : System table → Type 0 where
  -- `skynet_context_new` makes a context and registers it; the thread holds the other reference.
  make :
      (i a h : ℕ) {t : table.T}
      → s.node.heap a ≡ none
      → table.HasRoom s.services
      → table.enter s.services a ≡ some (t, h)
      → Step table s
          (record { node = context_new s.node a h; services = t; held = (i, a) ∷ s.held })
  -- `skynet_handle_grab`, under the lock of the handles
  find :
      (i h a : ℕ) {w : Node}
      → table.find s.services h ≡ some a
      → context_grab s.node a ≡ some w
      → Step table s (record { node = w; services = s.services; held = (i, a) ∷ s.held })
  -- `skynet_handle_retire` up to its release: the thread takes the reference of the table.
  retire :
      (i h a : ℕ)
      → (table.leave s.services h).1 ≡ some a
      → Step table s (record {
        node = s.node;
        services = (table.leave s.services h).0;
        held = (i, a) ∷ s.held;
      })
  -- `skynet_context_release`
  release :
      (i a : ℕ) {w : Node}
      → HeldBy i a s.held
      → context_release s.node a ≡ some w
      → Step table s (record { node = w; services = s.services; held = remove i a s.held })
  -- The end of `skynet_context_new` writes to the context, where it is still there.
  launch :
      (a : ℕ) {w : Node}
      → set_init s.node a ≡ some w
      → Step table s (record { node = w; services = s.services; held = s.held })

-- An address with `n` holders, that is in the table or not, and the handle that the table knows.
abbrev pub Counted : Option Context → Bool → ℕ → ℕ → Type 0
Counted none listed n known = (listed ≡ false) × (n ≡ 0)
Counted (some ctx) listed n known =
    (ctx.ref ≡ n + one_if listed) × (0 < ctx.ref) × (listed ≡ true → ctx.handle ≡ known)

pub record Inv (table : HandleTable) (s : System table) : Type 0 where
  pub valid : table.IsValid s.services
  pub counted :
      (a : ℕ)
      → Counted
          (s.node.heap a)
          (table.has s.services a)
          (holders a s.held)
          (table.handle_of s.services a)

-- `context_grab` and `context_release` at a context that is there.
pub grab-some :
    (w : Node) (a : ℕ) {ctx : Context}
    → w.heap a ≡ some ctx
    → context_grab w a
      ≡ some (record w { heap = update w.heap a (some (record ctx { ref = ctx.ref + 1 })) })
unfolding context_grab
grab-some w a e = rw (e, context_grab) refl

pub release_last :
    (w : Node) (a : ℕ) {ctx : Context}
    → w.heap a ≡ some ctx
    → (ctx.ref - 1 == 0) ≡ true
    → context_release w a
      ≡ some (
          delete_context
            (record w { heap = update w.heap a (some (record ctx { ref = ctx.ref - 1 })) })
            a)
unfolding context_release
release_last w a e t = rw (e, t, context_release) refl

pub release_kept :
    (w : Node) (a : ℕ) {ctx : Context}
    → w.heap a ≡ some ctx
    → (ctx.ref - 1 == 0) ≡ false
    → context_release w a
      ≡ some (record w { heap = update w.heap a (some (record ctx { ref = ctx.ref - 1 })) })
unfolding context_release
release_kept w a e t = rw (e, t, context_release) refl

some_eq {ℓ} : {A : Type ℓ} {x y : A} → some x ≡ some y → x ≡ y
some_eq h = cc

Counted-same :
    (o : Option Context) {b b' : Bool} {n n' k k' : ℕ}
    → b ≡ b'
    → n ≡ n'
    → k ≡ k'
    → Counted o b n k
    → Counted o b' n' k'
Counted-same none eb en ek c = (sym eb ∙ c.0, sym en ∙ c.1)
Counted-same (some ctx) {b} {b'} eb en ek c =
    (ground (arith, c.0, ap one_if eb), c.1, λ t. c.2 (eb ∙ t) ∙ ek)

module _ {table : HandleTable} {s : System table} (inv : Inv table s) where
  abbrev pub At : ℕ → Option Context → Type 0
  At a o = Counted o (table.has s.services a) (holders a s.held) (table.handle_of s.services a)

  pub at : {a : ℕ} {o : Option Context} → s.node.heap a ≡ o → At a o
  at {a} e = subst (At a) e (inv.counted a)

  -- A context that is held, or in the table, is there.
  pub held_exists : (i a : ℕ) → HeldBy i a s.held → (ctx : Context) × (s.node.heap a ≡ some ctx)
  held_exists i a m = elim (Option-cases (s.node.heap a)) [
    | inl e ↦ absurd (omega (arith, (at e).1, holders_pos i a s.held m))
    | inr f ↦ f
  ]

  pub listed_exists :
      (a : ℕ)
      → table.has s.services a ≡ true
      → (ctx : Context) × (s.node.heap a ≡ some ctx) × (ctx.handle ≡ table.handle_of s.services a)
  listed_exists a t = elim (Option-cases (s.node.heap a)) [
    | inl e ↦ let out = (at e).0 in absurd (ground (arith, out, t))
    | inr (ctx, e) ↦ (ctx, e, (at e).2 t)
  ]

  -- A step that changes what is known of one address
  change :
      (w : Node) (t : table.T) (held' : Held) (a : ℕ) {o : Option Context}
      → w.heap a ≡ o
      → table.IsValid t
      → Counted o (table.has t a) (holders a held') (table.handle_of t a)
      → ((b : ℕ)
          → b ≢ a
          → (w.heap b ≡ s.node.heap b)
            × (table.has t b ≡ table.has s.services b)
            × (holders b held' ≡ holders b s.held)
            × (table.handle_of t b ≡ table.handle_of s.services b))
      → Inv table (record { node = w; services = t; held = held' })
  change w t held' a {o} e v c same = record {
    valid = v;
    counted = λ b. elim (ℕ_discrete b a) [
      | yes eq ↦
          subst Want (sym eq) (
            subst (λ q. Counted q (table.has t a) (holders a held') (table.handle_of t a)) (sym e)
              c)
      | no ne ↦
          let r = same b ne in
          subst (λ q. Counted q (table.has t b) (holders b held') (table.handle_of t b)) (sym r.0)
            (Counted-same (s.node.heap b) (sym r.1) (sym r.2) (sym r.3) (inv.counted b))
    ];
  }
    where
      Want : ℕ → Type 0
      Want b = Counted (w.heap b) (table.has t b) (holders b held') (table.handle_of t b)

  make-Inv :
      (i a h : ℕ) {t : table.T}
      → s.node.heap a ≡ none
      → table.HasRoom s.services
      → table.enter s.services a ≡ some (t, h)
      → Inv table (record { node = context_new s.node a h; services = t; held = (i, a) ∷ s.held })
  unfolding context_new
  make-Inv i a h {t} e room entered =
      let c = at e in
      let (t', h', done, v, here, mine, others) = table.enter_has s.services a inv.valid room c.0 in
      let new : Context = record { handle = h; ref = 2; init = false } in
      let same = some_eq (sym done ∙ entered) in
      let same_t : t' ≡ t = ap (λ p. p.0) same in
      let same_h : h' ≡ h = ap (λ p. p.1) same in
      change (context_new s.node a h) t ((i, a) ∷ s.held) a
        (update_same s.node.heap a a (some new) refl) (subst table.IsValid same_t v)
        (
          ground (arith, c.1, sym (ap (λ x. table.has x a) same_t) ∙ here),
          omega arith,
          λ l. sym same_h ∙ sym mine ∙ ap (λ x. table.handle_of x a) same_t,
        )
        λ b ne. (
          update_ne s.node.heap a b (some new) (λ q. ne (sym q)),
          sym (ap (λ x. table.has x b) same_t) ∙ (others b ne).0,
          ground arith,
          sym (ap (λ x. table.handle_of x b) same_t) ∙ (others b ne).1,
        )

  find-Inv :
      (i h a : ℕ) {w : Node}
      → table.find s.services h ≡ some a
      → context_grab s.node a ≡ some w
      → Inv table (record { node = w; services = s.services; held = (i, a) ∷ s.held })
  find-Inv i h a {w} f g =
      let listed = table.find_has s.services h a inv.valid f in
      let (ctx, e, known) = listed_exists a listed.0 in
      let c = at e in
      let more : Context = record ctx { ref = ctx.ref + 1 } in
      let w' : Node = record (s.node) { heap = update s.node.heap a (some more) } in
      let same_w : w' ≡ w = some_eq (sym (grab-some s.node a e) ∙ g) in
      subst (λ x. Inv table (record { node = x; services = s.services; held = (i, a) ∷ s.held }))
        same_w
        (change w' s.services ((i, a) ∷ s.held) a (update_same s.node.heap a a (some more) refl)
          inv.valid (ground (arith, c.0), omega arith, c.2)
          λ b ne.
            (update_ne s.node.heap a b (some more) (λ q. ne (sym q)), refl, ground arith, refl))

  retire-Inv :
      (i h a : ℕ)
      → (table.leave s.services h).1 ≡ some a
      → Inv table (record {
        node = s.node;
        services = (table.leave s.services h).0;
        held = (i, a) ∷ s.held;
      })
  retire-Inv i h a l =
      let left = table.leave_find s.services h inv.valid in
      let found : table.find s.services h ≡ some a = sym left.1 ∙ l in
      let (ctx, e, known) = listed_exists a (table.find_has s.services h a inv.valid found).0 in
      let c = at e in
      let out = table.leave_has s.services h a inv.valid found in
      let gone = out.0 in
      let listed = (table.find_has s.services h a inv.valid found).0 in
      change s.node (table.leave s.services h).0 ((i, a) ∷ s.held) a e left.0
        (ground (arith, c.0, gone, listed), c.1, λ t. absurd (ground (arith, t, gone)))
        λ b ne. (refl, out.1 b ne, ground arith, table.leave_handle_of s.services h b)

  release_last-Inv :
      (i a : ℕ) {ctx : Context}
      → HeldBy i a s.held
      → s.node.heap a ≡ some ctx
      → ctx.ref ≡ 1
      → Inv table (record {
        node =
            delete_context
              (record (s.node) {
                heap = update s.node.heap a (some (record ctx { ref = ctx.ref - 1 }));
              })
              a;
        services = s.services;
        held = remove i a s.held;
      })
  unfolding delete_context
  release_last-Inv i a {ctx} m e one =
      let c = at e in
      let heap' : ℕ → Option Context =
        update s.node.heap a (some (record ctx { ref = ctx.ref - 1 })) in
      let fewer = holders-remove i a a s.held m in
      let many = holders_pos i a s.held m in
      let left : (table.has s.services a ≡ false) × (holders a (remove i a s.held) ≡ 0) =
        last_holder (table.has s.services a) many fewer (sym c.0 ∙ one) in
      change (record { heap = update heap' a none; total = s.node.total - 1 }) s.services
        (remove i a s.held) a (update_same heap' a a none refl) inv.valid left
        λ b ne. (
          update_ne heap' a b none (λ q. ne (sym q))
              ∙ update_ne s.node.heap a b (some (record ctx { ref = ctx.ref - 1 }))
                  (λ q. ne (sym q)),
          refl,
          ground (arith, holders-remove i a b s.held m),
          refl,
        )
    where
      last_holder :
          (b : Bool) {n k : ℕ}
          → 0 < n
          → k + one_if (a == a) ≡ n
          → n + one_if b ≡ 1
          → (b ≡ false) × (k ≡ 0)
      last_holder true p q r = absurd (omega (arith, p, r))
      last_holder false p q r = (refl, ground (arith, p, q, r))

  release_kept-Inv :
      (i a : ℕ) {ctx : Context}
      → HeldBy i a s.held
      → s.node.heap a ≡ some ctx
      → 1 < ctx.ref
      → Inv table (record {
        node = record (s.node) {
          heap = update s.node.heap a (some (record ctx { ref = ctx.ref - 1 }));
        };
        services = s.services;
        held = remove i a s.held;
      })
  release_kept-Inv i a {ctx} m e more =
      let c = at e in
      let less : Context = record ctx { ref = ctx.ref - 1 } in
      let fewer = holders-remove i a a s.held m in
      let left : ctx.ref - 1 ≡ holders a (remove i a s.held) + one_if (table.has s.services a) =
        ground (arith, c.0, fewer) in
      change (record (s.node) { heap = update s.node.heap a (some less) }) s.services
        (remove i a s.held) a (update_same s.node.heap a a (some less) refl) inv.valid
        (left, omega arith, c.2)
        λ b ne. (
          update_ne s.node.heap a b (some less) (λ q. ne (sym q)),
          refl,
          ground (arith, holders-remove i a b s.held m),
          refl,
        )

  release-Inv :
      (i a : ℕ) {w : Node}
      → HeldBy i a s.held
      → context_release s.node a ≡ some w
      → Inv table (record { node = w; services = s.services; held = remove i a s.held })
  release-Inv i a {w} m r =
      let (ctx, e) = held_exists i a m in
      let positive = (at e).1 in
      elim (ℕ_discrete ctx.ref 1) [
        | yes one ↦
            let t : (ctx.ref - 1 == 0) ≡ true = ground arith in
            subst Want (some_eq (sym (release_last s.node a e t) ∙ r))
              (release_last-Inv i a m e one)
        | no ne ↦
            let t : (ctx.ref - 1 == 0) ≡ false = ground (arith, positive) in
            subst Want (some_eq (sym (release_kept s.node a e t) ∙ r))
              (release_kept-Inv i a m e (omega (arith, positive)))
      ]
    where
      Want : Node → Type 0
      Want x = Inv table (record { node = x; services = s.services; held = remove i a s.held })

  launch-Inv :
      (a : ℕ) {w : Node}
      → set_init s.node a ≡ some w
      → Inv table (record { node = w; services = s.services; held = s.held })
  unfolding set_init
  launch-Inv a {w} l = elim (Option-cases (s.node.heap a)) [
    | inl e ↦ absurd (no_write e l)
    | inr (ctx, e) ↦
        let begun : Context = record ctx { init = true } in
        let w' : Node = record (s.node) { heap = update s.node.heap a (some begun) } in
        let result : set_init s.node a ≡ some w' = rw e refl in
        subst (λ x. Inv table (record { node = x; services = s.services; held = s.held }))
          (some_eq (sym result ∙ l))
          (change w' s.services s.held a (update_same s.node.heap a a (some begun) refl) inv.valid
            (at e)
            (λ b ne. (update_ne s.node.heap a b (some begun) (λ q. ne (sym q)), refl, refl, refl)))
  ]
    where
      no_write : {o : Node} → s.node.heap a ≡ none → set_init s.node a ≡ some o → ⊥
      no_write e f = ground (arith, e, f)

  pub Step-Inv : {s' : System table} → Step table s s' → Inv table s'
  Step-Inv (make i a h e room entered) = make-Inv i a h e room entered
  Step-Inv (find i h a f g) = find-Inv i h a f g
  Step-Inv (retire i h a l) = retire-Inv i h a l
  Step-Inv (release i a m r) = release-Inv i a m r
  Step-Inv (launch a l) = launch-Inv a l
