-- ===== src/Context/Safety.antt =====
-- skynet-src/skynet_server.c: what holds of the contexts in every state that the threads can reach.
use paohuzi_server.Shared.{
  ℕ, ◌-◌, ◌≡◌, refl, false, none, some, [], arith, ◌==◌, ◌↔◌, Option-cases, Bool-cases, inl, inr,
  dec_lt, ◌∙◌,
}
use paohuzi_server.Shared.Holders.{HeldBy, holders, HeldBy-of_holders}
use paohuzi_server.Context.{Context, Node, context_grab, context_release}
use paohuzi_server.Handle.{handle_init, grab}
use paohuzi_server.Handle.Slots.{handle_init-IsStorage}
use paohuzi_server.Context.Table.{HandleTable, handle_table}
use paohuzi_server.Context.Steps.{
  System, Step, Inv, Counted, at, Step-Inv, held_exists, listed_exists, grab-some, release_last,
  release_kept,
}

-- The state before the first service, with an empty table of handles.
abbrev pub start : (table : HandleTable) → table.T → System table
start table t = record { node = record { heap = λ _. none; total = 0 }; services = t; held = [] }

pub data Reach (table : HandleTable) (t : table.T) : System table → Type 0 where
  here : Reach table t (start table t)
  next : {s s' : System table} → Reach table t s → Step table s s' → Reach table t s'

-- A table without services
pub record IsEmpty (table : HandleTable) (t : table.T) : Type 0 where
  pub valid : table.IsValid t
  pub empty : (a : ℕ) → table.has t a ≡ false

module _ {table : HandleTable} {t : table.T} (e : IsEmpty table t) where
  Reach-Inv : {s : System table} → Reach table t s → Inv table s
  Reach-Inv here = record { valid = e.valid; counted = λ a. (e.empty a, refl) }
  Reach-Inv (next r st) = Step-Inv (Reach-Inv r) st

release_exists :
    (w : Node) (a : ℕ) {ctx : Context}
    → w.heap a ≡ some ctx
    → (w' : Node) × (context_release w a ≡ some w')
release_exists w a {ctx} e = elim (Bool-cases (ctx.ref - 1 == 0)) [
  | inl b ↦ (_, release_last w a e b)
  | inr b ↦ (_, release_kept w a e b)
]

-- In every reachable state a reference is to a context that is there: a thread that holds one can release
-- it, and a context that the table of handles finds has that handle and can be grabbed. This is not so
-- for `set_init`, which runs without a reference.
pub references_live :
    {table : HandleTable} {t : table.T} {s : System table}
    → IsEmpty table t
    → Reach table t s
    → ((i a : ℕ) → HeldBy i a s.held → (w : Node) × (context_release s.node a ≡ some w))
      × ((h a : ℕ)
          → table.find s.services h ≡ some a
          → (ctx : Context) × (s.node.heap a ≡ some ctx)
            × (ctx.handle ≡ h)
            × ((w : Node) × (context_grab s.node a ≡ some w)))
references_live {table} {t} {s} e r =
    let inv = Reach-Inv e r in
    (
      λ i a m. let (ctx, k) = held_exists inv i a m in release_exists s.node a k,
      λ h a f.
          let (listed, known) = table.find_has s.services h a inv.valid f in
          let (ctx, k, same) = listed_exists inv a listed in
          (ctx, k, same ∙ known, (_, grab-some s.node a k)),
    )

-- In every reachable state a context is freed exactly when no thread holds it and it is not in the
-- table of handles: none is freed early, and none is left over.
pub context_freed :
    {table : HandleTable} {t : table.T} {s : System table} (a : ℕ)
    → IsEmpty table t
    → Reach table t s
    → (s.node.heap a ≡ none) ↔ ((table.has s.services a ≡ false) × ((i : ℕ) → ¬ HeldBy i a s.held))
context_freed {table} {t} {s} a e r =
    let inv = Reach-Inv e r in
    (
      λ f. (
        elim (Bool-cases (table.has s.services a)) [
          | inl listed ↦ let (ctx, k, known) = listed_exists inv a listed in cc
          | inr out ↦ out
        ],
        λ i m. let (ctx, k) = held_exists inv i a m in cc,
      ),
      λ f. elim (Option-cases (s.node.heap a)) [
        | inl k ↦ k
        | inr (ctx, k) ↦ absurd (unreferenced ctx (at inv k) f.0 f.1)
      ],
    )
  where
    unreferenced :
        (ctx : Context)
        → Counted
            (some ctx)
            (table.has s.services a)
            (holders a s.held)
            (table.handle_of s.services a)
        → table.has s.services a ≡ false
        → ((i : ℕ) → ¬ HeldBy i a s.held)
        → ⊥
    unreferenced ctx c out idle = elim (dec_lt 0 (holders a s.held)) [
      | yes p ↦ let (i, m) = HeldBy-of_holders a s.held p in idle i m
      | no p ↦ ground (arith, c, out, p)
    ]

-- `skynet_handle_init` gives a table without services.
pub handle_init-IsEmpty : (f : ℕ → ℕ) (harbor : ℕ) → IsEmpty handle_table (f, handle_init harbor)
unfolding handle_init grab
handle_init-IsEmpty f harbor = record { valid = handle_init-IsStorage f harbor; empty = λ a. refl }
