-- ===== src/Context.antt =====
-- skynet-src/skynet_server.c: the contexts of services and who refers to them. An address without a
-- context is one that is free. A step is one call that a lock or an atomic count makes one.
pub mod Table
pub mod Steps
pub mod Safety
mod Tests
use paohuzi_server.Shared.{
  ℕ, zero, suc, ◌+◌, ◌-◌, ◌≡◌, Bool, true, false, ◌&&◌, ◌⊎◌, Option, none, some, List, [], ◌∷◌,
  ◌==◌, if◌then◌else◌, ◌>>=◌, update,
}

-- `struct skynet_context`, as far as its life goes
pub record Context : Type 0 where
  pub handle : ℕ
  pub ref : ℕ
  pub init : Bool

-- The contexts in memory, and `G_NODE.total`
pub record Node : Type 0 where
  pub heap : ℕ → Option Context
  pub total : ℕ

-- `skynet_context_new` up to the start of the instance, at an address that `skynet_malloc` gave; the
-- handle is that of `skynet_handle_register`.
unfoldable pub context_new : Node → ℕ → ℕ → Node
context_new w a handle = record {
  heap = update w.heap a (some (record { handle = handle; ref = 2; init = false }));
  total = w.total + 1;
}

-- `skynet_context_grab`; `none` is a use of a context that was freed.
unfoldable pub context_grab : Node → ℕ → Option Node
context_grab w a = w.heap a >>= λ ctx.
    some (record w { heap = update w.heap a (some (record ctx { ref = ctx.ref + 1 })) })

-- `delete_context`
unfoldable pub delete_context : Node → ℕ → Node
delete_context w a = record { heap = update w.heap a none; total = w.total - 1 }

-- `skynet_context_release`
unfoldable pub context_release : Node → ℕ → Option Node
context_release w a = w.heap a >>= λ ctx.
    let less = record w { heap = update w.heap a (some (record ctx { ref = ctx.ref - 1 })) } in
    some (if ctx.ref - 1 == 0 then delete_context less a else less)

-- `ctx->init = true` in `skynet_context_new`, behind `skynet_context_release`: a write by a thread that has
-- given its reference back. `none` is a use of a context that was freed.
unfoldable pub set_init : Node → ℕ → Option Node
set_init w a = w.heap a >>= λ ctx.
    some (record w { heap = update w.heap a (some (record ctx { init = true })) })
