-- ===== src/Context/Tests.antt =====
-- skynet-src/skynet_server.c: the contexts of a small run, and the theorems there.
use paohuzi_server.Shared.{◌>>=◌, ℕ, ◌≡◌, refl, false, none, some, [], ◌∷◌, arith, ◌↔◌, update}
use paohuzi_server.Shared.Holders.{HeldBy}
use paohuzi_server.Handle.{handle_init, register, find_free, grab, register_loop}
use paohuzi_server.Context.{
  Context, Node, context_new, context_grab, context_release, delete_context, set_init,
}
use paohuzi_server.Context.Table.{Services, handle_table, has_service, register_service}
use paohuzi_server.Context.Steps.{System, make, find}
use paohuzi_server.Context.Safety.{
  Reach, start, here, next, references_live, context_freed, handle_init-IsEmpty,
}

abbrev none_yet : Services
none_yet = ((λ a. 0), handle_init 0)

-- Thread 1 makes a service at address 5, which gets handle 1.
abbrev one_service : Services
one_service = (
  update (λ a. 0) 5 1,
  record (handle_init 0) { slot = update (λ i. none) 1 (some 5); handle_index = 2 },
)

abbrev made : System handle_table
made = record {
  node = context_new (start handle_table none_yet).node 5 1;
  services = one_service;
  held = (1, 5) ∷ [];
}

made_reach : Reach handle_table none_yet made
unfolding register_service register find_free register_loop handle_init
made_reach = next here (make 1 5 1 refl (omega arith) refl)

-- Thread 2 finds it, and thread 1 retires it: three references are held by threads.
abbrev shared_context : Context
shared_context = record { handle = 1; ref = 3; init = false }

abbrev found : System handle_table
found = record {
  node = record { heap = update (made.node.heap) 5 (some shared_context); total = 1 };
  services = one_service;
  held = (2, 5) ∷ (1, 5) ∷ [];
}

found_reach : Reach handle_table none_yet found
unfolding context_new context_grab grab handle_init
found_reach = next made_reach (find 2 1 5 refl refl)

references_live_example :
    ((i a : ℕ) → HeldBy i a found.held → (w : Node) × (context_release found.node a ≡ some w))
    × ((h a : ℕ)
        → grab found.services.0 found.services.1 h ≡ some a
        → (ctx : Context) × (found.node.heap a ≡ some ctx)
          × (ctx.handle ≡ h)
          × ((w : Node) × (context_grab found.node a ≡ some w)))
references_live_example = references_live (handle_init-IsEmpty (λ a. 0) 0) found_reach

context_freed_example :
    (found.node.heap 5 ≡ none)
    ↔ ((has_service found.services 5 ≡ false) × ((i : ℕ) → ¬ HeldBy i 5 found.held))
context_freed_example = context_freed 5 (handle_init-IsEmpty (λ a. 0) 0) found_reach

-- Thread 1 makes a service and releases it; thread 2 retires it and releases it too, before thread 1
-- writes `init`.
launched_late :
    (context_release made.node 5 >>= λ w. context_release w 5 >>= λ w'. set_init w' 5) ≡ none
unfolding context_new context_release delete_context set_init
launched_late = refl
