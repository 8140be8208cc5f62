-- ===== src/Netpack/Delivery.antt =====
-- lualib-src/lua-netpack.c: what one side packs, the other side unpacks.
use paohuzi_server.Shared.{ℕ, ◌≡◌, refl, Option, none, some, List, [], ◌∷◌, ◌++◌, arith, ◌>>=◌}
use paohuzi_server.Netpack.{Netpack, Queue, get_queue, pack}
use paohuzi_server.Netpack.Ring.{get_queue-HasPacks}
use paohuzi_server.Netpack.Partial.{IsValid}
use paohuzi_server.Netpack.Frames.{parse}

-- The stream of some packages, each packed by `lpack`.
abbrev pub pack_all : List (List ℕ) → Option (List ℕ)
pack_all [] = some []
pack_all (p ∷ ps) = pack p >>= λ first. pack_all ps >>= λ others. some (first ++ others)

abbrev empty_stream : parse [] ≡ ([], [])
unfolding paohuzi_server.Netpack.Frames.frames
empty_stream = refl

pub none-IsValid : IsValid none []
unfolding get_queue paohuzi_server.Netpack.unlink_node
none-IsValid = record {
  packs = get_queue-HasPacks;
  distinct = λ h. tt;
  cut = λ fd uc e. absurd (ground (arith, e));
}
