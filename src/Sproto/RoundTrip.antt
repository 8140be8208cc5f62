-- ===== src/Sproto/RoundTrip.antt =====
-- lualib-src/sproto/sproto.c and lualib-src/sproto/lsproto.c: what is packed is unpacked.
use paohuzi_server.Shared.{ℕ, ◌≤◌, List, ◌++◌, length}
use paohuzi_server.Sproto.{read, zeros, maxsz}
use paohuzi_server.Sproto.Tokens.{Stands}
use paohuzi_server.Sproto.Loop.{filling}

-- What `sproto_pack` leaves: no fault, a size that does not go over that of `lpack`'s buffer, and, where
-- the buffer is large enough, packed bytes.
record Packs (cap : ℕ) (src : List ℕ) (r : (ℕ → ℕ) × ℕ) : Type 0 where
  size : r.1 ≤ maxsz (length src)
  stands : r.1 ≤ cap → Stands (read r.0 0 r.1) (src ++ zeros (filling (length src)))
