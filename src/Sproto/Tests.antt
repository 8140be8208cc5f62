-- ===== src/Sproto/Tests.antt =====
-- lualib-src/sproto/sproto.c: the theorem at a concrete message, and runs on small ones.
use paohuzi_server.Shared.{ℕ, List, [], ◌∷◌}

-- A full segment, one with two bytes that are not zero, and three bytes more.
abbrev message : List ℕ
message = 1 ∷ 2 ∷ 3 ∷ 4 ∷ 5 ∷ 6 ∷ 7 ∷ 8 ∷ 0 ∷ 0 ∷ 9 ∷ 0 ∷ 0 ∷ 0 ∷ 255 ∷ 0 ∷ 7 ∷ 0 ∷ 7 ∷ []
