-- ===== src/Unseri/Tests.antt =====
-- lualib-src/lua-seri.c: the theorems at concrete inputs.
use paohuzi_server.Shared.{ℕ, ◌≡◌, refl, inl, inr, true, none, some, List, [], ◌∷◌, arith}
use paohuzi_server.Shared.Int.{pos, negsuc}
use paohuzi_server.Seri.{
  nil, boolean, integer, text, table, unsupported, Items, no_items, item, no_pairs, pair, wb_push,
  wb_init, luaseri_pack,
}
use paohuzi_server.Seri.Encoding.{normal_items, ArePackable, IsPackable}
use paohuzi_server.Seri.Refusal.{IsRefused, luaseri_pack-none}
use paohuzi_server.Unseri.{luaseri_unpack}
use paohuzi_server.Unseri.RoundTrip.{round_trip}

-- `"hi", -3, {70000, true, x = {}}`, where the walk of the table gives its items too.
abbrev arguments : Items
arguments = item (text (104 ∷ 105 ∷ [])) (
    item (integer (negsuc 2)) (
      item
        (table (item (integer (pos 70000)) (item (boolean true) no_items)) (
          pair (integer (pos 1)) (integer (pos 70000)) (
            pair (text (120 ∷ [])) (table no_items no_pairs)
              (pair (integer (pos 2)) (boolean true) no_pairs))))
        no_items))

arguments-ArePackable : ArePackable 0 arguments
unfolding IsPackable
arguments-ArePackable = (
  (omega arith, omega arith),
  (
    (omega arith, omega arith),
    (
      (
        omega arith,
        omega arith,
        ((omega arith, omega arith), (omega arith, tt)),
        (
          refl,
          (omega arith, omega arith),
          (omega arith, omega arith),
          (
            refl,
            (omega arith, omega arith),
            (omega arith, omega arith, tt, tt),
            (refl, (omega arith, omega arith), omega arith, tt),
          ),
        ),
      ),
      tt,
    ),
  ),
)

round_trip_example :
    (buffer : List ℕ) × (luaseri_pack arguments ≡ some buffer)
    × (luaseri_unpack buffer ≡ some (normal_items arguments))
unfolding paohuzi_server.Seri.Encoding.encode_items paohuzi_server.Seri.Encoding.normal_items
round_trip_example = round_trip arguments arguments-ArePackable (omega arith)

luaseri_pack-none_example : luaseri_pack (item nil (item unsupported no_items)) ≡ none
luaseri_pack-none_example =
    luaseri_pack-none (item nil (item unsupported no_items)) (unfold IsRefused in inr (inl tt))
