-- ===== src/Hashid/Tests.antt =====
-- service-src/hashid.h: the theorems at concrete tables.
use paohuzi_server.Shared.{ℕ, ◌≡◌, ◌↔◌, ◌≢◌, ◌<◌, refl, false, none, some, [], arith}
use paohuzi_server.Hashid.{
  Hashid, double_to, hashid_init, find_node, hashid_lookup, hashid_remove, hashid_insert,
  hashid_full,
}
use paohuzi_server.Hashid.Lookup.{IsHashid, hashid_init-IsHashid, hashid_lookup_lem}
use paohuzi_server.Hashid.Change.{Removed, hashid_remove_lem}
use paohuzi_server.Hashid.Insert.{Inserted, hashid_insert_lem, inserted, inserted-IsHashid}

-- Four cells, all free.
abbrev empty : Hashid
empty = record { hashmod = 15; cap = 4; count = 0; id = λ c. none; hash = λ h. [] }

empty-IsHashid : IsHashid empty
unfolding hashid_init double_to
empty-IsHashid = hashid_init-IsHashid 4

unused : (c : ℕ) → empty.id c ≢ some 7
unused c e = absurd (ground (arith, e))

three : 3 < empty.cap
three = omega arith

-- Id 7 in cell 3.
abbrev one : Hashid
one = inserted empty-IsHashid 7 3 three refl unused

one-IsHashid : IsHashid one
one-IsHashid = inserted-IsHashid empty-IsHashid 7 3 three refl unused

hashid_lookup_example : (hashid_lookup one 7 ≡ some 3) ↔ (one.id 3 ≡ some 7)
hashid_lookup_example = hashid_lookup_lem 7 3 one-IsHashid

hashid_remove_example : Removed one 7 (hashid_remove one 7)
hashid_remove_example = hashid_remove_lem 7 one-IsHashid

room : hashid_full one ≡ false
unfolding hashid_full
room = refl

new : hashid_lookup one 23 ≡ none
unfolding hashid_lookup find_node
new = refl

hashid_insert_example :
    (hi' : Hashid) × (c : ℕ) × (hashid_insert one 23 ≡ some (hi', c)) × Inserted one 23 hi' c
hashid_insert_example = hashid_insert_lem 23 one-IsHashid room new (omega arith)
