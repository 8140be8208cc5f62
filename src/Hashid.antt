-- ===== src/Hashid.antt =====
-- service-src/hashid.h: which cell a connection id has. A chain of `hash` is the list of the cells that
-- its nodes are, and a cell of `id` is `none` for -1. Ids are not negative, and `none` as the result of
-- an operation is a failed assert. A node out of every chain has no `next`.
pub mod Chains
pub mod Lookup
pub mod Change
pub mod Insert
mod Tests
use Prim.Native.Nat.{bit_and}
use paohuzi_server.Shared.{
  ℕ, zero, suc, ◌+◌, ◌-◌, ◌*◌, ◌%◌, ◌^◌, ◌≡◌, Bool, true, false, Option, none, some, List, [], ◌∷◌,
  ltb, leb, ◌==◌, if◌then◌else◌, ◌>>=◌, update,
}

-- `struct hashid`
pub record Hashid : Type 0 where
  pub hashmod : ℕ
  pub cap : ℕ
  pub count : ℕ
  pub id : ℕ → Option ℕ
  pub hash : ℕ → List ℕ

-- The loop of `hashid_init` that doubles, with fuel
unfoldable pub double_to : ℕ → ℕ → ℕ → ℕ
double_to zero max hashcap = hashcap
double_to (suc fuel) max hashcap =
    let more = double_to fuel max (hashcap * 2) in if ltb hashcap max then more else hashcap

-- `hashid_init`
unfoldable pub hashid_init : ℕ → Hashid
hashid_init max = record {
  hashmod = double_to max max 16 - 1;
  cap = max;
  count = 0;
  id = λ _. none;
  hash = λ _. [];
}

abbrev pub has_id : Hashid → ℕ → ℕ → Bool
has_id hi id c = elim (hi.id c) [ none ↦ false | some x ↦ x == id ]

-- The loop of `hashid_lookup`
unfoldable pub find_node : Hashid → ℕ → List ℕ → Option ℕ
find_node hi id [] = none
find_node hi id (c ∷ l) = let rest = find_node hi id l in if has_id hi id c then some c else rest

-- `hashid_lookup`; `none` is -1 here.
unfoldable pub hashid_lookup : Hashid → ℕ → Option ℕ
hashid_lookup hi id = find_node hi id (hi.hash (bit_and id hi.hashmod))

-- The search of `hashid_remove`: the chain without the node.
unfoldable pub unlink : Hashid → ℕ → List ℕ → List ℕ
unlink hi id [] = []
unlink hi id (c ∷ l) = let rest = unlink hi id l in if has_id hi id c then l else c ∷ rest

-- `hashid_remove`; `none` is -1 here.
unfoldable pub hashid_remove : Hashid → ℕ → Hashid × Option ℕ
hashid_remove hi id =
    let h = bit_and id hi.hashmod in
    elim (find_node hi id (hi.hash h)) [
      | none ↦ (hi, none)
      | some c ↦ (
        record hi {
          count = hi.count - 1;
          id = update hi.id c none;
          hash = update hi.hash h (unlink hi id (hi.hash h));
        },
        some c,
      )
    ]

abbrev pub is_free : Option ℕ → Bool
is_free none = true
is_free (some x) = false

-- The loop of `hashid_insert` from `i` on, with `rounds` to go; a sum that is no `int` is a fault.
unfoldable pub free_cell : Hashid → ℕ → ℕ → ℕ → Option ℕ
free_cell hi id zero i = none
free_cell hi id (suc rounds) i =
    let later = free_cell hi id rounds (i + 1) in
    let index = (i + id) % hi.cap in
    let found = if is_free (hi.id index) then some index else later in
    if leb (2 ^ 31) (i + id) then none else found

-- `hashid_insert`
unfoldable pub hashid_insert : Hashid → ℕ → Option (Hashid × ℕ)
hashid_insert hi id = free_cell hi id hi.cap 0 >>= λ c.
    let h = bit_and id hi.hashmod in
    some (
      record hi {
        count = hi.count + 1;
        id = update hi.id c (some id);
        hash = update hi.hash h (c ∷ hi.hash h);
      },
      c,
    )

-- `hashid_full`
unfoldable pub hashid_full : Hashid → Bool
hashid_full hi = hi.count == hi.cap

-- `hashid_clear`
unfoldable pub hashid_clear : Hashid → Hashid
hashid_clear hi = record { hashmod = 1; cap = 0; count = 0; id = λ _. none; hash = λ _. [] }
