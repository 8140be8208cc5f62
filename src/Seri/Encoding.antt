-- ===== src/Seri/Encoding.antt =====
-- lualib-src/lua-seri.c: the bytes of a value, told without blocks and calls of Lua, and what of a
-- value they tell.
use paohuzi_server.Shared.{
  ℕ, zero, suc, refl, arith, Bool, false, ◌+◌, ◌-◌, ◌*◌, ◌^◌, ◌≤◌, ◌<◌, true, List, [], ◌∷◌, ◌++◌,
  ltb, leb, ◌==◌, ◌≡◌, if◌then◌else◌, length,
}
use paohuzi_server.Shared.Int.{ℤ, pos, negsuc}
use paohuzi_server.Seri.{
  Value, nil, boolean, integer, real, pointer, text, table, paired, unsupported, Items, no_items,
  item, Pairs, no_pairs, pair, count_items, le_bytes, is_array_key, is_nil,
}
use paohuzi_server.Unseri.{is_key}

-- The keys of a table's items are 1 to `size`.
abbrev pub is_index : ℕ → Value → Bool
is_index size (integer (pos (suc i))) = ltb i size
is_index size _ = false

pub is_array_key-is_index : (size : ℕ) (k : Value) → is_array_key size k ≡ is_index size k
is_array_key-is_index size (integer (pos zero)) = refl
is_array_key-is_index size (integer (pos (suc i))) = ground arith
is_array_key-is_index size (integer (negsuc n)) = refl
is_array_key-is_index size nil = refl
is_array_key-is_index size (boolean b) = refl
is_array_key-is_index size (real b) = refl
is_array_key-is_index size (pointer a) = refl
is_array_key-is_index size (text s) = refl
is_array_key-is_index size (table l m) = refl
is_array_key-is_index size (paired m) = refl
is_array_key-is_index size unsupported = refl

-- The value that arrives: a table without the pairs that its items tell, and without metatable.
unfoldable mutual
  pub normal : Value → Value
  normal nil = nil
  normal (boolean b) = boolean b
  normal (integer n) = integer n
  normal (real bits) = real bits
  normal (pointer address) = pointer address
  normal (text s) = text s
  normal (table l m) = table (normal_items l) (normal_hash (count_items l) m)
  normal (paired m) = table no_items (normal_metapairs m)
  normal unsupported = unsupported

  pub normal_items : Items → Items
  normal_items no_items = no_items
  normal_items (item v l) = item (normal v) (normal_items l)

  pub normal_hash : ℕ → Pairs → Pairs
  normal_hash size no_pairs = no_pairs
  normal_hash size (pair k v m) =
      let both = pair (normal k) (normal v) (normal_hash size m) in
      if is_index size k then normal_hash size m else both

  pub normal_metapairs : Pairs → Pairs
  normal_metapairs no_pairs = no_pairs
  normal_metapairs (pair k v m) =
      let both = pair (normal k) (normal v) (normal_metapairs m) in
      if is_nil k then no_pairs else both

-- A type in the low three bits, and a cookie above.
abbrev pub header : ℕ → ℕ → ℕ
header type cookie = type + 8 * cookie

abbrev pub encode_integer : ℤ → List ℕ
encode_integer (pos n) =
    if n == 0
    then header 2 0 ∷ []
    else if leb (2 ^ 31) n
    then header 2 6 ∷ le_bytes 8 n
    else if ltb n 0x100
    then header 2 1 ∷ le_bytes 1 n
    else if ltb n 0x10000
    then header 2 2 ∷ le_bytes 2 n
    else header 2 4 ∷ le_bytes 4 n
encode_integer (negsuc n) =
    if leb (2 ^ 31) n
    then header 2 6 ∷ le_bytes 8 (2 ^ 64 - 1 - n)
    else header 2 4 ∷ le_bytes 4 (2 ^ 32 - 1 - n)

abbrev pub encode_text : List ℕ → List ℕ
encode_text s =
    if ltb (length s) 32
    then header 4 (length s) ∷ s
    else if ltb (length s) 0x10000
    then header 5 2 ∷ le_bytes 2 (length s) ++ s
    else header 5 4 ∷ le_bytes 4 (length s) ++ s

abbrev pub encode_size : ℕ → List ℕ
encode_size size =
    if leb 31 size then header 6 31 ∷ encode_integer (pos size) else header 6 size ∷ []

-- The bytes of a value that is `normal`.
unfoldable mutual
  pub encode : Value → List ℕ
  encode nil = header 0 0 ∷ []
  encode (boolean b) = header 1 (if b then 1 else 0) ∷ []
  encode (integer n) = encode_integer n
  encode (real bits) = header 2 8 ∷ le_bytes 8 bits
  encode (pointer address) = header 3 0 ∷ le_bytes 8 address
  encode (text s) = encode_text s
  encode (table l m) = encode_size (count_items l) ++ (encode_items l ++ encode_pairs m)
  encode (paired m) = header 0 0 ∷ []
  encode unsupported = header 0 0 ∷ []

  pub encode_items : Items → List ℕ
  encode_items no_items = []
  encode_items (item v l) = encode v ++ encode_items l

  pub encode_pairs : Pairs → List ℕ
  encode_pairs no_pairs = header 0 0 ∷ []
  encode_pairs (pair k v m) = encode k ++ (encode v ++ encode_pairs m)

abbrev pub InRange : ℤ → Type 0
InRange (pos n) = n < 2 ^ 63
InRange (negsuc n) = n < 2 ^ 63

-- A value that can be packed at a depth: of 64-bit numbers, texts and tables that `int` counts, no
-- table below depth 32, and keys that a table can have.
unfoldable mutual
  pub IsPackable : ℕ → Value → Type 0
  IsPackable d nil = d ≤ 32
  IsPackable d (boolean b) = d ≤ 32
  IsPackable d (integer n) = (d ≤ 32) × InRange n
  IsPackable d (real bits) = (d ≤ 32) × (bits < 2 ^ 64)
  IsPackable d (pointer address) = (d ≤ 32) × (address < 2 ^ 64)
  IsPackable d (text s) = (d ≤ 32) × (length s < 2 ^ 31)
  IsPackable d (table l m) =
      (d ≤ 32) × (count_items l < 2 ^ 31) × ArePackable (d + 1) l × ArePacked (d + 1) m
  IsPackable d (paired m) = (d ≤ 32) × ArePacked (d + 1) m
  IsPackable d unsupported = ⊥

  pub ArePackable : ℕ → Items → Type 0
  ArePackable d no_items = Unit
  ArePackable d (item v l) = IsPackable d v × ArePackable d l

  pub ArePacked : ℕ → Pairs → Type 0
  ArePacked d no_pairs = Unit
  ArePacked d (pair k v m) = (is_key k ≡ true) × IsPackable d k × IsPackable d v × ArePacked d m
