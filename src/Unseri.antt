-- ===== src/Unseri.antt =====
-- lualib-src/lua-seri.c: the way back from bytes to Lua values. A `read_block` is the list of its
-- bytes from `ptr` on. The table that is built is the sequence of its `lua_rawseti` and `lua_rawset`.
pub mod Numbers
pub mod RoundTrip
pub mod Within
mod Tests
use Prim.Native.Nat.{bit_and}
use paohuzi_server.Shared.{
  ℕ, zero, suc, ◌+◌, ◌-◌, ◌*◌, ◌/◌, ◌%◌, ◌^◌, Bool, true, false, ◌&&◌, ◌||◌, not, Option, none,
  some, List, [], ◌∷◌, ◌++◌, ltb, leb, ◌==◌, if◌then◌else◌, ◌>>=◌, length, take, drop,
}
use paohuzi_server.Shared.Int.{ℤ, pos, negsuc}
use paohuzi_server.Seri.{
  Value, nil, boolean, integer, real, pointer, text, table, paired, unsupported, Items, no_items,
  item, Pairs, no_pairs, pair, max_cookie, le_number, is_nil,
}

-- `rb_read`
unfoldable pub rb_read : List ℕ → ℕ → Option (List ℕ × List ℕ)
rb_read rb size = if ltb (length rb) size then none else some (take size rb, drop size rb)

-- The integer that an `int` of `w` bits stands for.
abbrev pub signed : ℕ → ℕ → ℤ
signed w n = if ltb n (2 ^ (w - 1)) then pos n else negsuc (2 ^ w - 1 - n)

-- `k` bytes read as a number
unfoldable pub read_number : List ℕ → ℕ → Option (ℕ × List ℕ)
read_number rb k = rb_read rb k >>= λ r. some (le_number r.0, r.1)

abbrev pub map_number {ℓ} : {A : Type ℓ} → (ℕ → A) → Option (ℕ × List ℕ) → Option (A × List ℕ)
map_number f none = none
map_number f (some (n, rb)) = some (f n, rb)

-- `get_integer`
unfoldable pub get_integer : List ℕ → ℕ → Option (ℤ × List ℕ)
get_integer rb cookie =
    let byte = map_number pos (read_number rb 1) in
    let word = map_number pos (read_number rb 2) in
    let dword = map_number (signed 32) (read_number rb 4) in
    let qword = map_number (signed 64) (read_number rb 8) in
    if cookie == 0
    then some (pos 0, rb)
    else if cookie == 1
    then byte
    else if cookie == 2
    then word
    else if cookie == 4
    then dword
    else if cookie == 6
    then qword
    else none

-- `get_real` and `get_pointer`
unfoldable pub get_real : List ℕ → Option (Value × List ℕ)
get_real rb = map_number real (read_number rb 8)

unfoldable pub get_pointer : List ℕ → Option (Value × List ℕ)
get_pointer rb = map_number pointer (read_number rb 8)

-- `get_buffer` for an unsigned length; one that is negative as an `int` passes `rb_read` and faults.
unfoldable pub get_buffer : List ℕ → ℕ → Option (Value × List ℕ)
get_buffer rb len =
    let bytes = rb_read rb len >>= λ r. some (text r.0, r.1) in
    if ltb len (2 ^ 31) then bytes else none

-- The first part of `unpack_table`: how many items follow. An `int` below 0 counts as none.
unfoldable pub as_count : ℤ → ℕ
as_count (pos n) = if ltb (n % 2 ^ 32) (2 ^ 31) then n % 2 ^ 32 else 0
as_count (negsuc n) = if ltb (n % 2 ^ 32) (2 ^ 31) then 0 else 2 ^ 32 - 1 - n % 2 ^ 32

unfoldable pub long_array_size : List ℕ → ℕ → Option (ℕ × List ℕ)
long_array_size rb type =
    let count = get_integer rb (type / 2 ^ 3) >>= λ s. some (as_count s.0, s.1) in
    if not (bit_and type 7 == 2) || (type / 2 ^ 3 == 8) then none else count

unfoldable pub get_array_size : List ℕ → ℕ → Option (ℕ × List ℕ)
get_array_size rb cookie =
    let long = read_number rb 1 >>= λ r. long_array_size r.1 r.0 in
    if cookie == max_cookie - 1 then long else some (cookie, rb)

-- A double that is not a number
abbrev pub is_nan : ℕ → Bool
is_nan bits = ltb (0x7ff * 2 ^ 52) (bits % 2 ^ 63)

-- What `lua_rawset` takes as a key; `unpack_table` has tested for nil before.
abbrev pub is_key : Value → Bool
is_key nil = false
is_key (real bits) = not (is_nan bits)
is_key _ = true

-- `TYPE_NUMBER` and `TYPE_LONG_STRING`
unfoldable pub get_number : List ℕ → ℕ → Option (Value × List ℕ)
get_number rb cookie =
    let whole = get_integer rb cookie >>= λ r. some (integer r.0, r.1) in
    if cookie == 8 then get_real rb else whole

unfoldable pub get_long_string : List ℕ → ℕ → Option (Value × List ℕ)
get_long_string rb cookie =
    let word = read_number rb 2 >>= λ r. get_buffer r.1 r.0 in
    let dword = read_number rb 4 >>= λ r. get_buffer r.1 r.0 in
    if cookie == 2 then word else if cookie == 4 then dword else none

-- `push_value`, but for tables
unfoldable pub push_scalar : List ℕ → ℕ → ℕ → Option (Value × List ℕ)
push_scalar rb type cookie =
    if type == 0
    then some (nil, rb)
    else if type == 1
    then some (boolean (not (cookie == 0)), rb)
    else if type == 2
    then get_number rb cookie
    else if type == 3
    then get_pointer rb
    else if type == 4
    then get_buffer rb cookie
    else if type == 5
    then get_long_string rb cookie
    else none

unfoldable mutual
  -- `push_value`, with fuel for the calls below it
  pub push_value : ℕ → List ℕ → ℕ → ℕ → Option (Value × List ℕ)
  push_value zero rb type cookie = none
  push_value (suc fuel) rb type cookie =
      let whole = get_array_size rb cookie >>= λ r.
      unpack_items fuel r.0 r.1 >>= λ s. unpack_pairs fuel s.1 >>= λ t. some (table s.0 t.0, t.1) in
      if type == 6 then whole else push_scalar rb type cookie

  -- `unpack_one`
  pub unpack_one : ℕ → List ℕ → Option (Value × List ℕ)
  unpack_one zero rb = none
  unpack_one (suc fuel) rb =
      read_number rb 1 >>= λ r. push_value fuel r.1 (bit_and r.0 7) (r.0 / 2 ^ 3)

  -- The first loop of `unpack_table`
  pub unpack_items : ℕ → ℕ → List ℕ → Option (Items × List ℕ)
  unpack_items zero n rb = if n == 0 then some (no_items, rb) else none
  unpack_items (suc fuel) n rb =
      let more = unpack_one fuel rb >>= λ r.
      unpack_items fuel (n - 1) r.1 >>= λ s. some (item r.0 s.0, s.1) in
      if n == 0 then some (no_items, rb) else more

  -- The second loop of `unpack_table`
  pub unpack_pairs : ℕ → List ℕ → Option (Pairs × List ℕ)
  unpack_pairs zero rb = none
  unpack_pairs (suc fuel) rb = unpack_one fuel rb >>= λ k.
      let more =
        unpack_one fuel k.1 >>= λ v. unpack_pairs fuel v.1 >>= λ s. some (pair k.0 v.0 s.0, s.1) in
      let keyed = if is_key k.0 then more else none in
      if is_nil k.0 then some (no_pairs, k.1) else keyed

-- The loop of `luaseri_unpack`
unfoldable pub unpack_all : ℕ → List ℕ → Option Items
unpack_all zero rb = none
unpack_all (suc fuel) rb =
    let more = unpack_one (suc fuel) rb >>= λ r. unpack_all fuel r.1 >>= λ l. some (item r.0 l) in
    if length rb == 0 then some no_items else more

-- `luaseri_unpack` of a buffer, with fuel that is enough for any
unfoldable pub luaseri_unpack : List ℕ → Option Items
luaseri_unpack buffer = unpack_all (3 * length buffer + 3) buffer
