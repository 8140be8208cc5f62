-- ===== src/Seri.antt =====
-- lualib-src/lua-seri.c: Lua values as bytes, for the messages between services. A value is what the
-- Lua calls of the code tell of it: of a table the items 1 to `lua_rawlen` and the pairs of
-- `lua_next`, in its order. A double is the number of its bits, and a pointer its address; both are
-- 8 bytes, and the machine is little-endian. `none` is an error that the code raises, or a fault.
pub mod Blocks
pub mod Encoding
pub mod Packing
pub mod Refusal
use Prim.Native.Nat.{bit_and, bit_or}
use paohuzi_server.Shared.{
  ℕ, zero, suc, ◌+◌, ◌-◌, ◌*◌, ◌/◌, ◌%◌, ◌^◌, Bool, true, false, ◌&&◌, ◌||◌, Option, none, some,
  List, [], ◌∷◌, ◌++◌, ltb, leb, ◌==◌, if◌then◌else◌, ◌>>=◌, length, take, drop,
}
use paohuzi_server.Shared.Int.{ℤ, pos, negsuc}

mutual
  pub data Value : Type 0 where
    nil : Value
    boolean : Bool → Value
    integer : ℤ → Value
    real : ℕ → Value
    pointer : ℕ → Value
    text : List ℕ → Value
    table : Items → Pairs → Value
    -- A table with a `__pairs` metamethod, and the pairs that its iterator gives.
    paired : Pairs → Value
    -- A function, a thread or a full userdata.
    unsupported : Value

  pub data Items : Type 0 where
    no_items : Items
    item : Value → Items → Items

  pub data Pairs : Type 0 where
    no_pairs : Pairs
    pair : Value → Value → Pairs → Pairs

-- `lua_rawlen`, and `lua_gettop` for the arguments of `luaseri_pack`
abbrev pub count_items : Items → ℕ
count_items no_items = 0
count_items (item v l) = suc (count_items l)

abbrev pub max_cookie : ℕ
max_cookie = 32

abbrev pub block_size : ℕ
block_size = 128

abbrev pub max_depth : ℕ
max_depth = 32

-- `COMBINE_TYPE`, as a byte
unfoldable pub combine_type : ℕ → ℕ → ℕ
combine_type t v = bit_or t (v * 2 ^ 3) % 2 ^ 8

-- `struct write_block`: the blocks before the current one, and the first `ptr` bytes of that; `len` is
-- an `int`, whose overflow `luaseri_pack` has.
pub record WriteBlock : Type 0 where
  pub full : List (List ℕ)
  pub current : List ℕ
  pub len : ℕ

-- `wb_init`
unfoldable pub wb_init : WriteBlock
wb_init = record { full = []; current = []; len = 0 }

-- `b->current = b->current->next = blk_alloc()`
unfoldable pub next_block : WriteBlock → WriteBlock
next_block b = record b { full = b.full ++ b.current ∷ []; current = [] }

-- The rest of `wb_push` behind the first test, with fuel for its `goto`.
unfoldable pub wb_copy : ℕ → WriteBlock → List ℕ → WriteBlock
wb_copy zero b buffer = record b { current = b.current ++ buffer; len = b.len + length buffer }
wb_copy (suc fuel) b buffer =
    let size = length buffer in
    let fits = record b { current = b.current ++ buffer; len = b.len + size } in
    let copy = block_size - length b.current in
    let filled = record b { current = b.current ++ take copy buffer; len = b.len + copy } in
    let again = wb_copy fuel (next_block filled) (drop copy buffer) in
    if leb (length b.current + size) block_size then fits else again

-- `wb_push`
unfoldable pub wb_push : WriteBlock → List ℕ → WriteBlock
wb_push b buffer =
    wb_copy (length buffer) (if length b.current == block_size then next_block b else b) buffer

-- `seri`: `len` bytes out of the blocks from `b` on.
unfoldable pub seri : List (List ℕ) → ℕ → Option (List ℕ)
seri [] zero = some []
seri [] (suc len) = none
seri (b ∷ bs) len =
    let rest = seri bs (len - block_size) >>= λ l. some (take block_size b ++ l) in
    if leb block_size len then rest else some (take len b)

-- The `k` bytes of a number as they lie in memory, and back.
abbrev pub le_bytes : ℕ → ℕ → List ℕ
le_bytes zero n = []
le_bytes (suc k) n = n % 2 ^ 8 ∷ le_bytes k (n / 2 ^ 8)

abbrev pub le_number : List ℕ → ℕ
le_number [] = 0
le_number (b ∷ l) = b + 2 ^ 8 * le_number l

-- `wb_nil`
unfoldable pub wb_nil : WriteBlock → WriteBlock
wb_nil wb = wb_push wb (0 ∷ [])

-- `wb_boolean`
unfoldable pub wb_boolean : WriteBlock → Bool → WriteBlock
wb_boolean wb b = wb_push wb (combine_type 1 (if b then 1 else 0) ∷ [])

-- A header of `wb_integer` for a number of `k` bytes, and those.
unfoldable pub wb_number : WriteBlock → ℕ → ℕ → ℕ → WriteBlock
wb_number wb cookie k n = wb_push (wb_push wb (combine_type 2 cookie ∷ [])) (le_bytes k n)

-- `wb_integer`
unfoldable pub wb_integer : WriteBlock → ℤ → WriteBlock
wb_integer wb (pos n) =
    if n == 0
    then wb_push wb (combine_type 2 0 ∷ [])
    else if leb (2 ^ 31) n
    then wb_number wb 6 8 n
    else if ltb n 0x100
    then wb_number wb 1 1 n
    else if ltb n 0x10000
    then wb_number wb 2 2 n
    else wb_number wb 4 4 n
wb_integer wb (negsuc n) =
    if leb (2 ^ 31) n then wb_number wb 6 8 (2 ^ 64 - 1 - n) else wb_number wb 4 4 (2 ^ 32 - 1 - n)

-- `wb_real`
unfoldable pub wb_real : WriteBlock → ℕ → WriteBlock
wb_real wb bits = wb_push (wb_push wb (combine_type 2 8 ∷ [])) (le_bytes 8 bits)

-- `wb_pointer`
unfoldable pub wb_pointer : WriteBlock → ℕ → WriteBlock
wb_pointer wb address = wb_push (wb_push wb (3 ∷ [])) (le_bytes 8 address)

-- `wb_string`
unfoldable pub wb_string : WriteBlock → List ℕ → WriteBlock
wb_string wb s =
    let len = length s in
    let short = wb_push wb (combine_type 4 len ∷ []) in
    let word = wb_push (wb_push wb (combine_type 5 2 ∷ [])) (le_bytes 2 len) in
    let dword = wb_push (wb_push wb (combine_type 5 4 ∷ [])) (le_bytes 4 len) in
    if ltb len max_cookie
    then (if ltb 0 len then wb_push short s else short)
    else wb_push (if ltb len 0x10000 then word else dword) s

-- The header of `wb_table_array`
unfoldable pub wb_array_size : WriteBlock → ℕ → WriteBlock
wb_array_size wb size =
    if leb (max_cookie - 1) size
    then wb_integer (wb_push wb (combine_type 6 (max_cookie - 1) ∷ [])) (pos size)
    else wb_push wb (combine_type 6 size ∷ [])

-- The keys that `wb_table_hash` passes over.
abbrev pub is_array_key : ℕ → Value → Bool
is_array_key size (integer (pos n)) = ltb 0 n && leb n size
is_array_key size _ = false

abbrev pub is_nil : Value → Bool
is_nil nil = true
is_nil _ = false

-- The test at the start of `pack_one`.
abbrev pub within_depth : ℕ → Option WriteBlock → Option WriteBlock
within_depth depth m = if ltb max_depth depth then none else m

unfoldable mutual
  -- `pack_one`
  pub pack_one : WriteBlock → Value → ℕ → Option WriteBlock
  pack_one wb nil depth = within_depth depth (some (wb_nil wb))
  pack_one wb (boolean b) depth = within_depth depth (some (wb_boolean wb b))
  pack_one wb (integer n) depth = within_depth depth (some (wb_integer wb n))
  pack_one wb (real bits) depth = within_depth depth (some (wb_real wb bits))
  pack_one wb (pointer address) depth = within_depth depth (some (wb_pointer wb address))
  pack_one wb (text s) depth = within_depth depth (some (wb_string wb s))
  pack_one wb (table l m) depth = within_depth depth (
      pack_items (wb_array_size wb (count_items l)) l (depth + 1) >>= λ wb'.
      pack_hash wb' m (depth + 1) (count_items l))
  pack_one wb (paired m) depth =
      within_depth depth (pack_metapairs (wb_push wb (combine_type 6 0 ∷ [])) m (depth + 1))
  pack_one wb unsupported depth = within_depth depth none

  -- The loop of `wb_table_array`, and that of `pack_from`
  pub pack_items : WriteBlock → Items → ℕ → Option WriteBlock
  pack_items wb no_items depth = some wb
  pack_items wb (item v l) depth = pack_one wb v depth >>= λ wb'. pack_items wb' l depth

  -- `wb_table_hash`
  pub pack_hash : WriteBlock → Pairs → ℕ → ℕ → Option WriteBlock
  pack_hash wb no_pairs depth size = some (wb_nil wb)
  pack_hash wb (pair k v m) depth size =
      let skip = pack_hash wb m depth size in
      let both = pack_one wb k depth >>= λ wb'.
      pack_one wb' v depth >>= λ wb''. pack_hash wb'' m depth size in
      if is_array_key size k then skip else both

  -- The loop of `wb_table_metapairs`
  pub pack_metapairs : WriteBlock → Pairs → ℕ → Option WriteBlock
  pack_metapairs wb no_pairs depth = some (wb_nil wb)
  pack_metapairs wb (pair k v m) depth =
      let both = pack_one wb k depth >>= λ wb'.
      pack_one wb' v depth >>= λ wb''. pack_metapairs wb'' m depth in
      if is_nil k then some (wb_nil wb) else both

-- `luaseri_pack` for the arguments `l`; it faults where `len`, which only grows, overflows its `int`.
unfoldable pub luaseri_pack : Items → Option (List ℕ)
luaseri_pack l = pack_items wb_init l 0 >>= λ wb.
    let copied = seri (wb.full ++ wb.current ∷ []) wb.len in
    if leb (2 ^ 31) wb.len then none else copied
