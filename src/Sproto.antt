-- ===== src/Sproto.antt =====
-- lualib-src/sproto/sproto.c: the packing that leaves zero bytes out, and its inverse; with their use
-- in lualib-src/sproto/lsproto.c. `none` is a fault: an access out of a buffer. A pointer to bytes
-- that are read is the list of the bytes from there to the end of what it points into.
pub mod Memory
pub mod Tokens
pub mod Segment
pub mod Packing
pub mod Rounds
pub mod Sizes
pub mod Loop
pub mod RoundTrip
mod Tests
use Prim.Native.Nat.{bit_and, bit_or}
use paohuzi_server.Shared.{
  ℕ, zero, suc, ◌+◌, ◌-◌, ◌*◌, ◌/◌, ◌%◌, ◌^◌, Bool, true, false, ◌&&◌, ◌||◌, Option, none, some,
  List, [], ◌∷◌, ◌++◌, ltb, leb, ◌==◌, if◌then◌else◌, ◌>>=◌, length, take, drop, update,
}

-- A write in a buffer of `cap` bytes.
abbrev pub store : ℕ → (ℕ → ℕ) → ℕ → ℕ → Option (ℕ → ℕ)
store cap buffer at byte = if ltb at cap then some (update buffer at byte) else none

-- A write that is left out where the buffer is full.
abbrev pub store_within : ℕ → (ℕ → ℕ) → ℕ → ℕ → ℕ → ℕ
store_within cap buffer at byte = if ltb at cap then update buffer at byte else buffer

-- The loop of `pack_seg`: header, number of bytes that are not zero, and the buffer. A test `sz > 0` is
-- one of the place against the end of the buffer.
unfoldable pub seg_loop : ℕ → List ℕ → ℕ → ℕ → ℕ → ℕ → (ℕ → ℕ) → ℕ × ℕ × (ℕ → ℕ)
seg_loop cap [] i at header notzero buffer = (header, notzero, buffer)
seg_loop cap (b ∷ src) i at header notzero buffer =
    let skip = seg_loop cap src (i + 1) at header notzero buffer in
    let keep =
      seg_loop cap src (i + 1) (at + 1) (bit_or (1 * 2 ^ i) header) (notzero + 1)
        (store_within cap buffer at b) in
    if b == 0 then skip else keep

-- `pack_seg`
unfoldable pub pack_seg : ℕ → List ℕ → (ℕ → ℕ) → ℕ → ℕ → (ℕ → ℕ) × ℕ
pack_seg cap src buffer at n =
    let (header, notzero, written) = seg_loop cap src 0 (at + 1) 0 0 buffer in
    let most = ((notzero == 7) || (notzero == 6)) && ltb 0 n in
    if most || (notzero == 8)
    then (written, if ltb 0 n then 8 else 10)
    else (store_within cap written at header, notzero + 1)

-- Bytes one after the other: an assignment, `memcpy` or the loop of zeros.
unfoldable pub store_all : ℕ → (ℕ → ℕ) → ℕ → List ℕ → Option (ℕ → ℕ)
store_all cap buffer at [] = some buffer
store_all cap buffer at (b ∷ bytes) =
    store cap buffer at b >>= λ next. store_all cap next (at + 1) bytes

abbrev pub zeros : ℕ → List ℕ
zeros zero = []
zeros (suc n) = 0 ∷ zeros n

-- `write_ff`
unfoldable pub write_ff : ℕ → List ℕ → (ℕ → ℕ) → ℕ → ℕ → Option (ℕ → ℕ)
write_ff cap src buffer des n =
    let align8_n = (n + 7) / 8 * 8 in
    let all =
      store_all cap buffer des
        (0xff ∷ (align8_n / 8 - 1) % 2 ^ 8 ∷ (take n src ++ zeros (align8_n - n))) in
    if ltb (length src) n then none else all

-- The variables of `sproto_pack`; `bufsz` is what the buffer has behind the first `size` bytes.
pub record Packer : Type 0 where
  pub buffer : ℕ → ℕ
  pub size : ℕ
  pub ff_n : ℕ
  pub ff_srcstart : List ℕ
  pub ff_desstart : ℕ

-- `write_ff` under the test of `bufsz`, and `ff_n = 0`
unfoldable pub end_ff : ℕ → Packer → ℕ → Option Packer
end_ff cap p n =
    let written = write_ff cap p.ff_srcstart p.buffer p.ff_desstart n >>= λ buffer.
    some (record p { buffer = buffer; ff_n = 0 }) in
    if leb p.size cap then written else some (record p { ff_n = 0 })

-- `src`, or `tmp` for the last bytes
unfoldable pub padded : List ℕ → List ℕ
padded src = if ltb (length src) 8 then src ++ zeros (8 - length src) else src

-- A round of the loop of `sproto_pack`, at `src`.
unfoldable pub pack_round : ℕ → List ℕ → Packer → Option Packer
pack_round cap src p =
    let (buffer, n) = pack_seg cap (take 8 (padded src)) p.buffer p.size p.ff_n in
    let q = record p { buffer = buffer; size = p.size + n } in
    let first = record q { ff_n = 1; ff_srcstart = padded src; ff_desstart = p.size } in
    let more = record q { ff_n = p.ff_n + 1 } in
    if n == 10
    then some first
    else if (n == 8) && ltb 0 p.ff_n
    then (if p.ff_n + 1 == 256 then end_ff cap more (256 * 8) else some more)
    else if ltb 0 p.ff_n
    then end_ff cap q (p.ff_n * 8)
    else some q

-- The loop, with the bytes left as fuel
unfoldable pub pack_loop : ℕ → ℕ → List ℕ → Packer → Option Packer
pack_loop zero cap src p = some p
pack_loop (suc fuel) cap src p =
    let more = pack_round cap src p >>= λ q. pack_loop fuel cap (drop 8 src) q in
    if length src == 0 then some p else more

-- The end of `sproto_pack`. Where `ff_n` is more than 1, `ff_srcstart` points into the source, and the
-- bytes from there to its end are written.
unfoldable pub pack_end : ℕ → Packer → Option Packer
pack_end cap p =
    if p.ff_n == 1
    then end_ff cap p 8
    else if ltb 1 p.ff_n
    then end_ff cap p (length p.ff_srcstart)
    else some p

-- `sproto_pack`: the buffer and the size. Sizes and places are `int`s, and one that does not fit is a
-- fault.
unfoldable pub sproto_pack : List ℕ → (ℕ → ℕ) → ℕ → Option ((ℕ → ℕ) × ℕ)
sproto_pack src buffer cap =
    let packed =
      pack_loop (length src) cap src
        (record { buffer = buffer; size = 0; ff_n = 0; ff_srcstart = []; ff_desstart = 0 })
      >>= λ p.
          pack_end cap p >>= λ q. if ltb q.size (2 ^ 31) then some (q.buffer, q.size) else none in
    if ltb (length src + 7) (2 ^ 31) && ltb cap (2 ^ 31) then packed else none

-- What `sproto_unpack` has written, and how much there was to write.
pub record Unpacker : Type 0 where
  pub size : ℕ
  pub written : List ℕ

-- The result of `sproto_unpack`: -1, or the rest of the source (none for a length of -1) and the output.
pub data Unpacking : Type 0 where
  invalid : Unpacking
  unpacking : Option (List ℕ) → Unpacker → Unpacking

abbrev pub append : ℕ → Unpacker → List ℕ → Unpacker
append bufsz u bytes = record {
  size = u.size + length bytes;
  written = if leb (u.size + length bytes) bufsz then u.written ++ bytes else u.written;
}

-- The inner loop of `sproto_unpack`, with `rounds` to go
unfoldable pub unpack_bits : ℕ → ℕ → ℕ → Option (List ℕ) → ℕ → Unpacker → Option Unpacking
unpack_bits zero i header src bufsz u = some (unpacking src u)
unpack_bits (suc rounds) i header none bufsz u =
    let gap = unpack_bits rounds (i + 1) header none bufsz (append bufsz u (0 ∷ [])) in
    if bit_and (header / 2 ^ i) 1 == 0 then gap else some invalid
unpack_bits (suc rounds) i header (some []) bufsz u =
    let gap = unpack_bits rounds (i + 1) header (some []) bufsz (append bufsz u (0 ∷ [])) in
    let past = unpack_bits rounds (i + 1) header none bufsz (record u { size = u.size + 1 }) in
    if bit_and (header / 2 ^ i) 1 == 0 then gap else if ltb u.size bufsz then none else past
unpack_bits (suc rounds) i header (some (b ∷ src)) bufsz u =
    let gap = unpack_bits rounds (i + 1) header (some (b ∷ src)) bufsz (append bufsz u (0 ∷ [])) in
    let byte = unpack_bits rounds (i + 1) header (some src) bufsz (append bufsz u (b ∷ [])) in
    if bit_and (header / 2 ^ i) 1 == 0 then gap else byte

-- A run of bytes behind 0xff
unfoldable pub unpack_ff : List ℕ → ℕ → Unpacker → Option Unpacking
unpack_ff [] bufsz u = none
unpack_ff (count ∷ src) bufsz u =
    let n = (count + 1) * 8 in
    if ltb (length src) n
    then some invalid
    else some (unpacking (some (drop n src)) (append bufsz u (take n src)))

-- The outer loop, with fuel
unfoldable pub unpack_loop : ℕ → List ℕ → ℕ → Unpacker → Option (Option Unpacker)
unpack_loop fuel [] bufsz u = some (some u)
unpack_loop zero (header ∷ src) bufsz u = none
unpack_loop (suc fuel) (header ∷ src) bufsz u =
    (if header == 0xff then unpack_ff src bufsz u else unpack_bits 8 0 header (some src) bufsz u)
    >>= λ r. elim r [
      | invalid ↦ some none
      | unpacking left v ↦ elim left [
        | none ↦ some (some v)
        | some rest ↦ unpack_loop fuel rest bufsz v
      ]
    ]

abbrev pub size_in_int : Option Unpacker → Option (Option Unpacker)
size_in_int none = some none
size_in_int (some u) = if ltb u.size (2 ^ 31) then some (some u) else none

-- `sproto_unpack`; the inner `none` is -1. A size that is no `int` is a fault.
unfoldable pub sproto_unpack : List ℕ → ℕ → Option (Option Unpacker)
sproto_unpack src bufsz =
    let unpacked =
      unpack_loop (length src) src bufsz (record { size = 0; written = [] }) >>= size_in_int in
    if ltb (length src) (2 ^ 31) && ltb bufsz (2 ^ 31) then unpacked else none

abbrev pub maxsz : ℕ → ℕ
maxsz sz = (sz + 2047) / 2048 * 2 + sz + 2

-- The first bytes of a buffer
abbrev pub read : (ℕ → ℕ) → ℕ → ℕ → List ℕ
read buffer at zero = []
read buffer at (suc n) = buffer at ∷ read buffer (at + 1) n

-- `lpack`, whose output buffer has `maxsz` bytes; the error is none, as a fault is.
unfoldable pub lpack : List ℕ → (ℕ → ℕ) → Option (List ℕ)
lpack src output = sproto_pack src output (maxsz (length src)) >>= λ r.
    if ltb (maxsz (length src)) r.1 then none else some (read r.0 0 r.1)

-- The second half of `lunpack`
abbrev pub unpacked_bytes : Option Unpacker → Option (List ℕ)
unpacked_bytes none = none
unpacked_bytes (some u) = some u.written

-- `lunpack` with an output buffer of `osz` bytes
unfoldable pub lunpack : List ℕ → ℕ → Option (List ℕ)
lunpack src osz = sproto_unpack src osz >>= λ r. r >>= λ u.
    let again = sproto_unpack src u.size >>= unpacked_bytes in
    if ltb osz u.size then again else some u.written
