-- ===== src/Seri/Packing.antt =====
-- lualib-src/lua-seri.c: packing writes the encoding of a value, whatever the blocks.
use paohuzi_server.Shared.{
  ℕ, suc, ◌+◌, ◌-◌, ◌^◌, ◌≤◌, ◌<◌, ◌≡◌, refl, true, false, Option, some, List, [], ◌∷◌, ◌++◌, arith,
  ltb, leb, ◌==◌, ==_iff, if◌then◌else◌, ◌>>=◌, length, append-nil, sym, ◌∙◌, ap, Bool-cases, inl,
  inr, every_below, every_below_at,
}
use paohuzi_server.Shared.Int.{ℤ, pos, negsuc}
use paohuzi_server.Seri.{
  Value, nil, boolean, integer, real, pointer, text, table, paired, unsupported, Items, no_items,
  item, Pairs, no_pairs, pair, count_items, le_bytes, is_array_key, is_nil, combine_type, max_depth,
  WriteBlock, wb_push, wb_nil, wb_boolean, wb_number, wb_integer, wb_real, wb_pointer, wb_string,
  wb_array_size, within_depth, pack_one, pack_items, pack_hash, pack_metapairs, wb_init,
  luaseri_pack,
}
use paohuzi_server.Seri.Blocks.{
  contents, IsWritten, Appends, wb_push_lem, Appends-append, wb_init-IsWritten, seri_lem,
}
use paohuzi_server.Seri.Encoding.{
  is_array_key-is_index, normal, normal_items, normal_hash, normal_metapairs, header,
  encode_integer, encode_text, encode_size, encode, encode_items, encode_pairs, IsPackable,
  ArePackable, ArePacked,
}

combine_type_table :
    every_below 8 (λ t. every_below 32 (λ v. combine_type t v == header t v)) ≡ true
unfolding every_below combine_type
combine_type_table = refl

pub combine_type_lem : (t v : ℕ) → t < 8 → v < 32 → combine_type t v ≡ header t v
combine_type_lem t v h k = (==_iff (combine_type t v) (header t v)).0 (
    every_below_at 32 (λ v. combine_type t v == header t v)
      (every_below_at 8 (λ t. every_below 32 (λ v. combine_type t v == header t v))
        combine_type_table t h)
      v k)

-- A push of one byte that `COMBINE_TYPE` makes.
push_header :
    (wb : WriteBlock) (t v : ℕ)
    → IsWritten wb
    → t < 8
    → v < 32
    → Appends wb (header t v ∷ []) (wb_push wb (combine_type t v ∷ []))
push_header wb t v w h k = rw (combine_type_lem t v h k) (wb_push_lem wb (header t v ∷ []) w)

-- A header, and bytes behind it.
push_both :
    (wb : WriteBlock) (t v : ℕ) (l : List ℕ)
    → IsWritten wb
    → t < 8
    → v < 32
    → Appends wb (header t v ∷ l) (wb_push (wb_push wb (combine_type t v ∷ [])) l)
push_both wb t v l w h k =
    let a = push_header wb t v w h k in
    Appends-append a (wb_push_lem (wb_push wb (combine_type t v ∷ [])) l a.written)

Appends-nil : {wb : WriteBlock} → IsWritten wb → Appends wb [] wb
Appends-nil {wb} w = record { written = w; bytes = sym (append-nil (contents wb)) }

wb_integer_lem :
    (wb : WriteBlock) (n : ℤ) → IsWritten wb → Appends wb (encode_integer n) (wb_integer wb n)
unfolding wb_integer wb_number
wb_integer_lem wb (pos n) w = elim (Bool-cases (n == 0)) [
  | inl a ↦ rw a (push_header wb 2 0 w (omega arith) (omega arith))
  | inr a ↦ elim (Bool-cases (leb (2 ^ 31) n)) [
    | inl b ↦ rw (a, b) (push_both wb 2 6 (le_bytes 8 n) w (omega arith) (omega arith))
    | inr b ↦ elim (Bool-cases (ltb n 0x100)) [
      | inl c ↦ rw (a, b, c) (push_both wb 2 1 (le_bytes 1 n) w (omega arith) (omega arith))
      | inr c ↦ elim (Bool-cases (ltb n 0x10000)) [
        | inl d ↦ rw (a, b, c, d) (push_both wb 2 2 (le_bytes 2 n) w (omega arith) (omega arith))
        | inr d ↦ rw (a, b, c, d) (push_both wb 2 4 (le_bytes 4 n) w (omega arith) (omega arith))
      ]
    ]
  ]
]
wb_integer_lem wb (negsuc n) w = elim (Bool-cases (leb (2 ^ 31) n)) [
  | inl b ↦ rw b (push_both wb 2 6 (le_bytes 8 (2 ^ 64 - 1 - n)) w (omega arith) (omega arith))
  | inr b ↦ rw b (push_both wb 2 4 (le_bytes 4 (2 ^ 32 - 1 - n)) w (omega arith) (omega arith))
]

wb_string_lem :
    (wb : WriteBlock) (s : List ℕ) → IsWritten wb → Appends wb (encode_text s) (wb_string wb s)
unfolding wb_string
wb_string_lem wb s w = elim (Bool-cases (ltb (length s) 32)) [
  | inl a ↦ rw a (short s (ground arith))
  | inr a ↦ elim (Bool-cases (ltb (length s) 0x10000)) [
    | inl b ↦ rw (a, b) (long 2 (le_bytes 2 (length s)) (omega arith))
    | inr b ↦ rw (a, b) (long 4 (le_bytes 4 (length s)) (omega arith))
  ]
]
  where
    short :
        (s : List ℕ)
        → length s < 32
        → let start = wb_push wb (combine_type 4 (length s) ∷ []) in
          Appends wb (header 4 (length s) ∷ s) (if ltb 0 (length s) then wb_push start s else start)
    short [] h = push_header wb 4 0 w (omega arith) (omega arith)
    short (x ∷ s) h =
        let t : ltb 0 (length (x ∷ s)) ≡ true = ground arith in
        rw t (push_both wb 4 (length (x ∷ s)) (x ∷ s) w (omega arith) h)

    long :
        (cookie : ℕ) (l : List ℕ)
        → cookie < 32
        → Appends wb
            (header 5 cookie ∷ l ++ s)
            (wb_push (wb_push (wb_push wb (combine_type 5 cookie ∷ [])) l) s)
    long cookie l h =
        let a = push_both wb 5 cookie l w (omega arith) h in
        Appends-append a
          (wb_push_lem (wb_push (wb_push wb (combine_type 5 cookie ∷ [])) l) s a.written)

wb_array_size_lem :
    (wb : WriteBlock) (size : ℕ)
    → IsWritten wb
    → Appends wb (encode_size size) (wb_array_size wb size)
unfolding wb_array_size
wb_array_size_lem wb size w = elim (Bool-cases (leb 31 size)) [
  | inl b ↦
      let a = push_header wb 6 31 w (omega arith) (omega arith) in
      rw b (
        Appends-append a
          (wb_integer_lem (wb_push wb (combine_type 6 31 ∷ [])) (pos size) a.written))
  | inr b ↦ rw b (push_header wb 6 size w (omega arith) (ground (arith, b)))
]

-- `pack` succeeds and writes `l`.
abbrev Writes : WriteBlock → List ℕ → Option WriteBlock → Type 0
Writes wb l r = (wb' : WriteBlock) × (r ≡ some wb') × Appends wb l wb'

Writes-here :
    {wb wb' : WriteBlock} {l : List ℕ} (d : ℕ)
    → d ≤ 32
    → Appends wb l wb'
    → Writes wb l (within_depth d (some wb'))
Writes-here {wb} {wb'} d h a = let t : ltb max_depth d ≡ false = ground arith in (wb', rw t refl, a)

Writes-within :
    {wb : WriteBlock} {l : List ℕ} {r : Option WriteBlock} (d : ℕ)
    → d ≤ 32
    → Writes wb l r
    → Writes wb l (within_depth d r)
Writes-within d h (wb', e, a) = let t : ltb max_depth d ≡ false = ground arith in (wb', rw t e, a)

Writes-bind :
    {wb : WriteBlock} {l m : List ℕ} (r : Option WriteBlock) (f : WriteBlock → Option WriteBlock)
    → Writes wb l r
    → ((wb' : WriteBlock) → IsWritten wb' → Writes wb' m (f wb'))
    → Writes wb (l ++ m) (r >>= f)
Writes-bind r f (wb', e, a) next =
    let (wb'', e', b) = next wb' a.written in (wb'', rw e e', Appends-append a b)

Writes-after :
    {wb wb' : WriteBlock} {l m : List ℕ} {r : Option WriteBlock}
    → Appends wb l wb'
    → Writes wb' m r
    → Writes wb (l ++ m) r
Writes-after a (wb'', e, b) = (wb'', e, Appends-append a b)

pub count_items-normal : (l : Items) → count_items (normal_items l) ≡ count_items l
unfolding normal_items
count_items-normal no_items = refl
count_items-normal (item v l) = ap suc (count_items-normal l)

mutual
  unfolding pack_one pack_items pack_hash pack_metapairs normal encode IsPackable wb_nil wb_boolean
      wb_real wb_pointer

  pack_one_lem :
      (v : Value) (d : ℕ) (wb : WriteBlock)
      → IsPackable d v
      → IsWritten wb
      → Writes wb (encode (normal v)) (pack_one wb v d)
  pack_one_lem nil d wb h w = Writes-here d h (wb_push_lem wb (0 ∷ []) w)
  pack_one_lem (boolean true) d wb h w =
      Writes-here d h (push_header wb 1 1 w (omega arith) (omega arith))
  pack_one_lem (boolean false) d wb h w =
      Writes-here d h (push_header wb 1 0 w (omega arith) (omega arith))
  pack_one_lem (integer n) d wb h w = Writes-here d h.0 (wb_integer_lem wb n w)
  pack_one_lem (real bits) d wb h w =
      Writes-here d h.0 (push_both wb 2 8 (le_bytes 8 bits) w (omega arith) (omega arith))
  pack_one_lem (pointer address) d wb h w =
      let a = wb_push_lem wb (3 ∷ []) w in
      Writes-here d h.0
        (Appends-append a (wb_push_lem (wb_push wb (3 ∷ [])) (le_bytes 8 address) a.written))
  pack_one_lem (text s) d wb h w = Writes-here d h.0 (wb_string_lem wb s w)
  pack_one_lem (table l m) d wb h w =
      let a = wb_array_size_lem wb (count_items l) w in
      Writes-within d h.0 (
        rw (count_items-normal l) (
          Writes-after a (
            Writes-bind (pack_items (wb_array_size wb (count_items l)) l (d + 1)) _
              (pack_items_lem l (d + 1) (wb_array_size wb (count_items l)) h.2 a.written)
              (λ wb' w'. pack_hash_lem m (d + 1) (count_items l) wb' h.3 w'))))
  pack_one_lem (paired m) d wb h w =
      let a = push_header wb 6 0 w (omega arith) (omega arith) in
      Writes-within d h.0 (
        Writes-after a
          (pack_metapairs_lem m (d + 1) (wb_push wb (combine_type 6 0 ∷ [])) h.1 a.written))
  pack_one_lem unsupported d wb h w = absurd h

  pack_items_lem :
      (l : Items) (d : ℕ) (wb : WriteBlock)
      → ArePackable d l
      → IsWritten wb
      → Writes wb (encode_items (normal_items l)) (pack_items wb l d)
  pack_items_lem no_items d wb h w = (wb, refl, Appends-nil w)
  pack_items_lem (item v l) d wb h w =
      Writes-bind (pack_one wb v d) _ (pack_one_lem v d wb h.0 w)
        (λ wb' w'. pack_items_lem l d wb' h.1 w')

  pack_hash_lem :
      (m : Pairs) (d : ℕ) (size : ℕ) (wb : WriteBlock)
      → ArePacked d m
      → IsWritten wb
      → Writes wb (encode_pairs (normal_hash size m)) (pack_hash wb m d size)
  pack_hash_lem no_pairs d size wb h w = (_, refl, wb_push_lem wb (0 ∷ []) w)
  pack_hash_lem (pair k v m) d size wb h w = elim (Bool-cases (is_array_key size k)) [
    | inl e ↦ rw (e, sym (is_array_key-is_index size k) ∙ e) (pack_hash_lem m d size wb h.3 w)
    | inr e ↦
        rw (e, sym (is_array_key-is_index size k) ∙ e)
          (Writes-bind (pack_one wb k d) _ (pack_one_lem k d wb h.1 w) (λ wb' w'.
            Writes-bind (pack_one wb' v d) _ (pack_one_lem v d wb' h.2 w')
              (λ wb'' w''. pack_hash_lem m d size wb'' h.3 w'')))
  ]

  pack_metapairs_lem :
      (m : Pairs) (d : ℕ) (wb : WriteBlock)
      → ArePacked d m
      → IsWritten wb
      → Writes wb (encode_pairs (normal_metapairs m)) (pack_metapairs wb m d)
  pack_metapairs_lem no_pairs d wb h w = (_, refl, wb_push_lem wb (0 ∷ []) w)
  pack_metapairs_lem (pair k v m) d wb h w = elim (Bool-cases (is_nil k)) [
    | inl e ↦ rw e (_, refl, wb_push_lem wb (0 ∷ []) w)
    | inr e ↦ rw e (
        Writes-bind (pack_one wb k d) _ (pack_one_lem k d wb h.1 w) (λ wb' w'.
          Writes-bind (pack_one wb' v d) _ (pack_one_lem v d wb' h.2 w')
            (λ wb'' w''. pack_metapairs_lem m d wb'' h.3 w'')))
  ]

-- `luaseri_pack` gives the encoding of its arguments, one behind the other, where an `int` counts it.
pub luaseri_pack_lem :
    (l : Items)
    → ArePackable 0 l
    → length (encode_items (normal_items l)) < 2 ^ 31
    → luaseri_pack l ≡ some (encode_items (normal_items l))
unfolding luaseri_pack wb_init
luaseri_pack_lem l h small =
    let (wb, e, a) = pack_items_lem l 0 wb_init h wb_init-IsWritten in
    let t : leb (2 ^ 31) wb.len ≡ false =
      ground (arith, small, a.written.counted, ap length a.bytes) in
    rw (e, t) (seri_lem wb a.written ∙ ap some a.bytes)
