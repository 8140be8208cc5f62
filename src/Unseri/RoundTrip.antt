-- ===== src/Unseri/RoundTrip.antt =====
-- lualib-src/lua-seri.c: what is packed is unpacked as it was.
use paohuzi_server.Shared.{
  ℕ, zero, suc, ◌+◌, ◌-◌, ◌*◌, ◌^◌, ◌≤◌, ◌<◌, ◌≡◌, refl, true, false, some, List, ◌∷◌, ◌++◌, arith,
  ◌==◌, length, length-append, append_assoc, ◌∙◌, ap, Bool-cases, inl, inr,
}
use paohuzi_server.Shared.Int.{ℤ, pos, negsuc}
use paohuzi_server.Seri.{
  Value, nil, boolean, integer, real, pointer, text, table, paired, unsupported, Items, no_items,
  item, Pairs, no_pairs, pair, count_items, is_nil, luaseri_pack,
}
use paohuzi_server.Seri.Encoding.{
  is_index, normal, normal_items, normal_hash, normal_metapairs, header, encode_integer,
  encode_text, encode_size, encode, encode_items, encode_pairs, IsPackable, ArePackable, ArePacked,
}
use paohuzi_server.Seri.Packing.{count_items-normal, luaseri_pack_lem}
use paohuzi_server.Unseri.{
  is_key, push_scalar, push_value, unpack_one, unpack_items, unpack_pairs, unpack_all,
  luaseri_unpack,
}
use paohuzi_server.Unseri.Numbers.{
  unpack_one_header, unpack_one_scalar, unpack_integer, unpack_real, unpack_pointer, unpack_text,
  encode_size_lem,
}

-- The fuel that unpacking takes.
mutual
  weight : Value → ℕ
  weight (table l m) = 2 + (weight_items l + weight_pairs m)
  weight nil = 2
  weight (boolean b) = 2
  weight (integer n) = 2
  weight (real n) = 2
  weight (pointer n) = 2
  weight (text s) = 2
  weight (paired m) = 2
  weight unsupported = 2

  weight_items : Items → ℕ
  weight_items no_items = 0
  weight_items (item v l) = 1 + (weight v + weight_items l)

  weight_pairs : Pairs → ℕ
  weight_pairs no_pairs = 3
  weight_pairs (pair k v m) = 1 + (weight k + (weight v + weight_pairs m))

is_key-normal : (k : Value) → is_key k ≡ true → is_key (normal k) ≡ true
unfolding normal
is_key-normal nil h = h
is_key-normal (boolean b) h = h
is_key-normal (integer n) h = h
is_key-normal (real bits) h = h
is_key-normal (pointer address) h = h
is_key-normal (text s) h = h
is_key-normal (table l m) h = refl
is_key-normal (paired m) h = refl
is_key-normal unsupported h = h

is_key-is_nil : (k : Value) → is_key k ≡ true → is_nil k ≡ false
is_key-is_nil nil h = cc
is_key-is_nil (boolean b) h = refl
is_key-is_nil (integer n) h = refl
is_key-is_nil (real bits) h = refl
is_key-is_nil (pointer address) h = refl
is_key-is_nil (text s) h = refl
is_key-is_nil (table l m) h = refl
is_key-is_nil (paired m) h = refl
is_key-is_nil unsupported h = refl

unpack_table :
    (fuel : ℕ) (l : Items) (m : Pairs) (bytes after rest : List ℕ)
    → count_items l < 2 ^ 31
    → unpack_items fuel (count_items l) bytes ≡ some (l, after)
    → unpack_pairs fuel after ≡ some (m, rest)
    → unpack_one (suc (suc fuel)) (encode_size (count_items l) ++ bytes) ≡ some (table l m, rest)
unfolding push_value
unpack_table fuel l m bytes after rest small items pairs =
    let (cookie, body, e, size) = encode_size_lem (count_items l) bytes small in
    ap (unpack_one (suc (suc fuel))) e
    ∙ unpack_one_header (suc fuel) 6 cookie body (omega arith)
    ∙ rw (size, items, pairs) refl

unpack_nil :
    (fuel : ℕ) (rest : List ℕ) → 2 ≤ fuel → unpack_one fuel (header 0 0 ∷ rest) ≡ some (nil, rest)
unfolding push_scalar
unpack_nil fuel rest h = unpack_one_scalar fuel 0 0 rest (omega arith) h

unpack_no_pairs :
    (fuel : ℕ) (rest : List ℕ)
    → 3 ≤ fuel
    → unpack_pairs fuel (header 0 0 ∷ rest) ≡ some (no_pairs, rest)
unfolding unpack_pairs
unpack_no_pairs zero rest h = absurd (omega arith)
unpack_no_pairs (suc fuel) rest h = rw (unpack_nil fuel rest (omega arith)) refl

unpack_pair :
    (fuel : ℕ) (k v : Value) (m : Pairs) (bytes after last rest : List ℕ)
    → is_key k ≡ true
    → unpack_one fuel bytes ≡ some (k, after)
    → unpack_one fuel after ≡ some (v, last)
    → unpack_pairs fuel last ≡ some (m, rest)
    → unpack_pairs (suc fuel) bytes ≡ some (pair k v m, rest)
unfolding unpack_pairs
unpack_pair fuel k v m bytes after last rest key a b c = rw (a, is_key-is_nil k key, key, b, c) refl

unpack_item :
    (fuel n : ℕ) (v : Value) (l : Items) (bytes after rest : List ℕ)
    → unpack_one fuel bytes ≡ some (v, after)
    → unpack_items fuel n after ≡ some (l, rest)
    → unpack_items (suc fuel) (suc n) bytes ≡ some (item v l, rest)
unfolding unpack_items
unpack_item fuel n v l bytes after rest a b =
    let t : (suc n == 0) ≡ false = ground arith in
    let e : suc n - 1 ≡ n = omega arith in rw (t, a, e, b) refl

-- A pair, from what its parts do.
encoded_pair :
    (fuel : ℕ) (k v : Value) (m : Pairs) (rest : List ℕ)
    → is_key k ≡ true
    → ((after : List ℕ) → unpack_one fuel (encode k ++ after) ≡ some (k, after))
    → ((after : List ℕ) → unpack_one fuel (encode v ++ after) ≡ some (v, after))
    → unpack_pairs fuel (encode_pairs m ++ rest) ≡ some (m, rest)
    → unpack_pairs (suc fuel) (encode_pairs (pair k v m) ++ rest) ≡ some (pair k v m, rest)
unfolding encode_pairs
encoded_pair fuel k v m rest key a b c =
    let last : List ℕ = encode_pairs m ++ rest in
    ap (unpack_pairs (suc fuel)) (
      append_assoc (encode k) (encode v ++ encode_pairs m) rest
      ∙ ap (λ l. encode k ++ l) (append_assoc (encode v) (encode_pairs m) rest))
    ∙ unpack_pair fuel k v m (encode k ++ (encode v ++ last)) (encode v ++ last) last rest key
        (a (encode v ++ last)) (b last) c

unpack_no_items : (fuel : ℕ) (rest : List ℕ) → unpack_items fuel 0 rest ≡ some (no_items, rest)
unfolding unpack_items
unpack_no_items zero rest = refl
unpack_no_items (suc fuel) rest = refl

-- A value is read back, with enough fuel, whatever follows.
abbrev Reads : Value → Type 0
Reads v =
    (fuel : ℕ) (after : List ℕ)
    → weight v ≤ fuel
    → unpack_one fuel (encode v ++ after) ≡ some (v, after)

Reads-pair :
    (k v : Value) (fuel : ℕ) (rest : List ℕ) (m : Pairs)
    → is_key k ≡ true
    → Reads k
    → Reads v
    → weight_pairs (pair k v m) ≤ fuel
    → ((f : ℕ) → weight_pairs m ≤ f → unpack_pairs f (encode_pairs m ++ rest) ≡ some (m, rest))
    → unpack_pairs fuel (encode_pairs (pair k v m) ++ rest) ≡ some (pair k v m, rest)
unfolding weight
Reads-pair k v zero rest m key a b enough later = absurd (omega arith)
Reads-pair k v (suc fuel) rest m key a b enough later =
    encoded_pair fuel k v m rest key (λ after. a fuel after (omega arith))
      (λ after. b fuel after (omega arith)) (later fuel (omega arith))

mutual
  unfolding normal encode weight IsPackable push_scalar unpack_items

  unpack_one_lem :
      (v : Value) (d fuel : ℕ) (rest : List ℕ)
      → IsPackable d v
      → weight (normal v) ≤ fuel
      → unpack_one fuel (encode (normal v) ++ rest) ≡ some (normal v, rest)
  unpack_one_lem nil d fuel rest h k = unpack_nil fuel rest k
  unpack_one_lem (boolean true) d fuel rest h k = unpack_one_scalar fuel 1 1 rest (omega arith) k
  unpack_one_lem (boolean false) d fuel rest h k = unpack_one_scalar fuel 1 0 rest (omega arith) k
  unpack_one_lem (integer n) d fuel rest h k = unpack_integer fuel n rest h.1 k
  unpack_one_lem (real bits) d fuel rest h k = unpack_real fuel bits rest h.1 k
  unpack_one_lem (pointer address) d fuel rest h k = unpack_pointer fuel address rest h.1 k
  unpack_one_lem (text s) d fuel rest h k = unpack_text fuel s rest h.1 k
  unpack_one_lem (table l m) d zero rest h k = absurd (omega arith)
  unpack_one_lem (table l m) d (suc zero) rest h k = absurd (omega arith)
  unpack_one_lem (table l m) d (suc (suc fuel)) rest h k =
      let l' : Items = normal_items l in
      let m' : Pairs = normal_hash (count_items l) m in
      let after : List ℕ = encode_pairs m' ++ rest in
      let same : count_items l' ≡ count_items l = count_items-normal l in
      ap (unpack_one (suc (suc fuel))) (
        append_assoc (encode_size (count_items l')) (encode_items l' ++ encode_pairs m') rest
        ∙ ap (λ x. encode_size (count_items l') ++ x)
            (append_assoc (encode_items l') (encode_pairs m') rest))
      ∙ unpack_table fuel l' m' (encode_items l' ++ after) after rest (omega (arith, same, h.1))
          (unpack_items_lem l (d + 1) fuel after h.2 (omega arith))
          (unpack_hash_lem m (d + 1) (count_items l) fuel rest h.3 (omega arith))
  unpack_one_lem (paired m) d zero rest h k = absurd (omega arith)
  unpack_one_lem (paired m) d (suc zero) rest h k = absurd (omega arith)
  unpack_one_lem (paired m) d (suc (suc fuel)) rest h k =
      let m' : Pairs = normal_metapairs m in
      let after : List ℕ = encode_pairs m' ++ rest in
      unpack_table fuel no_items m' after after rest (omega arith) (unpack_no_items fuel after)
        (unpack_metapairs_lem m (d + 1) fuel rest h.1 (omega arith))
  unpack_one_lem unsupported d fuel rest h k = absurd h

  unpack_items_lem :
      (l : Items) (d fuel : ℕ) (rest : List ℕ)
      → ArePackable d l
      → weight_items (normal_items l) ≤ fuel
      → unpack_items fuel (count_items (normal_items l)) (encode_items (normal_items l) ++ rest)
        ≡ some (normal_items l, rest)
  unpack_items_lem no_items d fuel rest h k = unpack_no_items fuel rest
  unpack_items_lem (item v l) d zero rest h k = absurd (omega arith)
  unpack_items_lem (item v l) d (suc fuel) rest h k =
      let after : List ℕ = encode_items (normal_items l) ++ rest in
      ap (unpack_items (suc fuel) (suc (count_items (normal_items l))))
        (append_assoc (encode (normal v)) (encode_items (normal_items l)) rest)
      ∙ unpack_item fuel (count_items (normal_items l)) (normal v) (normal_items l)
          (encode (normal v) ++ after) after rest (unpack_one_lem v d fuel after h.0 (omega arith))
          (unpack_items_lem l d fuel rest h.1 (omega arith))

  unpack_hash_lem :
      (m : Pairs) (d size fuel : ℕ) (rest : List ℕ)
      → ArePacked d m
      → weight_pairs (normal_hash size m) ≤ fuel
      → unpack_pairs fuel (encode_pairs (normal_hash size m) ++ rest)
        ≡ some (normal_hash size m, rest)
  unpack_hash_lem no_pairs d size fuel rest h k = unpack_no_pairs fuel rest k
  unpack_hash_lem (pair x v m) d size fuel rest h k = elim (Bool-cases (is_index size x)) [
    | inl e ↦ rw e (unpack_hash_lem m d size fuel rest h.3 (rw e at k))
    | inr e ↦ rw e (
        Reads-pair (normal x) (normal v) fuel rest (normal_hash size m) (is_key-normal x h.0)
          (λ f after b. unpack_one_lem x d f after h.1 b)
          (λ f after b. unpack_one_lem v d f after h.2 b) (rw e at k)
          (λ f b. unpack_hash_lem m d size f rest h.3 b))
  ]

  unpack_metapairs_lem :
      (m : Pairs) (d fuel : ℕ) (rest : List ℕ)
      → ArePacked d m
      → weight_pairs (normal_metapairs m) ≤ fuel
      → unpack_pairs fuel (encode_pairs (normal_metapairs m) ++ rest)
        ≡ some (normal_metapairs m, rest)
  unpack_metapairs_lem no_pairs d fuel rest h k = unpack_no_pairs fuel rest k
  unpack_metapairs_lem (pair x v m) d fuel rest h k =
      let e : is_nil x ≡ false = is_key-is_nil x h.0 in
      rw e (
        Reads-pair (normal x) (normal v) fuel rest (normal_metapairs m) (is_key-normal x h.0)
          (λ f after b. unpack_one_lem x d f after h.1 b)
          (λ f after b. unpack_one_lem v d f after h.2 b) (rw e at k)
          (λ f b. unpack_metapairs_lem m d f rest h.3 b))

encode_integer_pos : (n : ℤ) → 1 ≤ length (encode_integer n)
encode_integer_pos (pos n) = ground arith
encode_integer_pos (negsuc n) = ground arith

encode_text_pos : (s : List ℕ) → 1 ≤ length (encode_text s)
encode_text_pos s = ground arith

encode_size_pos : (n : ℕ) → 1 ≤ length (encode_size n)
encode_size_pos n = ground arith

mutual
  unfolding encode weight

  weight-length : (v : Value) → weight v + 1 ≤ 3 * length (encode v)
  weight-length nil = omega arith
  weight-length (boolean b) = omega arith
  weight-length (integer n) = omega (arith, encode_integer_pos n)
  weight-length (real bits) = omega arith
  weight-length (pointer address) = omega arith
  weight-length (text s) = omega (arith, encode_text_pos s)
  weight-length (table l m) = omega (
    arith,
    encode_size_pos (count_items l),
    length-append (encode_size (count_items l)) (encode_items l ++ encode_pairs m),
    length-append (encode_items l) (encode_pairs m),
    weight_items-length l,
    weight_pairs-length m,
  )
  weight-length (paired m) = omega arith
  weight-length unsupported = omega arith

  weight_items-length : (l : Items) → weight_items l ≤ 3 * length (encode_items l)
  weight_items-length no_items = omega arith
  weight_items-length (item v l) =
      omega
        (arith, length-append (encode v) (encode_items l), weight-length v, weight_items-length l)

  weight_pairs-length : (m : Pairs) → weight_pairs m ≤ 3 * length (encode_pairs m)
  weight_pairs-length no_pairs = omega arith
  weight_pairs-length (pair k v m) = omega (
    arith,
    length-append (encode k) (encode v ++ encode_pairs m),
    length-append (encode v) (encode_pairs m),
    weight-length k,
    weight-length v,
    weight_pairs-length m,
  )

unpack_all_lem :
    (l : Items) (fuel : ℕ)
    → ArePackable 0 l
    → weight_items (normal_items l) < fuel
    → unpack_all fuel (encode_items (normal_items l)) ≡ some (normal_items l)
unfolding unpack_all normal weight encode IsPackable
unpack_all_lem l zero h k = absurd (omega arith)
unpack_all_lem no_items (suc fuel) h k = refl
unpack_all_lem (item v l) (suc fuel) h k =
    let bytes : List ℕ = encode (normal v) ++ encode_items (normal_items l) in
    let some_left : (length bytes == 0) ≡ false = ground (
      arith,
      weight-length (normal v),
      length-append (encode (normal v)) (encode_items (normal_items l)),
    ) in
    rw
      (
        some_left,
        unpack_one_lem v 0 (suc fuel) (encode_items (normal_items l)) h.0 (omega arith),
        unpack_all_lem l fuel h.1 (omega arith),
      )
      refl

-- `luaseri_pack` succeeds on values of the types that it supports, with tables no deeper than 32, and
-- `luaseri_unpack` gives them back: the same numbers, texts, items and pairs in the same order. A pair
-- that is an item too arrives once, and a table with `__pairs` as the pairs that its iterator gave. The
-- encoding has fewer than 2^31 bytes.
pub round_trip :
    (l : Items)
    → ArePackable 0 l
    → length (encode_items (normal_items l)) < 2 ^ 31
    → (buffer : List ℕ) × (luaseri_pack l ≡ some buffer)
      × (luaseri_unpack buffer ≡ some (normal_items l))
unfolding luaseri_unpack
round_trip l h small =
    let buffer : List ℕ = encode_items (normal_items l) in
    (
      buffer,
      luaseri_pack_lem l h small,
      unpack_all_lem l (3 * length buffer + 3) h
          (omega (arith, weight_items-length (normal_items l))),
    )
