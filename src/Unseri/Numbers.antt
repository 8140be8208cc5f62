-- ===== src/Unseri/Numbers.antt =====
-- lualib-src/lua-seri.c: numbers, texts and headers are read back as they were written.
use Prim.Native.Nat.{bit_and}
use native.Mathlib.Nat.{pow-suc}
use paohuzi_server.Shared.{
  ℕ, zero, suc, ◌-◌, ◌/◌, ◌%◌, ◌^◌, ◌≤◌, ◌<◌, ◌≡◌, refl, true, false, some, List, [], ◌∷◌, ◌++◌,
  arith, ltb, leb, ◌==◌, length, length-append, take-append_right, drop-append_right, append-nil,
  append_assoc, ◌∙◌, ap, Bool-cases, inl, inr,
}
use paohuzi_server.Shared.Bits.{bit_and_ones}
use paohuzi_server.Shared.Int.{ℤ, pos, negsuc}
use paohuzi_server.Seri.{integer, real, pointer, text, le_bytes, le_number}
use paohuzi_server.Seri.Encoding.{header, encode_integer, encode_text, encode_size, InRange}
use paohuzi_server.Unseri.{
  rb_read, read_number, get_integer, get_real, get_pointer, get_buffer, as_count, long_array_size,
  get_array_size, get_number, get_long_string, push_scalar, push_value, unpack_one,
}

length-le_bytes : (k n : ℕ) → length (le_bytes k n) ≡ k
length-le_bytes zero n = refl
length-le_bytes (suc k) n = ap suc (length-le_bytes k (n / 2 ^ 8))

le_number-le_bytes : (k n : ℕ) → n < 256 ^ k → le_number (le_bytes k n) ≡ n
le_number-le_bytes zero n h = omega arith
le_number-le_bytes (suc k) n h =
    omega (arith, le_number-le_bytes k (n / 2 ^ 8) (omega (arith, pow-suc 256 k)))

pub rb_read-append :
    (l rest : List ℕ) (n : ℕ) → length l ≡ n → rb_read (l ++ rest) n ≡ some (l, rest)
unfolding rb_read
rb_read-append l rest n e =
    let t : ltb (length (l ++ rest)) n ≡ false = ground (arith, length-append l rest) in
    rw
      (
        t,
        take-append_right l rest n 0 (omega arith),
        drop-append_right l rest n 0 (omega arith),
        append-nil l,
      )
      refl

read_number_lem :
    (k n : ℕ) (rest : List ℕ) → n < 256 ^ k → read_number (le_bytes k n ++ rest) k ≡ some (n, rest)
unfolding read_number
read_number_lem k n rest h =
    rw (rb_read-append (le_bytes k n) rest k (length-le_bytes k n), le_number-le_bytes k n h) refl

pub read_byte : (x : ℕ) (rest : List ℕ) → read_number (x ∷ rest) 1 ≡ some (x, rest)
unfolding read_number
read_byte x rest = rw (rb_read-append (x ∷ []) rest 1 refl) (ap (λ k. some (k, rest)) (omega arith))

get_buffer_lem :
    (s rest : List ℕ) → length s < 2 ^ 31 → get_buffer (s ++ rest) (length s) ≡ some (text s, rest)
unfolding get_buffer
get_buffer_lem s rest h =
    let t : ltb (length s) (2 ^ 31) ≡ true = ground arith in
    rw (t, rb_read-append s rest (length s) refl) refl

-- What `wb_integer` writes: a header with a cookie, and the bytes that the cookie tells.
abbrev pub IntegerBytes : ℤ → Type 0
IntegerBytes n =
    (cookie : ℕ) × (body : List ℕ) × (encode_integer n ≡ header 2 cookie ∷ body)
    × (cookie < 8)
    × ((rest : List ℕ) → get_integer (body ++ rest) cookie ≡ some (n, rest))

pub encode_integer_lem : (n : ℤ) → InRange n → IntegerBytes n
unfolding get_integer
encode_integer_lem (pos n) h = elim (Bool-cases (n == 0)) [
  | inl a ↦
      (0, [], rw a refl, omega arith, λ rest. ap (λ k. some (pos k, rest)) (ground (arith, a)))
  | inr a ↦ elim (Bool-cases (leb (2 ^ 31) n)) [
    | inl b ↦
        let positive : ltb n (2 ^ 63) ≡ true = ground arith in
        (
          6,
          le_bytes 8 n,
          rw (a, b) refl,
          omega arith,
          λ rest. rw (read_number_lem 8 n rest (omega arith), positive) refl,
        )
    | inr b ↦ elim (Bool-cases (ltb n 0x100)) [
      | inl c ↦ (
        1,
        le_bytes 1 n,
        rw (a, b, c) refl,
        omega arith,
        λ rest. rw (read_number_lem 1 n rest (ground (arith, c))) refl,
      )
      | inr c ↦ elim (Bool-cases (ltb n 0x10000)) [
        | inl d ↦ (
          2,
          le_bytes 2 n,
          rw (a, b, c, d) refl,
          omega arith,
          λ rest. rw (read_number_lem 2 n rest (ground (arith, d))) refl,
        )
        | inr d ↦
            let positive : ltb n (2 ^ 31) ≡ true = ground (arith, b) in
            (
              4,
              le_bytes 4 n,
              rw (a, b, c, d) refl,
              omega arith,
              λ rest. rw (read_number_lem 4 n rest (ground (arith, b)), positive) refl,
            )
      ]
    ]
  ]
]
encode_integer_lem (negsuc n) h = elim (Bool-cases (leb (2 ^ 31) n)) [
  | inl b ↦
      let negative : ltb (2 ^ 64 - 1 - n) (2 ^ 63) ≡ false = ground arith in
      let back : 2 ^ 64 - 1 - (2 ^ 64 - 1 - n) ≡ n = omega arith in
      (
        6,
        le_bytes 8 (2 ^ 64 - 1 - n),
        rw b refl,
        omega arith,
        λ rest. rw (read_number_lem 8 (2 ^ 64 - 1 - n) rest (omega arith), negative, back) refl,
      )
  | inr b ↦
      let small : n < 2 ^ 31 = ground (arith, b) in
      let negative : ltb (2 ^ 32 - 1 - n) (2 ^ 31) ≡ false = ground arith in
      let back : 2 ^ 32 - 1 - (2 ^ 32 - 1 - n) ≡ n = omega arith in
      (
        4,
        le_bytes 4 (2 ^ 32 - 1 - n),
        rw b refl,
        omega arith,
        λ rest. rw (read_number_lem 4 (2 ^ 32 - 1 - n) rest (omega arith), negative, back) refl,
      )
]

header_low : (t c : ℕ) → t < 8 → bit_and (header t c) 7 ≡ t
header_low t c h = bit_and_ones 3 (header t c) ∙ omega arith

header_high : (t c : ℕ) → t < 8 → header t c / 2 ^ 3 ≡ c
header_high t c h = omega arith

pub unpack_one_header :
    (fuel t c : ℕ) (rest : List ℕ)
    → t < 8
    → unpack_one (suc fuel) (header t c ∷ rest) ≡ push_value fuel rest t c
unfolding unpack_one
unpack_one_header fuel t c rest h =
    rw (read_byte (header t c) rest, header_low t c h, header_high t c h) refl

-- A value that is no table.
pub unpack_one_scalar :
    (fuel t c : ℕ) (rest : List ℕ)
    → t < 6
    → 2 ≤ fuel
    → unpack_one fuel (header t c ∷ rest) ≡ push_scalar rest t c
unfolding push_value
unpack_one_scalar zero t c rest h k = absurd (omega arith)
unpack_one_scalar (suc zero) t c rest h k = absurd (omega arith)
unpack_one_scalar (suc (suc fuel)) t c rest h k =
    let other : (t == 6) ≡ false = ground arith in
    unpack_one_header (suc fuel) t c rest (omega arith) ∙ rw other refl

pub unpack_integer :
    (fuel : ℕ) (n : ℤ) (rest : List ℕ)
    → InRange n
    → 2 ≤ fuel
    → unpack_one fuel (encode_integer n ++ rest) ≡ some (integer n, rest)
unfolding push_scalar get_number
unpack_integer fuel n rest h k =
    let (cookie, body, e, small, read) = encode_integer_lem n h in
    let plain : (cookie == 8) ≡ false = ground arith in
    ap (λ l. unpack_one fuel (l ++ rest)) e
    ∙ unpack_one_scalar fuel 2 cookie (body ++ rest) (omega arith) k
    ∙ rw (plain, read rest) refl

pub unpack_real :
    (fuel n : ℕ) (rest : List ℕ)
    → n < 2 ^ 64
    → 2 ≤ fuel
    → unpack_one fuel ((header 2 8 ∷ le_bytes 8 n) ++ rest) ≡ some (real n, rest)
unfolding push_scalar get_number get_real
unpack_real fuel n rest h k =
    unpack_one_scalar fuel 2 8 (le_bytes 8 n ++ rest) (omega arith) k
    ∙ rw (read_number_lem 8 n rest (omega arith)) refl

pub unpack_pointer :
    (fuel n : ℕ) (rest : List ℕ)
    → n < 2 ^ 64
    → 2 ≤ fuel
    → unpack_one fuel ((header 3 0 ∷ le_bytes 8 n) ++ rest) ≡ some (pointer n, rest)
unfolding push_scalar get_pointer
unpack_pointer fuel n rest h k =
    unpack_one_scalar fuel 3 0 (le_bytes 8 n ++ rest) (omega arith) k
    ∙ rw (read_number_lem 8 n rest (omega arith)) refl

pub unpack_text :
    (fuel : ℕ) (s rest : List ℕ)
    → length s < 2 ^ 31
    → 2 ≤ fuel
    → unpack_one fuel (encode_text s ++ rest) ≡ some (text s, rest)
unfolding push_scalar get_long_string
unpack_text fuel s rest h k = elim (Bool-cases (ltb (length s) 32)) [
  | inl a ↦
      rw a
        (unpack_one_scalar fuel 4 (length s) (s ++ rest) (omega arith) k ∙ get_buffer_lem s rest h)
  | inr a ↦ elim (Bool-cases (ltb (length s) 0x10000)) [
    | inl b ↦
        rw (a, b)
          (unpack_one_scalar fuel 5 2 ((le_bytes 2 (length s) ++ s) ++ rest) (omega arith) k
            ∙ rw
                (
                  append_assoc (le_bytes 2 (length s)) s rest,
                  read_number_lem 2 (length s) (s ++ rest) (ground (arith, b)),
                )
                (get_buffer_lem s rest h))
    | inr b ↦
        rw (a, b)
          (unpack_one_scalar fuel 5 4 ((le_bytes 4 (length s) ++ s) ++ rest) (omega arith) k
            ∙ rw
                (
                  append_assoc (le_bytes 4 (length s)) s rest,
                  read_number_lem 4 (length s) (s ++ rest) (omega arith),
                )
                (get_buffer_lem s rest h))
  ]
]

-- The header of a table, and the number of its items.
pub encode_size_lem :
    (size : ℕ) (rest : List ℕ)
    → size < 2 ^ 31
    → (cookie : ℕ) × (body : List ℕ) × (encode_size size ++ rest ≡ header 6 cookie ∷ body)
      × (get_array_size body cookie ≡ some (size, rest))
unfolding get_array_size long_array_size as_count
encode_size_lem size rest h = elim (Bool-cases (leb 31 size)) [
  | inl b ↦
      let (cookie, body, e, small, read) = encode_integer_lem (pos size) (omega arith) in
      let plain : (cookie == 8) ≡ false = ground arith in
      let whole : size % 2 ^ 32 ≡ size = omega arith in
      let fits : ltb size (2 ^ 31) ≡ true = ground arith in
      (
        31,
        header 2 cookie ∷ body ++ rest,
        rw (b, e) refl,
        rw
            (
              read_byte (header 2 cookie) (body ++ rest),
              header_low 2 cookie (omega arith),
              header_high 2 cookie (omega arith),
              plain,
              read rest,
              whole,
              fits,
            )
            refl,
      )
  | inr b ↦
      let few : (size == 31) ≡ false = ground (arith, b) in (size, rest, rw b refl, rw few refl)
]
