-- ===== src/Unseri/Within.antt =====
-- lualib-src/lua-seri.c: what is left to read after each step is no more than before.
use Prim.Native.Nat.{bit_and}
use paohuzi_server.Shared.{
  ℕ, zero, suc, ◌-◌, ◌/◌, ◌^◌, ◌≤◌, ◌≡◌, refl, Bool, true, false, Option, none, some, List, [], ◌∷◌,
  arith, ltb, ◌==◌, if◌then◌else◌, ◌>>=◌, length, length-drop, Bool-cases, inl, inr,
}
use paohuzi_server.Shared.Int.{pos}
use paohuzi_server.Seri.{is_nil}
use paohuzi_server.Unseri.{
  rb_read, read_number, map_number, get_integer, get_real, get_pointer, get_buffer, long_array_size,
  get_array_size, get_number, get_long_string, push_scalar, push_value, unpack_one, unpack_items,
  unpack_pairs, is_key,
}
use paohuzi_server.Unseri.Numbers.{read_byte}

-- What is left to read, if reading succeeds.
abbrev pub Within {ℓ} : {A : Type ℓ} → ℕ → Option (A × List ℕ) → Type 0
Within n none = Unit
Within n (some (x, rb)) = length rb ≤ n

Within-bind {ℓ κ} :
    {A : Type ℓ} {B : Type κ} (n : ℕ) (m : Option (A × List ℕ))
    (f : A × List ℕ → Option (B × List ℕ))
    → Within n m
    → ((x : A) (rb : List ℕ) → length rb ≤ n → Within n (f (x, rb)))
    → Within n (m >>= f)
Within-bind n none f h next = tt
Within-bind n (some (x, rb)) f h next = next x rb h

-- Two continuations that agree on what can be left.
pub bind_eq {ℓ κ} :
    {A : Type ℓ} {B : Type κ} (n : ℕ) (m : Option (A × List ℕ)) (f g : A × List ℕ → Option B)
    → Within n m
    → ((x : A) (rb : List ℕ) → length rb ≤ n → f (x, rb) ≡ g (x, rb))
    → (m >>= f) ≡ (m >>= g)
bind_eq n none f g h same = refl
bind_eq n (some (x, rb)) f g h same = same x rb h

pub Within-le {ℓ} :
    {A : Type ℓ} (n n' : ℕ) (m : Option (A × List ℕ)) → n ≤ n' → Within n m → Within n' m
Within-le n n' none le h = tt
Within-le n n' (some (x, rb)) le h = omega arith

Within-if {ℓ} :
    {A : Type ℓ} (n : ℕ) (b : Bool) (m m' : Option (A × List ℕ))
    → Within n m
    → Within n m'
    → Within n (if b then m else m')
Within-if n true m m' h h' = h
Within-if n false m m' h h' = h'

Within-map_number {ℓ} :
    {A : Type ℓ} (n : ℕ) (f : ℕ → A) (m : Option (ℕ × List ℕ))
    → Within n m
    → Within n (map_number f m)
Within-map_number n f none h = tt
Within-map_number n f (some (x, rb)) h = h

rb_read-Within : (rb : List ℕ) (k : ℕ) → Within (length rb) (rb_read rb k)
unfolding rb_read
rb_read-Within rb k = elim (Bool-cases (ltb (length rb) k)) [
  | inl e ↦ rw e tt
  | inr e ↦ rw e (omega (arith, length-drop k rb))
]

read_number-Within : (rb : List ℕ) (k : ℕ) → Within (length rb) (read_number rb k)
unfolding read_number
read_number-Within rb k =
    Within-bind (length rb) (rb_read rb k) _ (rb_read-Within rb k) (λ x rest h. h)

number_as {ℓ} :
    {A : Type ℓ} (f : ℕ → A) (rb : List ℕ) (k : ℕ)
    → Within (length rb) (map_number f (read_number rb k))
number_as f rb k = Within-map_number (length rb) f (read_number rb k) (read_number-Within rb k)

get_integer-Within : (rb : List ℕ) (cookie : ℕ) → Within (length rb) (get_integer rb cookie)
unfolding get_integer
get_integer-Within rb cookie =
    let n : ℕ = length rb in
    Within-if n (cookie == 0) _ _ (omega arith) (
      Within-if n (cookie == 1) _ _ (number_as pos rb 1) (
        Within-if n (cookie == 2) _ _ (number_as pos rb 2) (
          Within-if n (cookie == 4) _ _ (number_as _ rb 4)
            (Within-if n (cookie == 6) _ none (number_as _ rb 8) tt))))

get_buffer-Within : (rb : List ℕ) (len : ℕ) → Within (length rb) (get_buffer rb len)
unfolding get_buffer
get_buffer-Within rb len =
    Within-if (length rb) (ltb len (2 ^ 31)) _ none
      (Within-bind (length rb) (rb_read rb len) _ (rb_read-Within rb len) (λ x rest h. h)) tt

-- A length, and then a text of that length.
long_string_Within :
    (rb : List ℕ) (k : ℕ) → Within (length rb) (read_number rb k >>= λ r. get_buffer r.1 r.0)
long_string_Within rb k =
    Within-bind (length rb) (read_number rb k) _ (read_number-Within rb k) (λ x rest h.
      Within-le (length rest) (length rb) (get_buffer rest x) h (get_buffer-Within rest x))

pub get_array_size-Within :
    (rb : List ℕ) (cookie : ℕ) → Within (length rb) (get_array_size rb cookie)
unfolding get_array_size long_array_size
get_array_size-Within rb cookie =
    Within-if (length rb) (cookie == 31) _ _
      (Within-bind (length rb) (read_number rb 1) _ (read_number-Within rb 1) (λ x rest h.
        Within-le (length rest) (length rb) _ h (
          Within-if (length rest) _ none _ tt (
            Within-bind (length rest) (get_integer rest (x / 2 ^ 3)) _
              (get_integer-Within rest (x / 2 ^ 3)) (λ y r k. k)))))
      (omega arith)

get_number-Within : (rb : List ℕ) (cookie : ℕ) → Within (length rb) (get_number rb cookie)
unfolding get_number get_real
get_number-Within rb cookie =
    Within-if (length rb) (cookie == 8) _ _ (number_as _ rb 8) (
      Within-bind (length rb) (get_integer rb cookie) _ (get_integer-Within rb cookie) (λ x r h. h))

get_long_string-Within : (rb : List ℕ) (cookie : ℕ) → Within (length rb) (get_long_string rb cookie)
unfolding get_long_string
get_long_string-Within rb cookie =
    Within-if (length rb) (cookie == 2) _ _ (long_string_Within rb 2)
      (Within-if (length rb) (cookie == 4) _ none (long_string_Within rb 4) tt)

push_scalar-Within : (rb : List ℕ) (t cookie : ℕ) → Within (length rb) (push_scalar rb t cookie)
unfolding push_scalar get_pointer
push_scalar-Within rb t cookie =
    let n : ℕ = length rb in
    Within-if n (t == 0) _ _ (omega arith) (
      Within-if n (t == 1) _ _ (omega arith) (
        Within-if n (t == 2) _ _ (get_number-Within rb cookie) (
          Within-if n (t == 3) _ _ (number_as _ rb 8) (
            Within-if n (t == 4) _ _ (get_buffer-Within rb cookie)
              (Within-if n (t == 5) _ none (get_long_string-Within rb cookie) tt)))))

pub unpack_one_nil : (fuel : ℕ) → unpack_one fuel [] ≡ none
unfolding unpack_one read_number rb_read
unpack_one_nil zero = refl
unpack_one_nil (suc fuel) = refl

-- One value takes a byte at least.
abbrev pub Shorter {ℓ} : {A : Type ℓ} → List ℕ → Option (A × List ℕ) → Type 0
Shorter rb m = Within (length rb - 1) m

mutual
  unfolding push_value unpack_items

  push_value-Within :
      (fuel : ℕ) (rb : List ℕ) (t cookie : ℕ) → Within (length rb) (push_value fuel rb t cookie)
  push_value-Within zero rb t cookie = tt
  push_value-Within (suc fuel) rb t cookie =
      let n : ℕ = length rb in
      Within-if n (t == 6) _ _
        (Within-bind n (get_array_size rb cookie) _ (get_array_size-Within rb cookie) (λ c r h.
          Within-bind n (unpack_items fuel c r) _
            (Within-le (length r) n (unpack_items fuel c r) h (unpack_items-Within fuel c r))
            (λ l r' h'.
              Within-bind n (unpack_pairs fuel r') _
                (Within-le (length r') n (unpack_pairs fuel r') h' (unpack_pairs-Within fuel r'))
                (λ m r'' h''. h''))))
        (push_scalar-Within rb t cookie)

  pub unpack_one-Shorter : (fuel : ℕ) (rb : List ℕ) → Shorter rb (unpack_one fuel rb)
  unpack_one-Shorter zero rb = tt
  unpack_one-Shorter (suc fuel) [] = rw (unpack_one_nil (suc fuel)) tt
  unpack_one-Shorter (suc fuel) (x ∷ rb) = rw (read_byte x rb) (
      Within-le (length rb) (length (x ∷ rb) - 1) (push_value fuel rb (bit_and x 7) (x / 2 ^ 3))
        (omega arith) (push_value-Within fuel rb (bit_and x 7) (x / 2 ^ 3)))

  pub unpack_items-Within : (fuel n : ℕ) (rb : List ℕ) → Within (length rb) (unpack_items fuel n rb)
  unpack_items-Within zero n rb = Within-if (length rb) (n == 0) _ none (omega arith) tt
  unpack_items-Within (suc fuel) n rb = Within-if (length rb) (n == 0) _ _ (omega arith) (
      Within-bind (length rb) (unpack_one fuel rb) _
        (Within-le (length rb - 1) (length rb) (unpack_one fuel rb) (omega arith)
          (unpack_one-Shorter fuel rb))
        (λ v r h.
          Within-bind (length rb) (unpack_items fuel (n - 1) r) _
            (Within-le (length r) (length rb) (unpack_items fuel (n - 1) r) h
              (unpack_items-Within fuel (n - 1) r))
            (λ l r' h'. h')))

  unpack_pairs-Within : (fuel : ℕ) (rb : List ℕ) → Within (length rb) (unpack_pairs fuel rb)
  unpack_pairs-Within zero rb = tt
  unpack_pairs-Within (suc fuel) rb =
      let n : ℕ = length rb in
      Within-bind n (unpack_one fuel rb) _
        (Within-le (n - 1) n (unpack_one fuel rb) (omega arith) (unpack_one-Shorter fuel rb))
        (λ k r h. Within-if n (is_nil k) _ _ h (
          Within-if n (is_key k) _ none
            (Within-bind n (unpack_one fuel r) _
              (Within-le (length r - 1) n (unpack_one fuel r) (omega arith)
                (unpack_one-Shorter fuel r))
              (λ v r' h'.
                Within-bind n (unpack_pairs fuel r') _
                  (Within-le (length r') n (unpack_pairs fuel r') h' (unpack_pairs-Within fuel r'))
                  (λ m r'' h''. h'')))
            tt))
