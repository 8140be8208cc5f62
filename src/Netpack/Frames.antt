-- ===== src/Netpack/Frames.antt =====
-- lualib-src/lua-netpack.c: the packages of a stream of bytes, told without the code's state.
use Prim.Native.Nat.{bit_and}
use paohuzi_server.Shared.{
  ℕ, zero, suc, ◌+◌, ◌-◌, ◌*◌, ◌/◌, ◌%◌, ◌^◌, ◌≤◌, ◌<◌, ◌≡◌, refl, ◌≢◌, inl, inr, Option, none,
  some, true, List, [], ◌∷◌, ◌++◌, leb, if◌then◌else◌, arith, ◌∙◌, ap, Option-cases, length, take,
  drop, length-append, length-drop, append-nil, take-append_left, drop-append_left,
  take-append_right, drop-append_right,
}
use paohuzi_server.Shared.Bits.{bit_and_ones}
use paohuzi_server.Netpack.{pack}

-- A package and the bytes behind it, if the stream begins with a whole one.
abbrev pub first_frame : List ℕ → Option (List ℕ × List ℕ)
first_frame [] = none
first_frame (high ∷ []) = none
first_frame (high ∷ low ∷ l) =
    if leb (high * 256 + low) (length l)
    then some (take (high * 256 + low) l, drop (high * 256 + low) l)
    else none

-- The packages of a stream, in order, and the bytes of the one that is cut short. The fuel is the
-- length of the stream, or more.
unfoldable pub frames : ℕ → List ℕ → List (List ℕ) × List ℕ
frames zero l = ([], l)
frames (suc fuel) l = elim (first_frame l) [
  | none ↦ ([], l)
  | some (p, rest) ↦ let (ps, r) = frames fuel rest in (p ∷ ps, r)
]

first_frame-shorter :
    (l : List ℕ) {p rest : List ℕ} → first_frame l ≡ some (p, rest) → length rest + 2 ≤ length l
first_frame-shorter [] h = absurd (ground arith)
first_frame-shorter (high ∷ []) h = absurd (ground arith)
first_frame-shorter (high ∷ low ∷ l) {p} {rest} h = ground (arith, length-drop (high * 256 + low) l)

-- Enough fuel.
frames_fuel : (n m : ℕ) (l : List ℕ) → length l ≤ n → length l ≤ m → frames n l ≡ frames m l
unfolding frames
frames_fuel zero zero l a b = refl
frames_fuel zero (suc m) [] a b = refl
frames_fuel zero (suc m) (x ∷ l) a b = absurd (omega arith)
frames_fuel (suc n) zero [] a b = refl
frames_fuel (suc n) zero (x ∷ l) a b = absurd (omega arith)
frames_fuel (suc n) (suc m) l a b = elim (Option-cases (first_frame l)) [
  | inl e ↦ rw (e, frames) refl
  | inr ((p, rest), e) ↦
      rw
        (
          e,
          frames,
          frames_fuel n m rest (omega (arith, first_frame-shorter l e))
              (omega (arith, first_frame-shorter l e)),
        )
        refl
]

-- More bytes behind a whole package leave it as it is.
first_frame-append :
    (l more : List ℕ) {p rest : List ℕ}
    → first_frame l ≡ some (p, rest)
    → first_frame (l ++ more) ≡ some (p, rest ++ more)
first_frame-append [] more h = absurd (ground arith)
first_frame-append (high ∷ []) more h = absurd (ground arith)
first_frame-append (high ∷ low ∷ l) more {p} {rest} h =
    let fits : high * 256 + low ≤ length l = ground arith in
    ground (
      arith,
      length-append l more,
      take-append_left (high * 256 + low) l more fits,
      drop-append_left (high * 256 + low) l more fits,
    )

frames_left : (n : ℕ) (l : List ℕ) → length (frames n l).1 ≤ length l
unfolding frames
frames_left zero l = omega arith
frames_left (suc n) l = elim (Option-cases (first_frame l)) [
  | inl e ↦ rw (e, frames) (omega arith)
  | inr ((p, rest), e) ↦ rw (e, frames) (omega (arith, frames_left n rest, first_frame-shorter l e))
]

frames_stop : (n : ℕ) (l : List ℕ) → first_frame l ≡ none → frames n l ≡ ([], l)
unfolding frames
frames_stop zero l e = refl
frames_stop (suc n) l e = rw (e, frames) refl

frames_step :
    (n : ℕ) (l : List ℕ) {p rest : List ℕ}
    → first_frame l ≡ some (p, rest)
    → frames (suc n) l ≡ (p ∷ (frames n rest).0, (frames n rest).1)
unfolding frames
frames_step n l e = rw (e, frames) refl

-- A stream in two pieces gives the packages of the first, and those of the second read behind the
-- bytes that the first leaves.
frames-append :
    (n : ℕ) (l more : List ℕ)
    → length (l ++ more) ≤ n
    → frames n (l ++ more) ≡ (
      (frames n l).0 ++ (frames n ((frames n l).1 ++ more)).0,
      (frames n ((frames n l).1 ++ more)).1,
    )
frames-append zero [] more h = rw (frames_stop zero [] refl) refl
frames-append zero (x ∷ l) more h = absurd (omega arith)
frames-append (suc n) l more h = elim (Option-cases (first_frame l)) [
  | inl e ↦ rw (frames_stop (suc n) l e) refl
  | inr ((p, rest), e) ↦
      let small : length rest + length more ≤ n =
        omega (arith, length-append l more, first_frame-shorter l e) in
      let ih = frames-append n rest more (omega (arith, length-append rest more)) in
      let left : List ℕ = (frames n rest).1 in
      let same : frames (suc n) (left ++ more) ≡ frames n (left ++ more) =
        frames_fuel (suc n) n (left ++ more)
          (omega (arith, length-append left more, frames_left n rest))
          (omega (arith, length-append left more, frames_left n rest)) in
      rw (frames_step n (l ++ more) (first_frame-append l more e), frames_step n l e, same, ih) refl
]

-- What `lpack` makes of up to 65535 bytes is read back as one package, whatever follows.
pub pack_frame :
    (bytes more : List ℕ) {packed : List ℕ}
    → pack bytes ≡ some packed
    → first_frame (packed ++ more) ≡ some (bytes, more)
unfolding pack
pack_frame bytes more {packed} h =
    let len : ℕ = length bytes in
    let high : bit_and (len / 2 ^ 8) (2 ^ 8 - 1) ≡ len / 256 =
      ground (arith, bit_and_ones 8 (len / 2 ^ 8)) in
    let low : bit_and len (2 ^ 8 - 1) ≡ len % 256 = bit_and_ones 8 len in
    let e : packed ≡ len / 256 ∷ len % 256 ∷ bytes = ground (arith, high, low) in
    let whole : len / 256 * 256 + len % 256 ≡ len = omega arith in
    let fits : leb len (length (bytes ++ more)) ≡ true = ground (arith, length-append bytes more) in
    rw
      (
        e,
        whole,
        fits,
        take-append_right bytes more len 0 (omega arith),
        drop-append_right bytes more len 0 (omega arith),
        append-nil,
      )
      refl

-- The packages of a stream and what is left of it.
abbrev pub parse : List ℕ → List (List ℕ) × List ℕ
parse l = frames (length l) l

pub parse-stop : (l : List ℕ) → first_frame l ≡ none → parse l ≡ ([], l)
parse-stop l e = frames_stop (length l) l e

pub parse-step :
    (l : List ℕ) {p rest : List ℕ}
    → first_frame l ≡ some (p, rest)
    → parse l ≡ (p ∷ (parse rest).0, (parse rest).1)
parse-step l {p} {rest} e =
    let small : length rest + 2 ≤ length l = first_frame-shorter l e in
    frames_fuel (length l) (suc (length l)) l (omega arith) (omega arith)
    ∙ frames_step (length l) l e
    ∙ ap (λ x. (p ∷ x.0, x.1))
        (frames_fuel (length l) (length rest) rest (omega arith) (omega arith))

-- A stream that is not empty has a package or leaves bytes.
pub parse_nonempty : (l : List ℕ) → 0 < length l → (parse l).0 ≡ [] → (parse l).1 ≢ []
parse_nonempty l h e none_left = elim (Option-cases (first_frame l)) [
  | inl stop ↦ absurd (ground (arith, parse-stop l stop, none_left))
  | inr ((p, rest), step) ↦ absurd (ground (arith, parse-step l step, e))
]

pub parse-append :
    (l more : List ℕ)
    → parse (l ++ more)
      ≡ ((parse l).0 ++ (parse ((parse l).1 ++ more)).0, (parse ((parse l).1 ++ more)).1)
parse-append l more =
    let n : ℕ = length (l ++ more) in
    let first : frames n l ≡ parse l =
      frames_fuel n (length l) l (omega (arith, length-append l more)) (omega arith) in
    let left : List ℕ = (parse l).1 in
    let second : frames n (left ++ more) ≡ parse (left ++ more) =
      frames_fuel n (length (left ++ more)) (left ++ more)
        (omega (arith, length-append left more, length-append l more, frames_left (length l) l))
        (omega arith) in
    frames-append n l more (omega arith) ∙ rw first (rw second refl)
