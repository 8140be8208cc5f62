-- ===== src/Gate/Buffer.antt =====
-- service-src/databuffer.h: the chain of messages as one list of bytes.
use paohuzi_server.Shared.{
  ℕ, zero, suc, ◌+◌, ◌-◌, ◌^◌, ◌≤◌, ◌<◌, ◌≡◌, refl, true, false, some, List, [], ◌∷◌, ◌++◌, arith,
  sym, ◌∙◌, ap, ltb, leb, ◌==◌, length, take, drop, length-append, length-drop, take-append_left,
  drop-append_left, take-append_right, drop-append_right, append-nil, append_assoc, dec_lt,
  ℕ_discrete,
}
use paohuzi_server.Gate.{
  DataBuffer, read_loop, databuffer_read, databuffer_push, databuffer_reset, databuffer_clear,
}

-- The bytes that the messages hold behind the first `offset`.
abbrev pub contents : ℕ → List (List ℕ) → List ℕ
contents offset [] = []
contents offset (m ∷ l) = drop offset m ++ contents 0 l

abbrev pub IsOffset : ℕ → List (List ℕ) → Type 0
IsOffset offset [] = offset ≡ 0
IsOffset offset (m ∷ l) = offset ≤ length m

-- The buffer holds `bytes`.
pub record IsBuffer (db : DataBuffer) (bytes : List ℕ) : Type 0 where
  pub holds : contents db.offset db.messages ≡ bytes
  pub inside : IsOffset db.offset db.messages
  pub counted : db.size ≡ length bytes

drop-none : (k : ℕ) → drop {A = ℕ} k [] ≡ []
drop-none zero = refl
drop-none (suc k) = refl

drop-drop : (n k : ℕ) (l : List ℕ) → drop k (drop n l) ≡ drop (n + k) l
drop-drop zero k l = ap (λ m. drop m l) (omega arith)
drop-drop (suc n) k [] = drop-none k ∙ sym (drop-none (suc n + k))
drop-drop (suc n) k (x ∷ l) =
    let e : suc n + k ≡ suc (n + k) = omega arith in
    drop-drop n k l ∙ ap (λ m. drop m (x ∷ l)) (sym e)

IsOffset-zero : (l : List (List ℕ)) → IsOffset 0 l
IsOffset-zero [] = refl
IsOffset-zero (m ∷ l) = omega arith

read_loop_lem :
    (l : List (List ℕ)) (offset sz : ℕ)
    → IsOffset offset l
    → 0 < sz
    → sz ≤ length (contents offset l)
    → (offset' : ℕ) × (l' : List (List ℕ)) × (read_loop l offset sz
        ≡ some (take sz (contents offset l), offset', l'))
      × IsOffset offset' l'
      × (contents offset' l' ≡ drop sz (contents offset l))
unfolding read_loop
read_loop_lem [] offset sz v pos h = absurd (omega arith)
read_loop_lem (m ∷ l) offset sz v pos h = elim (dec_lt sz (length m - offset)) [
  | yes lt ↦
      let t : ltb (length m) offset ≡ false = ground arith in
      let u : ltb sz (length m - offset) ≡ true = ground arith in
      let fits : sz ≤ length (drop offset m) = omega (arith, length-drop offset m) in
      (
        offset + sz,
        m ∷ l,
        rw (t, u, take-append_left sz (drop offset m) (contents 0 l) fits) refl,
        omega arith,
        ap (λ k. k ++ contents 0 l) (sym (drop-drop offset sz m))
            ∙ sym (drop-append_left sz (drop offset m) (contents 0 l) fits),
      )
  | no ge ↦
      let t : ltb (length m) offset ≡ false = ground arith in
      let u : ltb sz (length m - offset) ≡ false = ground arith in
      let size : length (drop offset m) ≡ length m - offset = length-drop offset m in
      elim (ℕ_discrete (length m - offset) sz) [
        | yes e ↦
            let w : (length m - offset == sz) ≡ true = ground arith in
            let all : sz ≡ length (drop offset m) + 0 = omega arith in
            (
              0,
              l,
              rw
                  (
                    t,
                    u,
                    w,
                    take-append_right (drop offset m) (contents 0 l) sz 0 all,
                    append-nil (drop offset m),
                  )
                  refl,
              IsOffset-zero l,
              sym (drop-append_right (drop offset m) (contents 0 l) sz 0 all),
            )
        | no ne ↦
            let w : (length m - offset == sz) ≡ false = ground arith in
            let left : ℕ = sz - (length m - offset) in
            let all : sz ≡ length (drop offset m) + left = omega arith in
            let (offset', l', e, v', rest) =
              read_loop_lem l 0 left (IsOffset-zero l) (omega arith)
                (omega (arith, length-append (drop offset m) (contents 0 l))) in
            (
              offset',
              l',
              rw (t, u, w, e, take-append_right (drop offset m) (contents 0 l) sz left all) refl,
              v',
              rest ∙ sym (drop-append_right (drop offset m) (contents 0 l) sz left all),
            )
      ]
]

contents-push :
    (offset : ℕ) (l : List (List ℕ)) (chunk : List ℕ)
    → IsOffset offset l
    → contents offset (l ++ chunk ∷ []) ≡ contents offset l ++ chunk
contents-push offset [] chunk v = ap (λ k. drop k chunk ++ []) v ∙ append-nil chunk
contents-push offset (m ∷ l) chunk v =
    ap (λ k. drop offset m ++ k) (contents-push 0 l chunk (IsOffset-zero l))
    ∙ sym (append_assoc (drop offset m) (contents 0 l) chunk)

IsOffset-push :
    (offset : ℕ) (l : List (List ℕ)) (chunk : List ℕ)
    → IsOffset offset l
    → IsOffset offset (l ++ chunk ∷ [])
IsOffset-push offset [] chunk v = omega (arith, v)
IsOffset-push offset (m ∷ l) chunk v = v

-- `databuffer_push` puts the bytes behind those that the buffer holds.
pub databuffer_push_lem :
    (db : DataBuffer) (bytes chunk : List ℕ)
    → IsBuffer db bytes
    → length bytes + length chunk < 2 ^ 31
    → (db' : DataBuffer) × (databuffer_push db chunk ≡ some db')
      × IsBuffer db' (bytes ++ chunk)
      × (db'.header ≡ db.header)
unfolding databuffer_push
databuffer_push_lem db bytes chunk b small =
    let t : leb (2 ^ 31) (db.size + length chunk) ≡ false = ground (arith, b.counted) in
    (
      record db { size = db.size + length chunk; messages = db.messages ++ chunk ∷ [] },
      rw t refl,
      record {
        holds = contents-push db.offset db.messages chunk b.inside ∙ ap (λ k. k ++ chunk) b.holds;
        inside = IsOffset-push db.offset db.messages chunk b.inside;
        counted = omega (arith, b.counted, length-append bytes chunk);
      },
      refl,
    )

-- `databuffer_read` takes the first `sz` bytes, wherever the messages were cut, and keeps the others.
pub databuffer_read_lem :
    (db : DataBuffer) (bytes : List ℕ) (sz : ℕ)
    → IsBuffer db bytes
    → 0 < sz
    → sz ≤ length bytes
    → (db' : DataBuffer) × (databuffer_read db sz ≡ some (take sz bytes, db'))
      × IsBuffer db' (drop sz bytes)
      × (db'.header ≡ db.header)
unfolding databuffer_read
databuffer_read_lem db bytes sz b pos h =
    let t : ltb db.size sz ≡ false = ground (arith, b.counted) in
    let same : length (contents db.offset db.messages) ≡ length bytes = ap length b.holds in
    let (offset', l', e, v', rest) =
      read_loop_lem db.messages db.offset sz b.inside pos (omega arith) in
    (
      record db { size = db.size - sz; offset = offset'; messages = l' },
      rw (t, e, b.holds) refl,
      record {
        holds = rest ∙ ap (drop sz) b.holds;
        inside = v';
        counted = omega (arith, b.counted, length-drop sz bytes);
      },
      refl,
    )

pub databuffer_reset-IsBuffer :
    (db : DataBuffer) (bytes : List ℕ) → IsBuffer db bytes → IsBuffer (databuffer_reset db) bytes
unfolding databuffer_reset
databuffer_reset-IsBuffer db bytes b = record {
  holds = b.holds;
  inside = b.inside;
  counted = b.counted;
}

pub databuffer_clear-IsBuffer : (db : DataBuffer) → IsBuffer (databuffer_clear db) []
unfolding databuffer_clear
databuffer_clear-IsBuffer db = record { holds = refl; inside = refl; counted = refl }
