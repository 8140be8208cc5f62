-- ===== src/Gate/Dispatch.antt =====
-- service-src/service_gate.c: one call of `dispatch_message`.
use paohuzi_server.Shared.{
  ℕ, zero, suc, ◌+◌, ◌^◌, ◌≤◌, ◌<◌, ◌≡◌, ◌⊎◌, refl, true, false, some, List, [], ◌∷◌, ◌++◌, map,
  arith, sym, ◌∙◌, ap, subst, ltb, leb, ◌==◌, length, take, drop, length-append, length-take,
  take-append-drop, take-all, drop-all, take-append_left, drop-append_left, dec_lt, ℕ_discrete,
}
use paohuzi_server.Gate.{
  DataBuffer, Connection, Gate, Effect, close, log, HeaderRead, short, whole, header_value,
  check_size, databuffer_read, databuffer_readheader, databuffer_reset, databuffer_clear,
  max_package, message_for, forward, dispatch_loop, dispatch_message,
}
use paohuzi_server.Gate.Buffer.{
  IsBuffer, databuffer_push_lem, databuffer_read_lem, databuffer_reset-IsBuffer,
  databuffer_clear-IsBuffer,
}
use paohuzi_server.Gate.Packages.{
  Next, wait, big, got, body, next, Ending, waiting, too_large, packages, packages-suc, finish,
  is_wait, is_big, is_got, view_body, next-body, next-short, next-header, got-shorter,
}

-- The buffer holds `bytes` behind a header of `h`, or behind none if `h` is 0.
pub record Holds (db : DataBuffer) (h : ℕ) (bytes : List ℕ) : Type 0 where
  pub buffer : IsBuffer db bytes
  pub header : db.header ≡ h

-- How `databuffer_readheader` answers for what the stream begins with.
abbrev ReadsAs : HeaderRead → DataBuffer → Next → Type 0
ReadsAs r db (wait h l) = (r ≡ short) × Holds db h l
ReadsAs r db big = (size : ℕ) × (r ≡ whole size) × (max_package ≤ size)
ReadsAs r db (got p l) =
    (r ≡ whole (length p)) × (length p < max_package) × Holds db (length p) (p ++ l)

check_size-short :
    (db : DataBuffer) → (2 ^ 31 ≤ db.header) ⊎ (db.size < db.header) → check_size db ≡ short
unfolding check_size
check_size-short db cause = ground arith

check_size-whole :
    (db : DataBuffer) → db.header < 2 ^ 31 → db.header ≤ db.size → check_size db ≡ whole db.header
unfolding check_size
check_size-whole db small fits = ground arith

check_size-body :
    (db : DataBuffer) (h : ℕ) (l : List ℕ) → Holds db h l → ReadsAs (check_size db) db (body h l)
check_size-body db h l b = elim (view_body h l) [
  | is_wait cause e ↦
      subst (ReadsAs (check_size db) db) (sym e)
        (check_size-short db (ground (arith, b.header, b.buffer.counted)), b)
  | is_big fits large small e ↦ subst (ReadsAs (check_size db) db) (sym e) (
    db.header,
    check_size-whole db (omega (arith, b.header)) (omega (arith, b.header, b.buffer.counted)),
    omega (arith, b.header),
  )
  | is_got fits small e ↦
      let size : db.header ≡ length (take h l) = omega (arith, b.header, length-take h l fits) in
      subst (ReadsAs (check_size db) db) (sym e) (
        check_size-whole db (omega (arith, b.header)) (omega (arith, b.header, b.buffer.counted))
            ∙ ap whole size,
        omega (arith, b.header),
        record {
          buffer = subst (IsBuffer db) (sym (take-append-drop h l)) b.buffer;
          header = size;
        },
      )
]

-- `databuffer_readheader` finds what the bytes begin with, and leaves a whole package in the buffer.
databuffer_readheader_lem :
    (db : DataBuffer) (k h : ℕ) (l : List ℕ)
    → 0 < k
    → Holds db h l
    → (r : HeaderRead) × (db' : DataBuffer) × (databuffer_readheader db k ≡ some (r, db'))
      × ReadsAs r db' (next k h l)
unfolding databuffer_readheader
databuffer_readheader_lem db k h l pos b = elim (ℕ_discrete h 0) [
  | no ne ↦
      let t : (db.header == 0) ≡ false = ground (arith, b.header) in
      (
        check_size db,
        db,
        rw t refl,
        subst (ReadsAs (check_size db) db) (sym (next-body k h l ne)) (check_size-body db h l b),
      )
  | yes z ↦
      let t : (db.header == 0) ≡ true = ground (arith, b.header) in
      elim (dec_lt (length l) k) [
        | yes lt ↦
            let u : ltb db.size k ≡ true = ground (arith, b.buffer.counted) in
            (
              short,
              db,
              rw (t, u) refl,
              subst (ReadsAs short db) (sym (ap (λ i. next k i l) z ∙ next-short k l lt))
                  (refl, record { buffer = b.buffer; header = b.header ∙ z }),
            )
        | no ge ↦
            let u : ltb db.size k ≡ false = ground (arith, b.buffer.counted) in
            let le : k ≤ length l = omega arith in
            let (db1, e, b1, same) = databuffer_read_lem db l k b.buffer pos le in
            let db' : DataBuffer = record db1 { header = header_value (take k l) } in
            (
              check_size db',
              db',
              rw (t, u, e) refl,
              subst (ReadsAs (check_size db') db')
                  (sym (ap (λ i. next k i l) z ∙ next-header k l le))
                  (check_size-body db' (header_value (take k l)) (drop k l) (record {
                    buffer = record { holds = b1.holds; inside = b1.inside; counted = b1.counted };
                    header = refl;
                  })),
            )
      ]
]

take-own : (p l : List ℕ) → take (length p) (p ++ l) ≡ p
take-own p l = take-append_left (length p) p l (omega arith) ∙ take-all (length p) p (omega arith)

drop-own : (p l : List ℕ) → drop (length p) (p ++ l) ≡ l
drop-own p l =
    drop-append_left (length p) p l (omega arith)
    ∙ ap (λ k. k ++ l) (drop-all (length p) p (omega arith))

-- What the gate does where a stream ends, and what it keeps.
abbrev pub closing : ℕ → Ending → List Effect
closing id (waiting h l) = []
closing id too_large = close id ∷ (log ∷ [])

abbrev pub Keeps : DataBuffer → Ending → Type 0
Keeps db (waiting h l) = Holds db h l
Keeps db too_large = Holds db 0 []

-- The packages are sent, in order, with `message`.
pub record Dispatched (message : List ℕ → Effect) (c : Connection) (r : List (List ℕ) × Ending)
    (effects : List Effect) (c' : Connection) : Type 0 where
  pub sent : effects ≡ map message r.0 ++ closing c.id r.1
  pub left : Keeps c'.buffer r.1
  pub same : c' ≡ record c { buffer = c'.buffer }

module _ (data_text : ℕ → List ℕ) where
  loop-short :
      (fuel : ℕ) (g : Gate) (c : Connection) {db : DataBuffer}
      → databuffer_readheader c.buffer g.header_size ≡ some (short, db)
      → dispatch_loop data_text (suc fuel) g c ≡ some ([], record c { buffer = db })
  unfolding dispatch_loop
  loop-short fuel g c e = rw e refl

  loop-large :
      (fuel : ℕ) (g : Gate) (c : Connection) {db : DataBuffer} {size : ℕ}
      → databuffer_readheader c.buffer g.header_size ≡ some (whole size, db)
      → max_package ≤ size
      → dispatch_loop data_text (suc fuel) g c
        ≡ some (close c.id ∷ (log ∷ []), record c { buffer = databuffer_clear db })
  unfolding dispatch_loop
  loop-large fuel g c {db} {size} e large =
      let t : (size == 0) ≡ false = ground arith in
      let u : leb max_package size ≡ true = ground arith in rw (e, t, u) refl

  loop-skip :
      (fuel : ℕ) (g : Gate) (c : Connection) {db : DataBuffer}
      → databuffer_readheader c.buffer g.header_size ≡ some (whole 0, db)
      → dispatch_loop data_text (suc fuel) g c
        ≡ dispatch_loop data_text fuel g (record c { buffer = db })
  unfolding dispatch_loop
  loop-skip fuel g c e = rw e refl

  forward_lem :
      (g : Gate) (c : Connection) (size : ℕ) {message : List ℕ → Effect} {bytes : List ℕ}
      {db : DataBuffer}
      → message_for data_text g c ≡ some message
      → databuffer_read c.buffer size ≡ some (bytes, db)
      → forward data_text g c size ≡ some (message bytes ∷ [], db)
  unfolding forward
  forward_lem g c size m e = rw (m, forward, e) refl

  loop-next :
      (fuel : ℕ) (g : Gate) (c : Connection) {db db1 : DataBuffer} {size : ℕ} {fs es : List Effect}
      {c' : Connection}
      → databuffer_readheader c.buffer g.header_size ≡ some (whole size, db)
      → 0 < size
      → size < max_package
      → forward data_text g (record c { buffer = db }) size ≡ some (fs, db1)
      → dispatch_loop data_text fuel g (record c { buffer = databuffer_reset db1 }) ≡ some (es, c')
      → dispatch_loop data_text (suc fuel) g c ≡ some (fs ++ es, c')
  unfolding dispatch_loop
  loop-next fuel g c {db} {db1} {size} e pos small f rest =
      let t : (size == 0) ≡ false = ground arith in
      let u : leb max_package size ≡ false = ground arith in rw (e, t, u, f, rest) refl

  pub message_for-buffer :
      (g : Gate) (c : Connection) (db : DataBuffer)
      → message_for data_text g (record c { buffer = db }) ≡ message_for data_text g c
  unfolding message_for
  message_for-buffer g c db = refl

  module _ (g : Gate) (message : List ℕ → Effect) where
    -- A run of the loop that does what `packages` says.
    abbrev Runs : ℕ → Connection → List (List ℕ) × Ending → Type 0
    Runs fuel c r =
        (effects : List Effect) × (c' : Connection) × (dispatch_loop data_text fuel g c
          ≡ some (effects, c'))
        × Dispatched message c r effects c'

    Runs-next :
        (fuel : ℕ) (c : Connection) (x : Next) (later : List ℕ → List (List ℕ) × Ending)
        → message_for data_text g c ≡ some message
        → ((r : HeaderRead) × (db : DataBuffer) × (databuffer_readheader c.buffer g.header_size
              ≡ some (r, db))
            × ReadsAs r db x)
        → ((db : DataBuffer) (p l : List ℕ)
            → x ≡ got p l
            → Holds db 0 l
            → Runs fuel (record c { buffer = db }) (later l))
        → Runs (suc fuel) c (finish x later)
    Runs-next fuel c (wait h l) later m (r, db, e, (is, kept)) rec = (
      [],
      record c { buffer = db },
      loop-short fuel g c (e ∙ ap (λ k. some (k, db)) is),
      record { sent = refl; left = kept; same = refl },
    )
    Runs-next fuel c big later m (r, db, e, (size, is, large)) rec = (
      close c.id ∷ (log ∷ []),
      record c { buffer = databuffer_clear db },
      loop-large fuel g c (e ∙ ap (λ k. some (k, db)) is) large,
      record {
        sent = refl;
        left = record {
          buffer = databuffer_clear-IsBuffer db;
          header = unfold databuffer_clear in refl;
        };
        same = refl;
      },
    )
    Runs-next fuel c (got [] l) later m (r, db, e, (is, small, kept)) rec =
        let (es, c', result, d) = rec db [] l refl kept in
        (
          es,
          c',
          loop-skip fuel g c (e ∙ ap (λ k. some (k, db)) is) ∙ result,
          record { sent = d.sent; left = d.left; same = d.same },
        )
    Runs-next fuel c (got (x ∷ p) l) later m (r, db, e, (is, small, kept)) rec =
        let (db1, read, b1, h1) =
          databuffer_read_lem db ((x ∷ p) ++ l) (length (x ∷ p)) kept.buffer (omega arith)
            (omega (arith, length-append p l)) in
        let fresh : Holds (databuffer_reset db1) 0 l = record {
          buffer = databuffer_reset-IsBuffer db1 l (subst (IsBuffer db1) (drop-own (x ∷ p) l) b1);
          header = unfold databuffer_reset in refl;
        } in
        let (es, c', result, d) = rec (databuffer_reset db1) (x ∷ p) l refl fresh in
        (
          message (x ∷ p) ∷ es,
          c',
          loop-next fuel g c (e ∙ ap (λ k. some (k, db)) is) (omega arith) small
              (forward_lem g (record c { buffer = db }) (length (x ∷ p))
                (message_for-buffer g c db ∙ m)
                (read ∙ ap (λ k. some (k, db1)) (take-own (x ∷ p) l)))
              result,
          record { sent = ap (λ k. message (x ∷ p) ∷ k) d.sent; left = d.left; same = d.same },
        )

    dispatch_loop_lem :
        (fuel : ℕ) (c : Connection) (h : ℕ) (l : List ℕ)
        → 0 < g.header_size
        → message_for data_text g c ≡ some message
        → Holds c.buffer h l
        → length l < fuel
        → Runs fuel c (packages fuel g.header_size h l)
    dispatch_loop_lem zero c h l pos m b less = absurd (omega arith)
    dispatch_loop_lem (suc fuel) c h l pos m b less =
        subst (Runs (suc fuel) c) (sym (packages-suc fuel g.header_size h l)) (
          Runs-next fuel c (next g.header_size h l) (packages fuel g.header_size 0) m
            (databuffer_readheader_lem c.buffer g.header_size h l pos b)
            (λ db p l' e kept.
              dispatch_loop_lem fuel (record c { buffer = db }) 0 l' pos
                (message_for-buffer g c db ∙ m) kept
                (omega (arith, got-shorter g.header_size h l pos e))))

    -- `dispatch_message` sends the packages that are whole once the new bytes are there, one message
    -- for each, in order, and keeps the bytes of the next one. It closes the socket where a package
    -- is too large and whole in the buffer, and does not fault. There must be a destination.
    pub dispatch_message_lem :
        (c : Connection) (h : ℕ) (l chunk : List ℕ)
        → 0 < g.header_size
        → message_for data_text g c ≡ some message
        → Holds c.buffer h l
        → length l + length chunk < 2 ^ 31
        → (effects : List Effect) × (c' : Connection) × (dispatch_message data_text g c chunk
            ≡ some (effects, c'))
          × Dispatched message c
              (packages (length (l ++ chunk) + 1) g.header_size h (l ++ chunk))
              effects
              c'
    unfolding dispatch_message
    dispatch_message_lem c h l chunk pos m b small =
        let (db, e, b1, same) = databuffer_push_lem c.buffer l chunk b.buffer small in
        let (es, c', result, d) =
          dispatch_loop_lem (length (l ++ chunk) + 1) (record c { buffer = db }) h (l ++ chunk) pos
            (message_for-buffer g c db ∙ m) (record { buffer = b1; header = same ∙ b.header })
            (omega arith) in
        (es, c', rw (e, b1.counted) result, record { sent = d.sent; left = d.left; same = d.same })
