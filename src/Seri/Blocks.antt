-- ===== src/Seri/Blocks.antt =====
-- lualib-src/lua-seri.c: the blocks of a `write_block` hold what was pushed, and `seri` copies it out.
use paohuzi_server.Shared.{
  ℕ, zero, suc, ◌+◌, ◌-◌, ◌≤◌, ◌<◌, ◌≡◌, refl, true, false, some, List, [], ◌∷◌, ◌++◌, arith, leb,
  ◌==◌, length, take, drop, length-append, length-take, length-drop, take-append-drop, append-nil,
  append_assoc, take-all, subst, sym, ◌∙◌, ap, ℕ_discrete, dec_lt, ==_ne,
}
use paohuzi_server.Seri.{WriteBlock, block_size, next_block, wb_copy, wb_push, wb_init, seri}

abbrev pub join : List (List ℕ) → List ℕ
join [] = []
join (b ∷ l) = b ++ join l

join-append : (l : List (List ℕ)) (b : List ℕ) → join (l ++ b ∷ []) ≡ join l ++ b
join-append [] b = append-nil b
join-append (x ∷ l) b = ap (λ t. x ++ t) (join-append l b) ∙ sym (append_assoc x (join l) b)

-- The bytes that were pushed, in order.
abbrev pub contents : WriteBlock → List ℕ
contents b = join b.full ++ b.current

abbrev pub AllFull : List (List ℕ) → Type 0
AllFull [] = Unit
AllFull (b ∷ l) = (length b ≡ block_size) × AllFull l

pub record IsWritten (b : WriteBlock) : Type 0 where
  pub blocks : AllFull b.full
  pub room : length b.current ≤ block_size
  pub counted : b.len ≡ length (contents b)

-- `b'` is `b` with `l` written behind it.
pub record Appends (b : WriteBlock) (l : List ℕ) (b' : WriteBlock) : Type 0 where
  pub written : IsWritten b'
  pub bytes : contents b' ≡ contents b ++ l

AllFull-append :
    (l : List (List ℕ)) (b : List ℕ) → AllFull l → length b ≡ block_size → AllFull (l ++ b ∷ [])
AllFull-append [] b h e = (e, tt)
AllFull-append (x ∷ l) b h e = (h.0, AllFull-append l b h.1 e)

pub wb_init-IsWritten : IsWritten wb_init
unfolding wb_init
wb_init-IsWritten = record { blocks = tt; room = omega arith; counted = refl }

next_block-contents : (b : WriteBlock) → contents (next_block b) ≡ contents b
unfolding next_block
next_block-contents b = append-nil (join (b.full ++ b.current ∷ [])) ∙ join-append b.full b.current

next_block-IsWritten :
    (b : WriteBlock) → IsWritten b → length b.current ≡ block_size → IsWritten (next_block b)
unfolding next_block
next_block-IsWritten b w e = record {
  blocks = AllFull-append b.full b.current w.blocks e;
  room = omega arith;
  counted = w.counted ∙ ap length (sym (next_block-contents b));
}

-- Bytes that fit into the current block.
fits_lem :
    (b : WriteBlock) (l : List ℕ)
    → IsWritten b
    → length b.current + length l ≤ block_size
    → Appends b l (record b { current = b.current ++ l; len = b.len + length l })
fits_lem b l w h =
    let same : join b.full ++ (b.current ++ l) ≡ contents b ++ l =
      sym (append_assoc (join b.full) b.current l) in
    record {
      written = record {
        blocks = w.blocks;
        room = omega (arith, length-append b.current l);
        counted = omega (arith, w.counted, length-append (contents b) l, ap length same);
      };
      bytes = same;
    }

wb_copy_lem :
    (fuel : ℕ) (b : WriteBlock) (l : List ℕ)
    → IsWritten b
    → length b.current < block_size
    → length l ≤ fuel
    → Appends b l (wb_copy fuel b l)
unfolding wb_copy
wb_copy_lem zero b l w h k = fits_lem b l w (omega arith)
wb_copy_lem (suc fuel) b l w h k = elim (dec_lt block_size (length b.current + length l)) [
  | no fits ↦
      let t : leb (length b.current + length l) block_size ≡ true = ground arith in
      rw t (fits_lem b l w (omega arith))
  | yes over ↦
      let t : leb (length b.current + length l) block_size ≡ false = ground arith in
      let n : ℕ = block_size - length b.current in
      let size : length (take n l) ≡ n = length-take n l (omega arith) in
      let b1 : WriteBlock = record b { current = b.current ++ take n l; len = b.len + n } in
      let first : Appends b (take n l) b1 =
        subst
          (λ k.
            Appends b (take n l) (record b { current = b.current ++ take n l; len = b.len + k }))
          size (fits_lem b (take n l) w (omega arith)) in
      let whole : length b1.current ≡ block_size =
        omega (arith, length-append b.current (take n l)) in
      let later =
        wb_copy_lem fuel (next_block b1) (drop n l) (next_block-IsWritten b1 first.written whole)
          (empty_block b1) (omega (arith, length-drop n l)) in
      rw t (record {
        written = later.written;
        bytes =
            later.bytes
            ∙ ap (λ x. x ++ drop n l) (next_block-contents b1 ∙ first.bytes)
            ∙ append_assoc (contents b) (take n l) (drop n l)
            ∙ ap (λ x. contents b ++ x) (take-append-drop n l);
      })
]
  where
    empty_block : (b : WriteBlock) → length (next_block b).current < block_size
    empty_block b = unfold next_block in omega arith

-- `wb_push` writes its bytes behind the others, whichever blocks they fall into.
pub wb_push_lem : (b : WriteBlock) (l : List ℕ) → IsWritten b → Appends b l (wb_push b l)
unfolding wb_push next_block
wb_push_lem b l w = elim (ℕ_discrete (length b.current) block_size) [
  | yes e ↦
      let a =
        wb_copy_lem (length l) (next_block b) l (next_block-IsWritten b w e) (omega arith)
          (omega arith) in
      let t : (length b.current == block_size) ≡ true = ground arith in
      rw t
        (record { written = a.written; bytes = a.bytes ∙ ap (λ x. x ++ l) (next_block-contents b) })
  | no ne ↦
      rw (==_ne (length b.current) block_size ne)
        (wb_copy_lem (length l) b l w (omega (arith, w.room)) (omega arith))
]

pub Appends-append :
    {a b c : WriteBlock} {l m : List ℕ} → Appends a l b → Appends b m c → Appends a (l ++ m) c
Appends-append {a} {b} {c} {l} {m} f g = record {
  written = g.written;
  bytes = g.bytes ∙ ap (λ x. x ++ m) f.bytes ∙ append_assoc (contents a) l m;
}

seri_blocks :
    (full : List (List ℕ)) (current : List ℕ)
    → AllFull full
    → length current ≤ block_size
    → seri (full ++ current ∷ []) (length (join full ++ current)) ≡ some (join full ++ current)
unfolding seri
seri_blocks [] current h room = elim (ℕ_discrete (length current) block_size) [
  | yes e ↦
      let t : leb block_size (length current) ≡ true = ground arith in
      let z : length current - block_size ≡ 0 = omega arith in
      rw (t, z, take-all block_size current room, append-nil current) refl
  | no ne ↦
      let t : leb block_size (length current) ≡ false = ground arith in
      rw (t, take-all (length current) current (omega arith)) refl
]
seri_blocks (b ∷ full) current h room =
    let rest : List ℕ = join full ++ current in
    let same : (b ++ join full) ++ current ≡ b ++ rest = append_assoc b (join full) current in
    let size : length (b ++ rest) ≡ block_size + length rest =
      omega (arith, length-append b rest, h.0) in
    let t : leb block_size (length (b ++ rest)) ≡ true = ground (arith, size) in
    let z : length (b ++ rest) - block_size ≡ length rest = omega (arith, size) in
    rw (same, t, z, seri_blocks full current h.1 room, take-all block_size b (omega (arith, h.0)))
      refl

-- `seri` copies out what was pushed.
pub seri_lem :
    (b : WriteBlock) → IsWritten b → seri (b.full ++ b.current ∷ []) b.len ≡ some (contents b)
seri_lem b w = rw w.counted (seri_blocks b.full b.current w.blocks w.room)
