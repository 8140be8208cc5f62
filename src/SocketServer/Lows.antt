-- ===== src/SocketServer/Lows.antt =====
-- skynet-src/socket_server.c: `send_buffer` with its two lists.
use paohuzi_server.Shared.{
  ℕ, ◌+◌, ◌≤◌, ◌≡◌, ◌≢◌, refl, sym, ap, ap₂, ◌∙◌, false, some, List, [], ◌∷◌, ◌++◌, arith, ◌==◌,
  take, drop, append_assoc, append-nil, Bool-cases, inl, inr, take-append-drop, subst, ==_ne,
  ℕ_discrete,
}
use paohuzi_server.SocketServer.{
  WriteBuffer, Answer, Socket, Sending, advance_buffer, send_list_tcp, with_high, with_low,
  list_uncomplete, raise_uncomplete, is_empty, is_invalid, after_low, send_low, send_buffer,
}
use paohuzi_server.SocketServer.WriteList.{
  stream, total, Works, cut, front, stream-append, send_list_tcp_lem, advance_buffer_none,
}
use paohuzi_server.SocketServer.Order.{
  Package, Ordered, Kept, still_open, Fresh, Fresh-complete, is_empty-nil, with_high-Ordered,
  send_nothing-Kept, low-Ordered, grown_highs, grown_lows, grown_out, grown_fresh, as_low,
}

-- The low list after `send_list_tcp`
abbrev low_sent : Socket → List WriteBuffer → List WriteBuffer → ℕ → ℕ → Socket
low_sent s done rest sz size = record s {
  low = cut rest sz;
  wb_size = size;
  wire = s.wire ++ (stream done ++ front rest sz);
}

pub after_low_complete :
    (s : Socket) → list_uncomplete s.low ≡ false → after_low s ≡ some (s, false)
unfolding after_low
after_low_complete s t = rw t refl

module _ {s : Socket} {all : List Package} (o : Ordered s all) (live : is_invalid s.kind ≡ false)
    (eh : s.high ≡ []) where
  -- No buffer was sent in part.
  whole-Kept :
      (done rest : List WriteBuffer) (size : ℕ)
      → s.low ≡ done ++ rest
      → size ≡ total rest
      → Kept (after_low (record s { low = rest; wb_size = size; wire = s.wire ++ stream done })) all
  whole-Kept done rest size parts e =
      let kept = low-Ordered o eh done rest parts size e in
      record {
        socket = record s { low = rest; wb_size = size; wire = s.wire ++ stream done };
        closed = false;
        returns =
            after_low_complete
              (record s { low = rest; wb_size = size; wire = s.wire ++ stream done })
              (Fresh-complete rest kept.fresh);
        ordered = kept;
        ended = still_open live;
      }

  -- The first of the rest was, and moves to the high list.
  part-Kept :
      (done : List WriteBuffer) (b : WriteBuffer) (l : List WriteBuffer) (sz size : ℕ)
      → s.low ≡ done ++ (b ∷ l)
      → sz ≢ 0
      → size ≡ total (advance_buffer b sz ∷ l)
      → Kept (after_low (low_sent s done (b ∷ l) sz size)) all
  unfolding after_low raise_uncomplete
  part-Kept done b l sz size parts some_sent e =
      let fresh : Fresh (b ∷ l) = grown_fresh o eh done (b ∷ l) parts in
      let t : (b.ptr + sz == b.buffer) ≡ false =
        ==_ne (b.ptr + sz) b.buffer (omega (arith, fresh.0)) in
      let parts' : s.low ≡ (done ++ b ∷ []) ++ l = parts ∙ sym (append_assoc done (b ∷ []) l) in
      let bytes : stream (done ++ b ∷ []) ≡ stream done ++ b.bytes =
        stream-append done (b ∷ []) ∙ ap (λ t. stream done ++ t) (append-nil b.bytes) in
      record {
        socket = record s {
          high = advance_buffer b sz ∷ [];
          low = l;
          wb_size = size;
          wire = s.wire ++ (stream done ++ take sz b.bytes);
        };
        closed = false;
        returns = rw (t, eh) refl;
        ordered = record {
          order = o.order ++ as_low (done ++ b ∷ []);
          highs = grown_highs o eh (done ++ b ∷ []) l parts';
          lows = grown_lows o eh (done ++ b ∷ []) l parts';
          out =
              ap (λ t. (s.wire ++ (stream done ++ take sz b.bytes)) ++ t)
                (append-nil (drop sz b.bytes))
              ∙ append_assoc s.wire (stream done ++ take sz b.bytes) (drop sz b.bytes)
              ∙ ap (λ t. s.wire ++ t)
                  (append_assoc (stream done) (take sz b.bytes) (drop sz b.bytes)
                    ∙ ap (λ t. stream done ++ t) (take-append-drop sz b.bytes)
                    ∙ sym bytes)
              ∙ grown_out o eh (done ++ b ∷ []) l parts';
          fresh = fresh.1;
          size = omega (arith, e);
          usable = o.usable;
        };
        ended = still_open live;
      }

  low_sent-Kept :
      (done rest : List WriteBuffer) (sz size : ℕ)
      → s.low ≡ done ++ rest
      → size ≡ total (cut rest sz)
      → Kept (after_low (low_sent s done rest sz size)) all
  low_sent-Kept done [] sz size parts e =
      let all_sent : stream done ++ [] ≡ stream done = append-nil (stream done) in
      subst (λ t. Kept (after_low (record s { low = []; wb_size = size; wire = s.wire ++ t })) all)
        (sym all_sent) (whole-Kept done [] size parts e)
  low_sent-Kept done (b ∷ l) sz size parts e = elim (ℕ_discrete sz 0) [
    | no ne ↦ part-Kept done b l sz size parts ne e
    | yes z ↦
        let fresh_first : advance_buffer b sz ≡ b = advance_zero z in
        let none_sent : stream done ++ take sz b.bytes ≡ stream done =
          ap (λ n. stream done ++ take n b.bytes) z ∙ append-nil (stream done) in
        subst (λ c. Kept (after_low c) all)
          (ap₂ (λ c t. record s { low = c ∷ l; wb_size = size; wire = s.wire ++ t })
            (sym fresh_first) (sym none_sent))
          (whole-Kept done (b ∷ l) size parts (e ∙ ap (λ c. total (c ∷ l)) fresh_first))
  ]
    where
      advance_zero : sz ≡ 0 → advance_buffer b sz ≡ b
      advance_zero z = ap (advance_buffer b) z ∙ advance_buffer_none b

  send_low-Kept : (answers : List Answer) → Works answers → Kept (send_low answers s) all
  unfolding send_low
  send_low-Kept answers w =
      let below : total s.low ≤ s.wb_size = omega (arith, o.size) in
      let k = send_list_tcp_lem answers s.low s.wb_size s.wire w below in
      let r : Sending = send_list_tcp answers s.low s.wb_size s.wire in
      let lists : s.wb_size ≡ total s.low =
        o.size ∙ ap (λ l. total l + total s.low) eh ∙ omega arith in
      let size : r.wb_size ≡ total (cut k.rest k.sz) =
        omega (arith, k.counted, lists, ap total k.left) in
      let kept = low_sent-Kept k.done k.rest k.sz r.wb_size k.parts size in
      let same : with_low s r ≡ low_sent s k.done k.rest k.sz r.wb_size =
        ap₂ (λ l t. record s { low = l; wb_size = r.wb_size; wire = t }) k.left k.written in
      record {
        socket = kept.socket;
        closed = kept.closed;
        returns = rw k.unbroken (ap after_low same ∙ kept.returns);
        ordered = kept.ordered;
        ended = kept.ended;
      }

-- `send_buffer` fails no assert, and keeps the order.
pub send_buffer_lem :
    {s : Socket} {all : List Package} (answers : List Answer)
    → Ordered s all
    → is_invalid s.kind ≡ false
    → Works answers
    → Kept (send_buffer answers s) all
unfolding send_buffer
send_buffer_lem {s} {all} answers o live w =
    let below : total s.high ≤ s.wb_size = omega (arith, o.size) in
    let k = send_list_tcp_lem answers s.high s.wb_size s.wire w below in
    let r : Sending = send_list_tcp answers s.high s.wb_size s.wire in
    let o' = with_high-Ordered o k in
    let complete = Fresh-complete s.low o.fresh in
    elim (Bool-cases (is_empty r.list)) [
      | inr t ↦ record {
        socket = with_high s r;
        closed = false;
        returns = rw (complete, k.unbroken, t) refl;
        ordered = o';
        ended = still_open live;
      }
      | inl t ↦
          let eh = is_empty-nil r.list t in
          elim (Bool-cases (is_empty s.low)) [
            | inl u ↦
                let idle = send_nothing-Kept o' live eh (is_empty-nil s.low u) in
                record {
                  socket = idle.socket;
                  closed = idle.closed;
                  returns = rw (complete, k.unbroken, t, u) idle.returns;
                  ordered = idle.ordered;
                  ended = idle.ended;
                }
            | inr u ↦
                let sent = send_low-Kept o' live eh r.answers k.works in
                record {
                  socket = sent.socket;
                  closed = sent.closed;
                  returns = rw (complete, k.unbroken, t, u) sent.returns;
                  ordered = sent.ordered;
                  ended = sent.ended;
                }
          ]
    ]
