-- ===== src/SocketServer/WriteList.antt =====
-- skynet-src/socket_server.c: what `send_list_tcp` sends of a list of buffers.
use paohuzi_server.Shared.{
  ℕ, ◌+◌, ◌-◌, ◌≤◌, ◌≡◌, refl, sym, ap, ◌∙◌, true, false, List, [], ◌∷◌, ◌++◌, arith, ◌==◌, length,
  take, min, append_assoc, append-nil, Bool-cases, inl, inr, length-drop, take-all, subst,
}
use paohuzi_server.SocketServer.{
  WriteBuffer, Answer, room, interrupted, would_block, failed, Sending, advance_buffer,
  send_list_tcp,
}

-- The bytes of the buffers, one after the other, and how many they are
abbrev pub stream : List WriteBuffer → List ℕ
stream [] = []
stream (b ∷ l) = b.bytes ++ stream l

abbrev pub total : List WriteBuffer → ℕ
total [] = 0
total (b ∷ l) = length b.bytes + total l

-- The connection does not fail.
abbrev pub Works : List Answer → Type 0
Works [] = Unit
Works (failed ∷ l) = ⊥
Works (answer ∷ l) = Works l

-- The buffers left where `sz` bytes of the first were sent, and these bytes
abbrev pub cut : List WriteBuffer → ℕ → List WriteBuffer
cut [] sz = []
cut (b ∷ l) sz = advance_buffer b sz ∷ l

abbrev pub front : List WriteBuffer → ℕ → List ℕ
front [] sz = []
front (b ∷ l) sz = take sz b.bytes

-- The buffers `done` are sent, and `sz` bytes of the next.
pub record Sent (l : List WriteBuffer) (size : ℕ) (wire : List ℕ) (r : Sending) : Type 0 where
  pub done : List WriteBuffer
  pub rest : List WriteBuffer
  pub sz : ℕ
  pub parts : l ≡ done ++ rest
  pub left : r.list ≡ cut rest sz
  pub written : r.wire ≡ wire ++ (stream done ++ front rest sz)
  pub counted : r.wb_size + total l ≡ size + total r.list
  pub unbroken : r.broken ≡ false
  pub works : Works r.answers

pub stream-append : (k l : List WriteBuffer) → stream (k ++ l) ≡ stream k ++ stream l
stream-append [] l = refl
stream-append (b ∷ k) l =
    ap (λ t. b.bytes ++ t) (stream-append k l) ∙ sym (append_assoc b.bytes (stream k) (stream l))

pub total-append : (k l : List WriteBuffer) → total (k ++ l) ≡ total k + total l
total-append [] l = omega arith
total-append (b ∷ k) l = omega (arith, total-append k l)

pub send_list_tcp-whole :
    (n : ℕ) (answers : List Answer) (b : WriteBuffer) (l : List WriteBuffer) (size : ℕ)
    (wire : List ℕ)
    → (min n (length b.bytes) == length b.bytes) ≡ true
    → send_list_tcp (room n ∷ answers) (b ∷ l) size wire
      ≡ send_list_tcp answers l (size - length b.bytes) (wire ++ b.bytes)
unfolding send_list_tcp
send_list_tcp-whole n answers b l size wire t =
    let e : min n (length b.bytes) ≡ length b.bytes = ground arith in
    let all : take (length b.bytes) b.bytes ≡ b.bytes =
      take-all (length b.bytes) b.bytes (omega arith) in
    rw (t, e, all) refl

send_list_tcp-part :
    (n : ℕ) (answers : List Answer) (b : WriteBuffer) (l : List WriteBuffer) (size : ℕ)
    (wire : List ℕ)
    → (min n (length b.bytes) == length b.bytes) ≡ false
    → send_list_tcp (room n ∷ answers) (b ∷ l) size wire ≡ record {
      list = advance_buffer b (min n (length b.bytes)) ∷ l;
      wb_size = size - min n (length b.bytes);
      wire = wire ++ take (min n (length b.bytes)) b.bytes;
      broken = false;
      answers = answers;
    }
unfolding send_list_tcp
send_list_tcp-part n answers b l size wire t = rw t refl

pub advance_buffer_none : (b : WriteBuffer) → advance_buffer b 0 ≡ b
advance_buffer_none b = let e : b.ptr + 0 ≡ b.ptr = omega arith in rw e refl

Sent-nothing :
    (l : List WriteBuffer) (size : ℕ) (wire : List ℕ) (answers : List Answer)
    → Works answers
    → Sent l size wire
        (record { list = l; wb_size = size; wire = wire; broken = false; answers = answers })
Sent-nothing l size wire answers w = record {
  done = [];
  rest = l;
  sz = 0;
  parts = refl;
  left = sym (nothing_cut l);
  written = sym (append-nil wire) ∙ ap (λ t. wire ++ t) (sym (nothing_front l));
  counted = refl;
  unbroken = refl;
  works = w;
}
  where
    nothing_cut : (l : List WriteBuffer) → cut l 0 ≡ l
    nothing_cut [] = refl
    nothing_cut (b ∷ l) = ap (λ c. c ∷ l) (advance_buffer_none b)

    nothing_front : (l : List WriteBuffer) → front l 0 ≡ []
    nothing_front [] = refl
    nothing_front (b ∷ l) = refl

Sent-next :
    (b : WriteBuffer) {l : List WriteBuffer} {size : ℕ} {wire : List ℕ} {r : Sending}
    → length b.bytes + total l ≤ size
    → Sent l (size - length b.bytes) (wire ++ b.bytes) r
    → Sent (b ∷ l) size wire r
Sent-next b {l} {size} {wire} {r} le s = record {
  done = b ∷ s.done;
  rest = s.rest;
  sz = s.sz;
  parts = ap (λ t. b ∷ t) s.parts;
  left = s.left;
  written =
      s.written
      ∙ append_assoc wire b.bytes (stream s.done ++ front s.rest s.sz)
      ∙ ap (λ t. wire ++ t) (sym (append_assoc b.bytes (stream s.done) (front s.rest s.sz)));
  counted = omega (arith, s.counted);
  unbroken = s.unbroken;
  works = s.works;
}

Sent-part :
    (n : ℕ) (b : WriteBuffer) (l : List WriteBuffer) (size : ℕ) (wire : List ℕ)
    (answers : List Answer)
    → length b.bytes + total l ≤ size
    → n ≤ length b.bytes
    → Works answers
    → Sent (b ∷ l) size wire (record {
      list = advance_buffer b n ∷ l;
      wb_size = size - n;
      wire = wire ++ take n b.bytes;
      broken = false;
      answers = answers;
    })
Sent-part n b l size wire answers le small w = record {
  done = [];
  rest = b ∷ l;
  sz = n;
  parts = refl;
  left = refl;
  written = refl;
  counted = omega (arith, length-drop n b.bytes);
  unbroken = refl;
  works = w;
}

-- `send_list_tcp` sends the buffers in order, the last perhaps in part, and keeps the rest.
pub send_list_tcp_lem :
    (answers : List Answer) (l : List WriteBuffer) (size : ℕ) (wire : List ℕ)
    → Works answers
    → total l ≤ size
    → Sent l size wire (send_list_tcp answers l size wire)
unfolding send_list_tcp
send_list_tcp_lem answers [] size wire w le = Sent-nothing [] size wire answers w
send_list_tcp_lem [] (b ∷ l) size wire w le = Sent-nothing (b ∷ l) size wire [] w
send_list_tcp_lem (interrupted ∷ answers) (b ∷ l) size wire w le =
    send_list_tcp_lem answers (b ∷ l) size wire w le
send_list_tcp_lem (would_block ∷ answers) (b ∷ l) size wire w le =
    Sent-nothing (b ∷ l) size wire answers w
send_list_tcp_lem (failed ∷ answers) (b ∷ l) size wire w le = elim w [ ]
send_list_tcp_lem (room n ∷ answers) (b ∷ l) size wire w le =
    let more =
      send_list_tcp_lem answers l (size - length b.bytes) (wire ++ b.bytes) w (omega arith) in
    elim (Bool-cases (min n (length b.bytes) == length b.bytes)) [
      | inl t ↦
          subst (Sent (b ∷ l) size wire) (sym (send_list_tcp-whole n answers b l size wire t))
            (Sent-next b le more)
      | inr t ↦
          subst (Sent (b ∷ l) size wire) (sym (send_list_tcp-part n answers b l size wire t))
            (Sent-part (min n (length b.bytes)) b l size wire answers le (omega arith) w)
    ]
