-- ===== src/SocketServer/Appends.antt =====
-- skynet-src/socket_server.c: a package that goes to the lists of a socket or to its wire.
use paohuzi_server.Shared.{
  ℕ, ◌≡◌, refl, sym, ap, ap₂, ◌∙◌, Bool, true, false, some, List, [], ◌∷◌, ◌++◌, arith, ◌==◌,
  if◌then◌else◌, length, take, drop, min, append_assoc, append-nil, Bool-cases, inl, inr,
  take-append-drop, take-all,
}
use paohuzi_server.SocketServer.{
  Answer, room, interrupted, would_block, failed, Socket, RequestSend, new_buffer, is_invalid,
  append_sendbuffer, append_sendbuffer_low, write_direct,
}
use paohuzi_server.SocketServer.WriteList.{stream, Works, stream-append, total-append}
use paohuzi_server.SocketServer.Order.{
  Package, Ordered, Kept, still_open, contents, contents-append, Fresh-append, Ordered-waiting,
  highs_of, highs_of-append, lows_of, lows_of-append, joined-append,
}

-- What becomes of a request to send
abbrev pub packaged : RequestSend → Bool → List Package
packaged request low = (low, request.so_bytes) ∷ []

-- An object with bytes elsewhere may not have the low priority.
abbrev pub IsPlain : RequestSend → Bool → Type 0
IsPlain request low = low ≡ true → request.so_buffer ≡ request.buffer

module _ {s : Socket} {all : List Package} (o : Ordered s all) (request : RequestSend) where
  -- A package goes to the end of the high list, with `n` of its bytes written before.
  pub append-Ordered :
      (n : ℕ) (low : Bool) (wire : List ℕ)
      → wire ++ (stream s.high ++ drop n request.so_bytes)
        ≡ s.wire ++ (stream s.high ++ request.so_bytes)
      → (low ≡ true → s.low ≡ [])
      → Ordered
          (append_sendbuffer (record s { wire = wire }) request n)
          (all ++ packaged request low)
  unfolding append_sendbuffer
  append-Ordered n low wire e idle =
      let b = new_buffer request n in
      record {
        order = o.order ++ packaged request low;
        highs =
            highs_of-append o.order (packaged request low)
            ∙ ap (λ t. t ++ highs_of (packaged request low)) o.highs
            ∙ sym (highs_of-append all (packaged request low));
        lows =
            ap (λ t. t ++ contents s.low) (lows_of-append o.order (packaged request low))
            ∙ moved low idle
            ∙ ap (λ t. t ++ lows_of (packaged request low)) o.lows
            ∙ sym (lows_of-append all (packaged request low));
        out =
            ap (λ t. wire ++ t)
              (stream-append s.high (b ∷ [])
                ∙ ap (λ t. stream s.high ++ t) (append-nil (drop n request.so_bytes)))
            ∙ e
            ∙ sym (append_assoc s.wire (stream s.high) request.so_bytes)
            ∙ ap₂ (λ x y. x ++ y) o.out (sym (append-nil request.so_bytes))
            ∙ sym (joined-append o.order (packaged request low));
        fresh = o.fresh;
        size = omega (arith, o.size, total-append s.high (b ∷ []));
        usable = o.usable;
      }
    where
      moved :
          (low : Bool)
          → (low ≡ true → s.low ≡ [])
          → (lows_of o.order ++ lows_of (packaged request low)) ++ contents s.low
            ≡ (lows_of o.order ++ contents s.low) ++ lows_of (packaged request low)
      moved true idle =
          let e = idle refl in
          let before : (lows_of o.order ++ (request.so_bytes ∷ [])) ++ contents s.low
              ≡ lows_of o.order ++ (request.so_bytes ∷ []) =
            ap (λ l. (lows_of o.order ++ (request.so_bytes ∷ [])) ++ contents l) e
            ∙ append-nil (lows_of o.order ++ (request.so_bytes ∷ [])) in
          before
          ∙ ap (λ t. t ++ (request.so_bytes ∷ []))
              (sym (ap (λ l. lows_of o.order ++ contents l) e ∙ append-nil (lows_of o.order)))
      moved false idle =
          ap (λ t. t ++ contents s.low) (append-nil (lows_of o.order))
          ∙ sym (append-nil (lows_of o.order ++ contents s.low))

  pub append_low-Ordered :
      request.so_buffer ≡ request.buffer
      → Ordered (append_sendbuffer_low s request) (all ++ packaged request true)
  unfolding append_sendbuffer_low
  append_low-Ordered plain =
      let b = new_buffer request 0 in
      record {
        order = o.order;
        highs =
            o.highs
            ∙ sym (append-nil (highs_of all))
            ∙ sym (highs_of-append all (packaged request true));
        lows =
            ap (λ t. lows_of o.order ++ t) (contents-append s.low (b ∷ []))
            ∙ sym (append_assoc (lows_of o.order) (contents s.low) (request.so_bytes ∷ []))
            ∙ ap (λ t. t ++ (request.so_bytes ∷ [])) o.lows
            ∙ sym (lows_of-append all (packaged request true));
        out = o.out;
        fresh = Fresh-append s.low (b ∷ []) o.fresh (omega (arith, plain), tt);
        size = omega (arith, o.size, total-append s.low (b ∷ []));
        usable = o.usable;
      }

  module _ (live : is_invalid s.kind ≡ false) (eh : s.high ≡ []) (el : s.low ≡ [])
      (low : Bool) where
    -- A package is written at once.
    sent-Ordered :
        (wire : List ℕ)
        → wire ≡ s.wire ++ request.so_bytes
        → Ordered (record s { wire = wire }) (all ++ packaged request low)
    sent-Ordered wire e = record {
      order = o.order ++ packaged request low;
      highs =
          highs_of-append o.order (packaged request low)
          ∙ ap (λ t. t ++ highs_of (packaged request low)) o.highs
          ∙ sym (highs_of-append all (packaged request low));
      lows =
          ap (λ l. lows_of (o.order ++ packaged request low) ++ contents l) el
          ∙ append-nil (lows_of (o.order ++ packaged request low))
          ∙ lows_of-append o.order (packaged request low)
          ∙ ap (λ t. t ++ lows_of (packaged request low))
              (sym (append-nil (lows_of o.order))
                ∙ ap (λ l. lows_of o.order ++ contents l) (sym el)
                ∙ o.lows)
          ∙ sym (lows_of-append all (packaged request low));
      out =
          ap₂ (λ t l. t ++ stream l) e eh
          ∙ append-nil (s.wire ++ request.so_bytes)
          ∙ ap₂ (λ x y. x ++ y)
              (sym (append-nil s.wire) ∙ ap (λ l. s.wire ++ stream l) (sym eh) ∙ o.out)
              (sym (append-nil request.so_bytes))
          ∙ sym (joined-append o.order (packaged request low));
      fresh = o.fresh;
      size = o.size;
      usable = o.usable;
    }

    part_out :
        (n : ℕ)
        → (s.wire ++ take n request.so_bytes) ++ (stream s.high ++ drop n request.so_bytes)
          ≡ s.wire ++ (stream s.high ++ request.so_bytes)
    part_out n =
        ap (λ l. (s.wire ++ take n request.so_bytes) ++ (stream l ++ drop n request.so_bytes)) eh
        ∙ append_assoc s.wire (take n request.so_bytes) (drop n request.so_bytes)
        ∙ ap (λ t. s.wire ++ t) (take-append-drop n request.so_bytes)
        ∙ ap (λ l. s.wire ++ (stream l ++ request.so_bytes)) (sym eh)

    blocked-Kept :
        Kept
          (if length request.so_bytes == 0
            then some (s, false)
            else some (record (append_sendbuffer s request 0) { waiting = true }, false))
          (all ++ packaged request low)
    unfolding append_sendbuffer
    blocked-Kept = elim (Bool-cases (length request.so_bytes == 0)) [
      | inl t ↦ record {
        socket = s;
        closed = false;
        returns = rw t refl;
        ordered =
            sent-Ordered s.wire
              (sym (append-nil s.wire) ∙ ap (λ l. s.wire ++ l) (sym (no_bytes request.so_bytes t)));
        ended = still_open live;
      }
      | inr t ↦ record {
        socket = record (append_sendbuffer s request 0) { waiting = true };
        closed = false;
        returns = rw t refl;
        ordered = Ordered-waiting (append-Ordered 0 low s.wire refl (λ _. el)) true;
        ended = still_open live;
      }
    ]
      where
        no_bytes : (l : List ℕ) → (length l == 0) ≡ true → l ≡ []
        no_bytes [] h = refl
        no_bytes (x ∷ l) h = absurd (ground (arith, h))

    pub write_direct_lem :
        (answer : Answer)
        → Works (answer ∷ [])
        → Kept (write_direct answer s request) (all ++ packaged request low)
    unfolding write_direct append_sendbuffer
    write_direct_lem failed w = elim w [ ]
    write_direct_lem interrupted w = blocked-Kept
    write_direct_lem would_block w = blocked-Kept
    write_direct_lem (room n) w =
        let sz : ℕ = min n (length request.so_bytes) in
        let wire' : List ℕ = s.wire ++ take sz request.so_bytes in
        elim (Bool-cases (sz == length request.so_bytes)) [
          | inl t ↦ record {
            socket = record s { wire = wire' };
            closed = false;
            returns = rw t refl;
            ordered =
                sent-Ordered wire'
                  (ap (λ l. s.wire ++ l) (take-all sz request.so_bytes (ground (arith, t))));
            ended = still_open live;
          }
          | inr t ↦ record {
            socket = record (append_sendbuffer (record s { wire = wire' }) request sz) {
              waiting = true;
            };
            closed = false;
            returns = rw t refl;
            ordered = Ordered-waiting (append-Ordered sz low wire' (part_out sz) (λ _. el)) true;
            ended = still_open live;
          }
        ]
