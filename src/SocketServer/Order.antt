-- ===== src/SocketServer/Order.antt =====
-- skynet-src/socket_server.c: the order in which the packages of a socket go out, and that
-- `send_buffer` keeps it.
use paohuzi_server.Shared.{
  ℕ, ◌+◌, ◌≡◌, refl, sym, ap, ap₂, ◌∙◌, Bool, true, false, Option, some, List, [], ◌∷◌, ◌++◌, arith,
  take, drop, append_assoc, append-nil, Bool-cases, inl, inr, take-append-drop, subst, ==_refl,
}
use paohuzi_server.SocketServer.{
  WriteBuffer, Socket, invalid, Sending, with_high, list_uncomplete, is_empty, is_reserve,
  is_halfclose, is_invalid, force_close, close_now, send_nothing,
}
use paohuzi_server.SocketServer.WriteList.{stream, total, Sent, cut, front, stream-append}

-- A package with whether its priority is low
abbrev pub Package : Type 0
Package = Bool × List ℕ

abbrev pub highs_of : List Package → List (List ℕ)
highs_of [] = []
highs_of ((true, p) ∷ l) = highs_of l
highs_of ((false, p) ∷ l) = p ∷ highs_of l

abbrev pub lows_of : List Package → List (List ℕ)
lows_of [] = []
lows_of ((true, p) ∷ l) = p ∷ lows_of l
lows_of ((false, p) ∷ l) = lows_of l

-- The bytes of the packages
abbrev pub joined : List Package → List ℕ
joined [] = []
joined ((low, p) ∷ l) = p ++ joined l

abbrev pub contents : List WriteBuffer → List (List ℕ)
contents [] = []
contents (b ∷ l) = b.bytes ∷ contents l

-- No buffer was sent in part.
abbrev pub Fresh : List WriteBuffer → Type 0
Fresh [] = Unit
Fresh (b ∷ l) = (b.ptr ≡ b.buffer) × Fresh l

abbrev pub as_low : List WriteBuffer → List Package
as_low [] = []
as_low (b ∷ l) = (true, b.bytes) ∷ as_low l

-- The packages `all` were asked for. Those of `order` are sent or in the high list, and those in the
-- low list are to follow.
pub record Ordered (s : Socket) (all : List Package) : Type 0 where
  pub order : List Package
  pub highs : highs_of order ≡ highs_of all
  pub lows : lows_of order ++ contents s.low ≡ lows_of all
  pub out : s.wire ++ stream s.high ≡ joined order
  pub fresh : Fresh s.low
  pub size : s.wb_size ≡ total s.high + total s.low
  pub usable : is_reserve s.kind ≡ false

pub highs_of-append : (k l : List Package) → highs_of (k ++ l) ≡ highs_of k ++ highs_of l
highs_of-append [] l = refl
highs_of-append ((true, p) ∷ k) l = highs_of-append k l
highs_of-append ((false, p) ∷ k) l = ap (λ t. p ∷ t) (highs_of-append k l)

pub lows_of-append : (k l : List Package) → lows_of (k ++ l) ≡ lows_of k ++ lows_of l
lows_of-append [] l = refl
lows_of-append ((true, p) ∷ k) l = ap (λ t. p ∷ t) (lows_of-append k l)
lows_of-append ((false, p) ∷ k) l = lows_of-append k l

pub joined-append : (k l : List Package) → joined (k ++ l) ≡ joined k ++ joined l
joined-append [] l = refl
joined-append ((low, p) ∷ k) l =
    ap (λ t. p ++ t) (joined-append k l) ∙ sym (append_assoc p (joined k) (joined l))

pub contents-append : (k l : List WriteBuffer) → contents (k ++ l) ≡ contents k ++ contents l
contents-append [] l = refl
contents-append (b ∷ k) l = ap (λ t. b.bytes ∷ t) (contents-append k l)

highs_of-as_low : (l : List WriteBuffer) → highs_of (as_low l) ≡ []
highs_of-as_low [] = refl
highs_of-as_low (b ∷ l) = highs_of-as_low l

lows_of-as_low : (l : List WriteBuffer) → lows_of (as_low l) ≡ contents l
lows_of-as_low [] = refl
lows_of-as_low (b ∷ l) = ap (λ t. b.bytes ∷ t) (lows_of-as_low l)

joined-as_low : (l : List WriteBuffer) → joined (as_low l) ≡ stream l
joined-as_low [] = refl
joined-as_low (b ∷ l) = ap (λ t. b.bytes ++ t) (joined-as_low l)

pub Fresh-append : (k l : List WriteBuffer) → Fresh k → Fresh l → Fresh (k ++ l)
Fresh-append [] l f g = g
Fresh-append (b ∷ k) l f g = (f.0, Fresh-append k l f.1 g)

Fresh-drop : (k l : List WriteBuffer) → Fresh (k ++ l) → Fresh l
Fresh-drop [] l f = f
Fresh-drop (b ∷ k) l f = Fresh-drop k l f.1

pub Fresh-complete : (l : List WriteBuffer) → Fresh l → list_uncomplete l ≡ false
Fresh-complete [] f = refl
Fresh-complete (b ∷ l) f = rw (f.0, ==_refl b.buffer) refl

pub is_empty-nil : (l : List WriteBuffer) → is_empty l ≡ true → l ≡ []
is_empty-nil [] h = refl
is_empty-nil (b ∷ l) h = cc

cut-stream : (l : List WriteBuffer) (n : ℕ) → front l n ++ stream (cut l n) ≡ stream l
cut-stream [] n = refl
cut-stream (b ∷ l) n =
    sym (append_assoc (take n b.bytes) (drop n b.bytes) (stream l))
    ∙ ap (λ t. t ++ stream l) (take-append-drop n b.bytes)

-- What is sent and what is left are the bytes that there were.
Sent-stream :
    {l : List WriteBuffer} {size : ℕ} {wire : List ℕ} {r : Sending}
    → Sent l size wire r
    → r.wire ++ stream r.list ≡ wire ++ stream l
Sent-stream {l} {size} {wire} {r} s =
    ap₂ (λ x y. x ++ stream y) s.written s.left
    ∙ append_assoc wire (stream s.done ++ front s.rest s.sz) (stream (cut s.rest s.sz))
    ∙ ap (λ t. wire ++ t)
        (append_assoc (stream s.done) (front s.rest s.sz) (stream (cut s.rest s.sz))
          ∙ ap (λ t. stream s.done ++ t) (cut-stream s.rest s.sz)
          ∙ sym (stream-append s.done s.rest)
          ∙ ap stream (sym s.parts))

-- The result of a call: it fails no assert, and keeps the order.
pub record Kept (result : Option (Socket × Bool)) (all : List Package) : Type 0 where
  pub socket : Socket
  pub closed : Bool
  pub returns : result ≡ some (socket, closed)
  pub ordered : Ordered socket all
  pub ended : is_invalid socket.kind ≡ true → (socket.high ≡ []) × (socket.low ≡ [])

pub still_open : {P : Type 0} {b : Bool} → b ≡ false → b ≡ true → P
still_open f t = cc

module _ {s : Socket} {all : List Package} (o : Ordered s all) where
  pub Ordered-waiting : (b : Bool) → Ordered (record s { waiting = b }) all
  Ordered-waiting b = record {
    order = o.order;
    highs = o.highs;
    lows = o.lows;
    out = o.out;
    fresh = o.fresh;
    size = o.size;
    usable = o.usable;
  }

  pub close_now-Kept : s.high ≡ [] → s.low ≡ [] → Kept (close_now s) all
  unfolding force_close
  close_now-Kept eh el = elim (Bool-cases (is_invalid s.kind)) [
    | inl t ↦ record {
      socket = s;
      closed = true;
      returns = rw t refl;
      ordered = o;
      ended = λ i. (eh, el);
    }
    | inr t ↦ record {
      socket = record s { kind = invalid; high = []; low = []; waiting = false };
      closed = true;
      returns = rw (t, o.usable) refl;
      ordered = record {
        order = o.order;
        highs = o.highs;
        lows = ap (λ l. lows_of o.order ++ contents l) (sym el) ∙ o.lows;
        out = ap (λ l. s.wire ++ stream l) (sym eh) ∙ o.out;
        fresh = tt;
        size = o.size ∙ ap₂ (λ k l. total k + total l) eh el;
        usable = refl;
      };
      ended = λ i. (refl, refl);
    }
  ]

module _ {s : Socket} {all : List Package} (o : Ordered s all) where
  pub with_high-Ordered :
      {r : Sending} → Sent s.high s.wb_size s.wire r → Ordered (with_high s r) all
  with_high-Ordered {r} k = record {
    order = o.order;
    highs = o.highs;
    lows = o.lows;
    out = Sent-stream k ∙ o.out;
    fresh = o.fresh;
    size = omega (arith, k.counted, o.size);
    usable = o.usable;
  }

  pub send_nothing-Kept :
      is_invalid s.kind ≡ false → s.high ≡ [] → s.low ≡ [] → Kept (send_nothing s) all
  unfolding send_nothing
  send_nothing-Kept live eh el = elim (Bool-cases (is_halfclose s.kind)) [
    | inl t ↦
        let k = close_now-Kept (Ordered-waiting o false) eh el in
        record {
          socket = k.socket;
          closed = k.closed;
          returns = rw (t, k.returns) refl;
          ordered = k.ordered;
          ended = k.ended;
        }
    | inr t ↦ record {
      socket = record s { waiting = false };
      closed = false;
      returns = rw t refl;
      ordered = Ordered-waiting o false;
      ended = still_open live;
    }
  ]

  -- Where the buffers `done` of the low list are sent, their packages follow in the order.
  module _ (eh : s.high ≡ []) (done rest : List WriteBuffer) (parts : s.low ≡ done ++ rest) where
    pub grown_highs : highs_of (o.order ++ as_low done) ≡ highs_of all
    grown_highs =
        highs_of-append o.order (as_low done)
        ∙ ap (λ t. highs_of o.order ++ t) (highs_of-as_low done)
        ∙ append-nil (highs_of o.order)
        ∙ o.highs

    pub grown_lows : lows_of (o.order ++ as_low done) ++ contents rest ≡ lows_of all
    grown_lows =
        ap (λ t. t ++ contents rest)
          (lows_of-append o.order (as_low done)
            ∙ ap (λ t. lows_of o.order ++ t) (lows_of-as_low done))
        ∙ append_assoc (lows_of o.order) (contents done) (contents rest)
        ∙ ap (λ t. lows_of o.order ++ t) (sym (contents-append done rest) ∙ ap contents (sym parts))
        ∙ o.lows

    pub grown_out : s.wire ++ stream done ≡ joined (o.order ++ as_low done)
    grown_out =
        ap₂ (λ x y. x ++ y)
          (sym (append-nil s.wire) ∙ ap (λ l. s.wire ++ stream l) (sym eh) ∙ o.out)
          (sym (joined-as_low done))
        ∙ sym (joined-append o.order (as_low done))

    pub grown_fresh : Fresh rest
    grown_fresh = Fresh-drop done rest (subst Fresh parts o.fresh)

    -- The low list is sent up to `rest`, and no buffer in part.
    pub low-Ordered :
        (size : ℕ)
        → size ≡ total rest
        → Ordered (record s { low = rest; wb_size = size; wire = s.wire ++ stream done }) all
    low-Ordered size e =
        let none_high : total rest ≡ total [] + total rest = omega arith in
        record {
          order = o.order ++ as_low done;
          highs = grown_highs;
          lows = grown_lows;
          out =
              ap (λ l. (s.wire ++ stream done) ++ stream l) eh
              ∙ append-nil (s.wire ++ stream done)
              ∙ grown_out;
          fresh = grown_fresh;
          size = e ∙ none_high ∙ ap (λ l. total l + total rest) (sym eh);
          usable = o.usable;
        }
