-- ===== src/Gate/Delivery.antt =====
-- service-src/service_gate.c with lualib-src/lua-netpack.c: what a client packs, the gate sends on.
use Prim.Native.Nat.{bit_and, bit_or}
use paohuzi_server.Shared.{
  refl, true, ◌≢◌, ◌==◌, ==_ne, ℕ, zero, suc, ◌+◌, ◌-◌, ◌*◌, ◌/◌, ◌%◌, ◌^◌, ◌<◌, ◌≡◌, some, List,
  [], ◌∷◌, ◌++◌, map, arith, sym, ◌∙◌, ap, ap₂, subst, Option-cases, inl, inr, length,
  length-append, take-all, drop-all, take-append_left, drop-append_left,
}
use paohuzi_server.Shared.Bits.{bit_and_ones, bit_or_low}
use paohuzi_server.Netpack.{pack}
use paohuzi_server.Netpack.Delivery.{pack_all}
use paohuzi_server.Gate.{send, Connection, Gate, Effect, header_value, message_for}
use paohuzi_server.Gate.Packages.{
  next, body, got, waiting, keep, packages, packages-suc, next-header, next-short, body-got, finish,
}
use paohuzi_server.Gate.Dispatch.{Holds, Keeps}
use paohuzi_server.Gate.Pieces.{receive, receive_lem, joined, IsWaiting}

-- The packages that are not empty
abbrev pub non_empty : List (List ℕ) → List (List ℕ)
non_empty [] = []
non_empty (p ∷ ps) = keep p (non_empty ps)

header_value-bytes :
    (n : ℕ)
    → n < 2 ^ 16
    → header_value (bit_and (n / 2 ^ 8) (2 ^ 8 - 1) ∷ (bit_and n (2 ^ 8 - 1) ∷ [])) ≡ n
unfolding header_value
header_value-bytes n small =
    let high : bit_and (n / 2 ^ 8) (2 ^ 8 - 1) ≡ n / 2 ^ 8 =
      omega (arith, bit_and_ones 8 (n / 2 ^ 8)) in
    let low : bit_and n (2 ^ 8 - 1) ≡ n % 2 ^ 8 = bit_and_ones 8 n in
    ap₂ (λ a b. bit_or (a * 2 ^ 8) b) high low
    ∙ bit_or_low 8 (n / 2 ^ 8) (n % 2 ^ 8) (omega arith)
    ∙ omega arith

pack-some :
    (p : List ℕ) {first : List ℕ}
    → pack p ≡ some first
    → (length p < 2 ^ 16)
      × (first ≡ bit_and (length p / 2 ^ 8) (2 ^ 8 - 1) ∷ (bit_and (length p) (2 ^ 8 - 1) ∷ p))
unfolding pack
pack-some p {first} e = ground (arith, e)

next-pack :
    (p others : List ℕ) {first : List ℕ}
    → pack p ≡ some first
    → next 2 0 (first ++ others) ≡ got p others
next-pack p others {first} e =
    let (small, is) = pack-some p e in
    let hi : ℕ = bit_and (length p / 2 ^ 8) (2 ^ 8 - 1) in
    let lo : ℕ = bit_and (length p) (2 ^ 8 - 1) in
    ap (λ l. next 2 0 (l ++ others)) is
    ∙ next-header 2 (hi ∷ lo ∷ (p ++ others)) (omega arith)
    ∙ ap (λ n. body n (p ++ others)) (header_value-bytes (length p) small)
    ∙ body-got (length p) (p ++ others) (omega (arith, length-append p others)) (omega arith)
    ∙ ap₂ got
        (take-append_left (length p) p others (omega arith) ∙ take-all (length p) p (omega arith))
        (drop-append_left (length p) p others (omega arith)
          ∙ ap (λ k. k ++ others) (drop-all (length p) p (omega arith)))

packages-pack_all :
    (n : ℕ) (ps : List (List ℕ)) {stream : List ℕ}
    → pack_all ps ≡ some stream
    → length stream < n
    → packages n 2 0 stream ≡ (non_empty ps, waiting 0 [])
packages-pack_all zero ps e less = absurd (omega arith)
packages-pack_all (suc n) [] {stream} e less =
    let empty : stream ≡ [] = cc in
    ap (packages (suc n) 2 0) empty
    ∙ packages-suc n 2 0 []
    ∙ ap (λ x. finish x (packages n 2 0)) (next-short 2 [] (omega arith))
packages-pack_all (suc n) (p ∷ ps) {stream} e less = elim (Option-cases (pack p)) [
  | inl e1 ↦ absurd (ground (arith, e, e1))
  | inr (first, f) ↦ elim (Option-cases (pack_all ps)) [
    | inl e1 ↦ absurd (ground (arith, e, f, e1))
    | inr (others, f') ↦
        let whole : stream ≡ first ++ others = ground (arith, e, f, f') in
        let two : length first ≡ length p + 2 = ap length (pack-some p f).1 ∙ omega arith in
        let total : length stream ≡ length first + length others =
          ap length whole ∙ length-append first others in
        ap (packages (suc n) 2 0) whole
        ∙ packages-suc n 2 0 (first ++ others)
        ∙ ap (λ x. finish x (packages n 2 0)) (next-pack p others f)
        ∙ ap (λ r. (keep p r.0, r.1)) (packages-pack_all n ps f' (omega arith))
  ]
]

-- To whom the gate sends the packages of a connection, from which source and with which type and text:
-- to the broker if there is one, else to the connection's agent, else, with the text that says which
-- connection it is, to the watchdog.
pub data Destination (data_text : ℕ → List ℕ) (g : Gate) (c : Connection)
    : (List ℕ → Effect) → Type 0 where
  to_broker :
      g.broker ≢ 0 → Destination data_text g c (send 0 g.broker (bit_or g.client_tag 0x10000))
  to_agent :
      g.broker ≡ 0
      → c.agent ≢ 0
      → Destination data_text g c (send c.client c.agent (bit_or g.client_tag 0x10000))
  to_watchdog :
      g.broker ≡ 0
      → c.agent ≡ 0
      → g.watchdog ≢ 0
      → Destination data_text g c (λ bytes. send 0 g.watchdog 0x10000 (data_text c.id ++ bytes))

message_for_lem :
    (data_text : ℕ → List ℕ) (g : Gate) (c : Connection) {message : List ℕ → Effect}
    → Destination data_text g c message
    → message_for data_text g c ≡ some message
unfolding message_for
message_for_lem data_text g c (to_broker some_broker) = rw (==_ne g.broker 0 some_broker) refl
message_for_lem data_text g c (to_agent no_broker some_agent) =
    let t : (g.broker == 0) ≡ true = ground arith in rw (t, ==_ne c.agent 0 some_agent) refl
message_for_lem data_text g c (to_watchdog no_broker no_agent some_watchdog) =
    let t : (g.broker == 0) ≡ true = ground arith in
    let u : (c.agent == 0) ≡ true = ground arith in rw (t, u, ==_ne g.watchdog 0 some_watchdog) refl

-- The packages that a client packs with `lpack` and sends on a new connection of a gate with headers of
-- 2 bytes are sent on by the gate in order, each in one message, however their stream is cut into
-- pieces; only the empty ones are passed over. They go to the broker, or else to the agent of the
-- connection, or else to the watchdog, of which there must be one. Nothing is left in the buffer. The
-- stream has less than 2^31 bytes.
pub gate_delivery :
    (data_text : ℕ → List ℕ) (g : Gate) (message : List ℕ → Effect) (c : Connection)
    (ps chunks : List (List ℕ)) {stream : List ℕ}
    → g.header_size ≡ 2
    → Destination data_text g c message
    → Holds c.buffer 0 []
    → pack_all ps ≡ some stream
    → joined chunks ≡ stream
    → length stream < 2 ^ 31
    → (c' : Connection) × (receive data_text g c chunks ≡ some (map message (non_empty ps), c'))
      × Holds c'.buffer 0 []
gate_delivery data_text g message c ps chunks {stream} two d b packed whole small =
    let same : length (joined chunks) ≡ length stream = ap length whole in
    let n : ℕ = length stream + 1 in
    let all : packages n g.header_size 0 (joined chunks) ≡ (non_empty ps, waiting 0 []) =
      ap₂ (λ k l. packages n k 0 l) two whole ∙ packages-pack_all n ps packed (omega arith) in
    let (c', e, kept) =
      receive_lem data_text g message c chunks n (omega arith) (message_for_lem data_text g c d) b
        (omega arith) (omega arith) (subst (λ x. IsWaiting x.1) (sym all) tt) in
    (c', e ∙ ap (λ x. some (map message x.0, c')) all, subst (λ x. Keeps c'.buffer x.1) all kept)
