-- ===== src/Gate/Tests.antt =====
-- service-src/databuffer.h and service-src/service_gate.c: the theorems at concrete inputs.
use paohuzi_server.Shared.{ℕ, ◌+◌, ◌≡◌, refl, some, List, [], ◌∷◌, ◌++◌, arith}
use paohuzi_server.Netpack.{pack}
use paohuzi_server.Netpack.Delivery.{pack_all}
use paohuzi_server.Gate.{DataBuffer, Connection, Gate, Effect, send, databuffer_read}
use paohuzi_server.Gate.Buffer.{IsBuffer, databuffer_read_lem}
use paohuzi_server.Gate.Dispatch.{Holds}
use paohuzi_server.Gate.Pieces.{receive}
use paohuzi_server.Gate.Delivery.{Destination, gate_delivery}

abbrev buffer : DataBuffer
buffer = record { header = 0; offset = 1; size = 3; messages = (9 ∷ 0 ∷ []) ∷ ((2 ∷ 7 ∷ []) ∷ []) }

buffer-IsBuffer : IsBuffer buffer (0 ∷ 2 ∷ 7 ∷ [])
buffer-IsBuffer = record { holds = refl; inside = omega arith; counted = omega arith }

databuffer_read_example :
    (db' : DataBuffer) × (databuffer_read buffer 2 ≡ some (0 ∷ 2 ∷ [], db'))
    × IsBuffer db' (7 ∷ [])
    × (db'.header ≡ 0)
databuffer_read_example =
    databuffer_read_lem buffer (0 ∷ 2 ∷ 7 ∷ []) 2 buffer-IsBuffer (omega arith) (omega arith)

abbrev gate : Gate
gate = record { watchdog = 5; broker = 0; client_tag = 3; header_size = 2 }

abbrev connection : Connection
connection = record { id = 8; agent = 0; client = 0; buffer = buffer }

-- Stands for `snprintf`.
abbrev data_text : ℕ → List ℕ
data_text id = (48 + id) ∷ (32 ∷ [])

abbrev to_watchdog : List ℕ → Effect
to_watchdog bytes = send 0 5 0x10000 (data_text 8 ++ bytes)

abbrev fresh : Connection
fresh = record {
  id = 8;
  agent = 0;
  client = 0;
  buffer = record { header = 0; offset = 0; size = 0; messages = [] };
}

two_packed : pack_all ((7 ∷ 6 ∷ []) ∷ ((4 ∷ []) ∷ [])) ≡ some (0 ∷ 2 ∷ 7 ∷ 6 ∷ 0 ∷ 1 ∷ 4 ∷ [])
unfolding pack
two_packed = refl

gate_delivery_example :
    (c' : Connection) × (receive data_text gate fresh
        ((0 ∷ []) ∷ ((2 ∷ 7 ∷ []) ∷ ((6 ∷ 0 ∷ 1 ∷ 4 ∷ []) ∷ [])))
      ≡ some (to_watchdog (7 ∷ 6 ∷ []) ∷ (to_watchdog (4 ∷ []) ∷ []), c'))
    × Holds c'.buffer 0 []
gate_delivery_example =
    gate_delivery data_text gate to_watchdog fresh ((7 ∷ 6 ∷ []) ∷ ((4 ∷ []) ∷ []))
      ((0 ∷ []) ∷ ((2 ∷ 7 ∷ []) ∷ ((6 ∷ 0 ∷ 1 ∷ 4 ∷ []) ∷ []))) refl
      (Destination.to_watchdog refl refl (λ e. omega (arith, e)))
      (record { buffer = record { holds = refl; inside = refl; counted = refl }; header = refl })
      two_packed refl (omega arith)
