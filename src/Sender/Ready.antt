-- ===== src/Sender/Ready.antt =====
-- Steps of an exchange of packets through `PacketSender` of sw/spyvspy/sendpacket.cpp.
use yamashnik.Prelude.{◌≡◌, ap, ◌∙◌, Bytes, All, ◌++◌, append_assoc, length, done}
use yamashnik.Serial.{Device, transmit}
use yamashnik.Serial.Wait.{Safely, Safely-map}
use yamashnik.Packet.{Packet}
use yamashnik.Sender.{Sender, send_packet_val, receive_packet}
use yamashnik.Sender.Receive.{Full, InBuffer, receive_packet-InBuffer}

-- Between two steps: the receive buffer is whole, and `sent` has been sent.
pub record Ready (sent : Bytes) (d : Device Sender) : Type 0 where
  pub whole : length d.self.buf ≡ 1024
  pub events : All Full d.port.input
  pub written : d.port.sent ≡ sent

pub InBuffer-Ready :
    {sent : Bytes} (all : Bytes) (d : Device Sender) → InBuffer sent d → sent ≡ all → Ready all d
InBuffer-Ready all d h e = record { whole = h.whole; events = h.events; written = h.written ∙ e }

pub Ready-assoc :
    (a b c : Bytes) (d : Device Sender) → Ready ((a ++ b) ++ c) d → Ready (a ++ (b ++ c)) d
Ready-assoc a b c d h = record {
  whole = h.whole;
  events = h.events;
  written = h.written ∙ append_assoc a b c;
}

-- The packet takes one frame.
abbrev pub Takes : Packet → Bytes → Type 0
Takes p bs =
    (d : Device Sender) → send_packet_val p d ≡ done (record d { port = transmit bs d.port })

-- Once the packet has been sent.
pub sent-Ready :
    (bs sent : Bytes) (d : Device Sender)
    → Ready sent d
    → Ready (sent ++ bs) (record d { port = transmit bs d.port })
sent-Ready bs sent d h = record {
  whole = h.whole;
  events = h.events;
  written = ap (λ t. t ++ bs) h.written;
}

pub receive_packet-Ready :
    (sent : Bytes) (d : Device Sender)
    → Ready sent d
    → Safely (λ r. Ready sent r.1) (receive_packet d)
receive_packet-Ready sent d h =
    Safely-map (receive_packet d) (λ r k. InBuffer-Ready sent r.1 k h.written)
      (receive_packet-InBuffer d h.whole h.events)
