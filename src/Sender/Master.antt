-- ===== src/Sender/Master.antt =====
-- Master data in `SendPacket` of sw/spyvspy/sendpacket.cpp.
use yamashnik.Serial.Wait.{Safely, Safely->>=, Safely-map}
use yamashnik.Sender.Receive.{Full, InBuffer, wait_rx-InBuffer}
use Prim.Native.Nat.{zero}
use yamashnik.Sender.{
  master_frame, master_loop, Device, Sender, send_packet, header, wait_rx, rx_handler, transmit,
  send_packet_val,
}
use yamashnik.Prelude.{
  leb→le, append_assoc, ap, ◌∙◌, inl, inr, ◌++◌, ◌-◌, leb, Bool-cases, u16, ◌≤◌, ◌<◌, Bytes, List,
  ℕ, length, suc, ◌≡◌, All, arith, drop, Bool-cases, leb, leb→le, refl, ◌^◌, ap₂,
}
use yamashnik.Wire.Cmd
use yamashnik.Packet.{master_data_packet}
use yamashnik.Sender.Pieces.{
  data_frames, pieces, IsCut, pieces-IsCut, command, to_send, to_send-last, to_send-more,
}

InBuffer-sent : {a b : Bytes} {d : Device Sender} → a ≡ b → InBuffer a d → InBuffer b d
InBuffer-sent {a} {b} {d} e h = record {
  whole = h.whole;
  room = h.room;
  events = h.events;
  written = h.written ∙ e;
}

master_loop_lem :
    (fuel l : ℕ) (head buf : Bytes) (d : Device Sender)
    → l ≤ length buf
    → l < fuel
    → length d.self.buf ≡ 1024
    → All Full d.port.input
    → Safely
        (InBuffer (d.port.sent ++ to_send fuel head buf l))
        (master_loop fuel head buf (length buf) l d)
unfolding master_loop
master_loop_lem zero l head buf d h enough whole full = absurd (omega arith)
master_loop_lem (suc fuel) l head buf d h enough whole full =
    let sent = d.port.sent ++ master_frame head buf (length buf) l in
    Safely->>= (λ r. InBuffer sent r.1) (InBuffer (d.port.sent ++ to_send (suc fuel) head buf l))
      (wait_rx rx_handler 10 (record d {
        self = record (d.self) { pos = 0 };
        port = transmit (master_frame head buf (length buf) l) d.port;
      }))
      _
      (wait_rx-InBuffer 9 sent _
        (record { whole = whole; room = omega arith; events = full; written = refl }))
      λ (got, d') k. elim (Bool-cases (leb l 56)) [
        | inl last ↦ rw last (
            InBuffer-sent
              (ap (λ t. d.port.sent ++ t) (to_send-last fuel l head buf h (leb→le l 56 last))) k)
        | inr more ↦
            let longer : 56 < l = ground arith in
            rw more (
              Safely-map (master_loop fuel head buf (length buf) (l - 56) d')
                (λ d'' e.
                  InBuffer-sent
                    (ap (λ t. t ++ to_send fuel head buf (l - 56)) k.written
                      ∙ append_assoc d.port.sent _ _
                      ∙ ap (λ t. d.port.sent ++ t)
                          (to_send-more fuel l head buf h longer (omega arith)))
                    e)
                (master_loop_lem fuel (l - 56) head buf d' (omega arith) (omega arith) k.whole
                  k.events))
      ]

-- What `SendPacketVal` sends for a buffer of master data.
abbrev pub master_data_frames : ℕ → ℕ → Bytes → Bytes
master_data_frames src dst buf =
    data_frames (header src dst Cmd.base) Cmd.master_data (pieces (suc (length buf)) buf)

pub send_packet_val-InBuffer :
    (src dst : ℕ) (buf : Bytes) (d : Device Sender)
    → length buf < 2 ^ 16
    → length d.self.buf ≡ 1024
    → All Full d.port.input
    → Safely
        (InBuffer (d.port.sent ++ master_data_frames src dst buf))
        (send_packet_val (master_data_packet src dst buf (length buf)) d)
unfolding send_packet_val send_packet master_data_packet
send_packet_val-InBuffer src dst buf d small whole full =
    let len : u16 (length buf) ≡ length buf = omega arith in
    let start : length buf - length buf ≡ 0 = omega arith in
    let first : command (length buf) (length buf) ≡ Cmd.master_data = ground arith in
    rw len (
      Safely-map
        (master_loop (suc (length buf)) (header src dst Cmd.base) buf (length buf) (length buf) d)
        (λ d' e.
          InBuffer-sent
            (ap (λ t. d.port.sent ++ t) (sent_whole (header src dst Cmd.base) buf start first)) e)
        (master_loop_lem (suc (length buf)) (length buf) (header src dst Cmd.base) buf d
          (omega arith) (omega arith) whole full))
  where
    sent_whole :
        (head buf : Bytes)
        → length buf - length buf ≡ 0
        → command (length buf) (length buf) ≡ Cmd.master_data
        → to_send (suc (length buf)) head buf (length buf)
          ≡ data_frames head Cmd.master_data (pieces (suc (length buf)) buf)
    sent_whole head buf start first =
        ap₂ (λ c k. data_frames head c (pieces (suc (length buf)) (drop k buf))) first start

-- For a buffer below 2^16 bytes in a packet of master data, where the receive buffer has its 1024 bytes
-- and the port reports itself readable only with a byte to read: unless the program ends for want of the
-- device, `SendPacketVal` returns, whatever the workstation answers, and what it has sent are the packets
-- for pieces of at most 56 bytes that together are the buffer, the first with the command
-- NET_MASTER_DATA, the others with NET_MASTER_DATA2, the last, and only it, with the mark of a last packet.
pub send_packet_val-master_data :
    (src dst : ℕ) (buf : Bytes) (d : Device Sender)
    → length buf < 2 ^ 16
    → length d.self.buf ≡ 1024
    → All Full d.port.input
    → Safely
        (λ d'.
          (ps : List Bytes) × (d'.port.sent
            ≡ d.port.sent ++ data_frames (header src dst Cmd.base) Cmd.master_data ps)
          × IsCut buf ps)
        (send_packet_val (master_data_packet src dst buf (length buf)) d)
send_packet_val-master_data src dst buf d small whole full =
    Safely-map (send_packet_val (master_data_packet src dst buf (length buf)) d)
      (λ d' k. (
        pieces (suc (length buf)) buf,
        k.written,
        pieces-IsCut (suc (length buf)) buf (omega arith),
      ))
      (send_packet_val-InBuffer src dst buf d small whole full)
