-- ===== src/Ncopy.antt =====
-- The copying of files to a workstation: sw/spyvspy/ncopy.cpp. What is printed is not modelled, and
-- `stat` serves nothing else.
pub mod Copy
pub mod Sent
pub mod Ping
pub mod File
pub mod Heard
pub mod Copied
use yamashnik.Prelude.{
  ℕ, zero, suc, true, false, List, [], ◌∷◌, Option, none, some, Bytes, leb, length, take, drop, Run,
  done, exited, running, ◌>>=◌,
}
use yamashnik.Serial.{Device, until}
use yamashnik.Packet.{
  Packet, ping_packet, create_file_packet, master_data_packet, write_file_packet, close_file_packet,
}
use yamashnik.Sender.{Sender, send_packet_val, receive_packet}

-- `pingPong(ps, adr)`: it returns only when the workstation has answered.
unfoldable pub ping_pong : ℕ → ℕ → Device Sender → Run (Device Sender)
ping_pong fuel adr d = until fuel (λ d. send_packet_val (ping_packet 0 adr) d >>= receive_packet) d

-- A packet, and the end of the program if it is not acknowledged.
unfoldable pub acknowledged : Packet → Device Sender → Run (Device Sender)
acknowledged p d = do
  d1 ← send_packet_val p d
  (got, d2) ← receive_packet d1
  elim got [ true ↦ done d2 | false ↦ exited ]

-- The loop over the sectors of 128 bytes; `GetNetFCB` is the reply that was read last. `fread` gives 0
-- for what is left at the end, if that is less than a sector.
unfoldable pub send_sectors : ℕ → ℕ → Bytes → Device Sender → Run (Device Sender)
send_sectors zero student content d = running
send_sectors (suc fuel) student content d = elim (leb 128 (length content)) [
  | true ↦
      send_packet_val (master_data_packet 0 student (take 128 content) 128) d
      >>= (λ d1. acknowledged (write_file_packet 0 student d1.self.rx_data) d1)
      >>= send_sectors fuel student (drop 128 content)
  | false ↦ done d
]

-- `sendFile` behind its ping
unfoldable pub send_contents : Bytes → Bytes → ℕ → Device Sender → Run (Device Sender)
send_contents name content student d =
    acknowledged (create_file_packet 0 student name) d
    >>= send_sectors (suc (length content)) student content
    >>= λ d1. acknowledged (close_file_packet 0 student d1.self.rx_data) d1

-- `sendFile`, given what `fopen` finds
unfoldable pub send_file : ℕ → Bytes → Option Bytes → ℕ → Device Sender → Run (Device Sender)
send_file fuel name none student d = exited
send_file fuel name (some content) student d =
    ping_pong fuel student d >>= send_contents name content student

-- `ncopy`, over the files that its arguments name, from the port that `Setup` has opened.
unfoldable pub ncopy :
    ℕ → (Bytes → Option Bytes) → ℕ → List Bytes → Device Sender → Run (Device Sender)
ncopy fuel files student [] d = done d
ncopy fuel files student (name ∷ names) d =
    send_file fuel name (files name) student d >>= ncopy fuel files student names
