-- ===== src/Sender.antt =====
-- The sender of packets and receiver of replies: `PacketSender` of sw/spyvspy/sendpacket.h and
-- sendpacket.cpp.
use Prim.Native.Nat.{bit_and}
pub mod Receive
pub mod Pieces
pub mod Master
pub mod Reply
pub mod Frame
pub mod Ready
pub mod Answered
use yamashnik.Prelude.{
  ℕ, zero, suc, ◌+◌, ◌-◌, Bool, true, false, ◌&&◌, ◌||◌, [], ◌∷◌, ◌++◌, Option, none, some, Bytes,
  u8, u16, ltb, leb, ◌==◌, if◌then◌else◌, length, get_or, take, drop, Run, done, exited, fault,
  ◌>>=◌,
}
use yamashnik.Wire.{
  last_mark, intermediate_mark, read_escaped_byte, read_escaped_bytes, send_escaped_byte,
  send_escaped_word, send_header, send_escaped_block_with_checksum, header,
}
use yamashnik.Wire.Cmd
use yamashnik.Packet.{NetFcb, Packet}
use yamashnik.Serial.{Device, Handler, read, transmit, wait_rx, Port}

-- `buf` has 1024 bytes; `rx_data` is the reply that was read last.
pub record Sender : Type 0 where
  pub buf : Bytes
  pub pos : ℕ
  pub rx_data : NetFcb

-- `GetRxData(buf)`
unfoldable pub get_rx_data : Bytes → NetFcb
get_rx_data p = record {
  h = read_escaped_byte p 11;
  f = read_escaped_byte p 13;
  a = read_escaped_byte p 15;
  fcb = read_escaped_bytes p 17 37;
}

-- The replies whose payload is taken over.
unfoldable pub is_file_reply : ℕ → Bool
is_file_reply c = c == Cmd.re_create_file || c == Cmd.re_close_file || c == Cmd.re_write_file

-- `CheckPacket`. `&&` binds closer than `||`: behind 0xf0 any second byte will do.
unfoldable pub check_packet : Sender → Sender
unfolding is_file_reply
check_packet s =
    let first = get_or s.buf 0 0 in
    if (first == 0xf0 || (first == 0x78 && get_or s.buf 1 0 == 0))
      && get_or s.buf 3 0 == Cmd.base
      && is_file_reply (get_or s.buf 6 0)
    then record s { rx_data = get_rx_data s.buf }
    else s

-- Bytes written over a buffer from an offset on.
abbrev pub splice : Bytes → ℕ → Bytes → Bytes
splice buf at bs = take at buf ++ (bs ++ drop (at + length bs) buf)

unfoldable pub is_mark : ℕ → Bool
is_mark b = b == 0x83 || b == 0x97

-- `RxHandler` after its `read`. With nothing read yet the byte before the buffer would be looked at. Behind
-- a mark `CheckPacket` may look at the places up to 90, whatever number of bytes has been read, and the
-- message of the handler at the one behind them; these must be places of the buffer.
unfoldable pub received : Sender → Run (Bool × Sender)
unfolding is_mark
received s =
    if ltb 256 s.pos
    then done (false, record s { pos = 0 })
    else if s.pos == 0
    then fault
    else if is_mark (get_or s.buf (s.pos - 1) 0)
    then if ltb 90 (length s.buf) && ltb s.pos (length s.buf)
      then done (true, check_packet s)
      else fault
    else done (false, s)

-- `RxHandler`, given what its `read` has read.
unfoldable pub taken : Device Sender → Bytes × Port → Run (Bool × Device Sender)
unfolding received
taken d (bs, port) =
    let s = record (d.self) {
      buf = splice d.self.buf d.self.pos bs;
      pos = d.self.pos + length bs;
    } in
    received s >>= λ (got, s'). done (got, record { port = port; self = s' })

-- `RxHandler`
unfoldable pub rx_handler : Handler Sender
unfolding taken
rx_handler d = taken d (read (1024 - d.self.pos) d.port)

-- `ReceivePacket`
unfoldable pub receive_packet : Handler Sender
receive_packet d = wait_rx rx_handler 50 (record d { self = record (d.self) { pos = 0 } })

-- The packets with a command byte, a length, a block and a terminator.
abbrev pub block_frame : Bytes → ℕ → Bytes → ℕ → ℕ → Bytes
block_frame head cmd buf len mark =
    send_header head
    ++ (send_escaped_byte cmd
        ++ (send_escaped_word len ++ (send_escaped_block_with_checksum buf len ++ mark ∷ [])))

-- A round of the loop over master data, with `l` bytes still to be sent.
unfoldable pub master_frame : Bytes → Bytes → ℕ → ℕ → Bytes
master_frame head buf len l =
    block_frame head (if l == len then Cmd.master_data else Cmd.master_data2) (drop (len - l) buf)
      (if ltb 56 l then 56 else l) (if ltb 56 l then intermediate_mark else last_mark)

-- The loop, with the answer of `waitRx` ignored; each round but the last takes 56 off `l`. Its fuel is
-- more than the rounds.
unfoldable pub master_loop : ℕ → Bytes → Bytes → ℕ → ℕ → Device Sender → Run (Device Sender)
master_loop zero head buf len l d = fault
master_loop (suc fuel) head buf len l d =
    let started = record d {
      self = record (d.self) { pos = 0 };
      port = transmit (master_frame head buf len l) d.port;
    } in
    wait_rx rx_handler 10 started >>= λ (got, d'). elim (leb l 56) [
      | true ↦ done d'
      | false ↦ master_loop fuel head buf len (l - 56) d'
    ]

-- What `SendPacket` writes for a packet that takes one frame; `none` for a type that it does not know.
unfoldable pub frame : ℕ → ℕ → ℕ → Bytes → ℕ → ℕ → ℕ → Bool → Option Bytes
frame src dst cmd buf len addr1 addr2 last =
    let head = header src dst Cmd.base in
    let mark : ℕ = if last then last_mark else intermediate_mark in
    if cmd == Cmd.ping
    then some (send_header (header src dst Cmd.ping) ++ last_mark ∷ [])
    else if cmd == Cmd.create_file
        || cmd == Cmd.close_file
        || cmd == Cmd.write_file
        || cmd == Cmd.send_command
    then some (block_frame head cmd buf len last_mark)
    else if cmd == Cmd.shex_header
    then some (
        send_header head
        ++ (send_escaped_byte cmd
            ++ (send_escaped_word addr1 ++ (send_escaped_word addr2 ++ mark ∷ []))))
    else if cmd == Cmd.shex_data
    then some (block_frame head cmd buf len mark)
    else if cmd == Cmd.poke
    then some (
        send_header head
        ++ (send_escaped_byte cmd
            ++ (send_escaped_word addr1
                ++ (send_escaped_byte (u8 (bit_and addr2 255)) ++ last_mark ∷ []))))
    else none

unfoldable pub send_frame : Option Bytes → Device Sender → Run (Device Sender)
send_frame none d = exited
send_frame (some bs) d = done (record d { port = transmit bs d.port })

-- `SendPacket`; the length is a `uint16_t`.
unfoldable pub send_packet :
    ℕ → ℕ → ℕ → Bytes → ℕ → ℕ → ℕ → Bool → Device Sender → Run (Device Sender)
unfolding send_frame
send_packet src dst cmd buf len addr1 addr2 last d =
    if cmd == Cmd.master_data
    then master_loop (suc len) (header src dst Cmd.base) buf len len d
    else send_frame (frame src dst cmd buf len addr1 addr2 last) d

-- `SendPacketVal`
unfoldable pub send_packet_val : Packet → Device Sender → Run (Device Sender)
send_packet_val p =
    send_packet p.src_addr p.dst_addr p.cmd p.payload (u16 p.length) p.addr1 p.addr2 p.is_last
