-- ===== src/BasicSend.antt =====
-- The sender of BASIC, BIN and ROM programs: sw/spyvspy/basicsend.h and basicsend.cpp. Files are their
-- bytes; what is printed and the pauses are not modelled.
pub mod Files
pub mod Frames
pub mod Blocks
pub mod Exchange
pub mod Transfer
pub mod Sections
pub mod RomSent
pub mod BinSent
pub mod BasicSent
pub mod NetSent
pub mod Rom
pub mod Bin
use yamashnik.Prelude.{
  ℕ, zero, suc, ◌+◌, ◌-◌, ◌*◌, ◌/◌, ◌%◌, ◌^◌, true, false, [], ◌∷◌, ◌++◌, Bytes, u16, leb, ltb,
  if◌then◌else◌, length, take, drop, Run, done, fault, ◌>>=◌,
}
use yamashnik.Diags.{hex4}
use yamashnik.Serial.{Device, Handler}
use yamashnik.Packet.{sndcmd_packet, shex_header_packet, shex_data_packet, Packet}
use yamashnik.Sender.{Sender, send_packet_val, receive_packet}
use yamashnik.Ncopy.{ping_pong, acknowledged}

abbrev pub size_8k : ℕ
size_8k = 8 * 1024

abbrev pub size_16k : ℕ
size_16k = 16 * 1024

abbrev pub size_32k : ℕ
size_32k = 32 * 1024

-- `ROM2BIN_startCode`
abbrev pub rom2bin_start_code : Bytes
rom2bin_start_code =
    0xcd ∷ 0x38 ∷ 0x01 ∷ 0xe6 ∷ 0x30 ∷ 0x0f ∷ 0x0f ∷ 0x0f ∷ 0x0f ∷ 0x4f ∷ 0x06 ∷ 0x00 ∷ 0x21 ∷ 0xc5
    ∷ 0xfc ∷ 0x09 ∷ 0x7e ∷ 0xe6 ∷ 0x30 ∷ 0x0f ∷ 0x0f ∷ 0xb1 ∷ 0xf6 ∷ 0x80 ∷ 0x26 ∷ 0x40 ∷ 0xcd
    ∷ 0x24 ∷ 0x00 ∷ 0xf3 ∷ 0x11 ∷ 0x00 ∷ 0x40 ∷ 0x21 ∷ 0x00 ∷ 0x90 ∷ 0x01 ∷ 0x00 ∷ 0x40 ∷ 0xed
    ∷ 0xb0 ∷ 0x2a ∷ 0x02 ∷ 0x40 ∷ 0xe9 ∷ 0x3e ∷ 0x80 ∷ 0x26 ∷ 0x40 ∷ 0xcd ∷ 0x24 ∷ 0x00 ∷ 0xc9 ∷ []

-- The line, and the global `binBuf`, which has `SIZE32K + sizeof(ROM2BIN_startCode)` bytes.
pub record Basic : Type 0 where
  pub line : Device Sender
  pub bin_buf : Bytes

-- The part of `binBuf` that a packet reads.
unfoldable pub block_at : ℕ → ℕ → Bytes → Run Bytes
block_at offset len buf =
    if leb (offset + len) (length buf) then done (take len (drop offset buf)) else fault

-- `MAXBLKSIZE` is 56. The rounds of the loop, from an offset on.
unfoldable pub full_blocks : ℕ → ℕ → ℕ → Bytes → Device Sender → Run (Device Sender)
full_blocks zero student offset buf d = done d
full_blocks (suc n) student offset buf d = do
  block ← block_at offset 56 buf
  d1 ← acknowledged (shex_data_packet 0 student block 56 false) d
  full_blocks n student (offset + 56) buf d1

-- A packet, with the answer of `ReceivePacket`
unfoldable pub answered : Packet → Handler Sender
answered p d = send_packet_val p d >>= receive_packet

-- `sendBlocks(start, end)`. With `end` below `start` there is no full block, and the length of the last
-- packet is cut to sixteen bits by `SendPacket`.
unfoldable pub send_blocks : ℕ → ℕ → ℕ → Bytes → Device Sender → Run (Device Sender)
send_blocks student start end buf d = do
  let lastblock = (end - start) / 56
  let len = u16 (2 ^ 16 + (end + 1) - (start + 56 * lastblock))
  d1 ← full_blocks lastblock student 0 buf d
  block ← block_at (56 * lastblock) len buf
  (got, d2) ← answered (shex_data_packet 0 student block len true) d1
  done d2

-- `sendSHEXHeader`
unfoldable pub send_shex_header : ℕ → ℕ → ℕ → ℕ → Handler Sender
send_shex_header fuel student start end d =
    ping_pong fuel student d >>= answered (shex_header_packet 0 student start end)

-- `SendCommand`
unfoldable pub send_command : ℕ → Bytes → Handler Sender
send_command student cmd d = answered (sndcmd_packet 0 student cmd) d

-- ` _nete:DefUsr=&H%.4x:?Usr(0):_neti`
abbrev pub run_command : ℕ → Bytes
run_command defusr =
    (b' ' ∷ b'_' ∷ b'n' ∷ b'e' ∷ b't' ∷ b'e' ∷ b':' ∷ b'D' ∷ b'e' ∷ b'f' ∷ b'U' ∷ b's' ∷ b'r' ∷ b'='
      ∷ b'&' ∷ b'H' ∷ [])
    ++ (hex4 defusr
        ++ (b':' ∷ b'?' ∷ b'U' ∷ b's' ∷ b'r' ∷ b'(' ∷ b'0' ∷ b')' ∷ b':' ∷ b'_' ∷ b'n' ∷ b'e' ∷ b't'
            ∷ b'i' ∷ []))

-- `runROM`, whose last answer is only printed
unfoldable pub run_rom : ℕ → ℕ → ℕ → Device Sender → Run (Device Sender)
run_rom fuel student defusr d = do
  (got, d1) ← ping_pong fuel student d >>= answered (sndcmd_packet 0 student (run_command defusr))
  done d1
