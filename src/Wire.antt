-- ===== src/Wire.antt =====
-- The framing of packets on the line: sw/spyvspy/commands.h, `PacketUtil` and the `Send…` methods
-- of `PacketSender` in sw/spyvspy/sendpacket.cpp.
-- A method that writes to the line is the list of the bytes that it writes, in order.
pub mod Cmd
pub mod Escape
pub mod Block
use Prim.Native.Nat.{bit_and}
use yamashnik.Prelude.{
  ℕ, zero, suc, ◌+◌, ◌*◌, ◌/◌, ◌%◌, ◌^◌, List, [], ◌∷◌, ◌++◌, Bytes, u8, u16, ◌==◌, if◌then◌else◌,
  get_or, take, ◌≡◌, refl,
}

-- `LAST` and `INTERMEDIATE`, the two bytes that end a packet.
abbrev pub last_mark : ℕ
last_mark = 0x83

abbrev pub intermediate_mark : ℕ
intermediate_mark = 0x97

-- `ReadEscapedByte(p + i)`. The callers' offsets lie inside the receive buffer of 1024 bytes.
unfoldable pub read_escaped_byte : Bytes → ℕ → ℕ
read_escaped_byte p i = u8 (get_or p (i + 1) 0 + (if get_or p i 0 == 0 then 0 else 128))

-- `ReadEscapedWord(p + i)`
unfoldable pub read_escaped_word : Bytes → ℕ → ℕ
read_escaped_word p i = u16 (read_escaped_byte p i * 2 ^ 8 + read_escaped_byte p (i + 2))

unfoldable pub send_escaped_byte : ℕ → Bytes
send_escaped_byte b = (bit_and b 128 / 2 ^ 7) ∷ bit_and b 127 ∷ []

-- The argument is a `uint16_t`; the byte parameter cuts what is passed on to eight bits.
unfoldable pub send_escaped_word : ℕ → Bytes
send_escaped_word w = send_escaped_byte (u8 (w / 2 ^ 8)) ++ send_escaped_byte (bit_and w 255)

-- The loop over the five bytes of a header.
unfoldable pub send_header : Bytes → Bytes
send_header h = take 5 h

-- The loop of `SendEscapedBlockWithChecksum`: what it writes, and the checksum that it leaves.
unfoldable pub escaped_loop : ℕ → Bytes → Bytes
escaped_loop checksum [] = send_escaped_word checksum
escaped_loop checksum (b ∷ buf) = send_escaped_byte b ++ escaped_loop (u16 (checksum + b)) buf

unfoldable pub send_escaped_block_with_checksum : Bytes → ℕ → Bytes
send_escaped_block_with_checksum buf len = escaped_loop 0 (take len buf)

-- The loop of `GetRxData`: `n` escaped bytes from offset `i` on.
unfoldable pub read_escaped_bytes : Bytes → ℕ → ℕ → Bytes
read_escaped_bytes p i zero = []
read_escaped_bytes p i (suc n) = read_escaped_byte p i ∷ read_escaped_bytes p (i + 2) n

-- `Header` of `SendPacket` as it is once its fields are set; a `uint8_t` element takes an `int`.
unfoldable pub header : ℕ → ℕ → ℕ → Bytes
header src dst kind = 0xf0 ∷ 0x00 ∷ u8 dst ∷ kind ∷ u8 src ∷ []
