-- ===== src/Wire/Escape.antt =====
-- The escape code of sw/spyvspy/sendpacket.cpp on bytes and words.
use yamashnik.Prelude.{
  ℕ, ◌/◌, ◌%◌, ◌^◌, ◌<◌, ◌≡◌, refl, [], ◌∷◌, ◌++◌, Bytes, IsByte, All, arith, length,
}
use yamashnik.Prelude.{top_bit, low_bits, low_byte}
use yamashnik.Wire.{read_escaped_byte, read_escaped_word, send_escaped_byte, send_escaped_word}

-- A byte is written as its top bit and its seven low bits.
pub send_escaped_byte_lem : (b : ℕ) → b < 256 → send_escaped_byte b ≡ b / 128 ∷ b % 128 ∷ []
unfolding send_escaped_byte
send_escaped_byte_lem b h = rw (top_bit b h, low_bits b h)

pub send_escaped_word_lem :
    (w : ℕ)
    → w < 2 ^ 16
    → send_escaped_word w ≡ w / 256 / 128 ∷ w / 256 % 128 ∷ w % 256 / 128 ∷ w % 256 % 128 ∷ []
unfolding send_escaped_word
send_escaped_word_lem w h =
    let e : w / 2 ^ 8 % 2 ^ 8 ≡ w / 256 = omega arith in
    rw (
      e,
      low_byte w h,
      send_escaped_byte_lem (w / 256) (omega arith),
      send_escaped_byte_lem (w % 256) (omega arith),
    )

-- `ReadEscapedByte` reads back what `SendEscapedByte` wrote, whatever follows.
pub read_escaped_byte-send_escaped_byte :
    (b : ℕ) (rest : Bytes) → IsByte b → read_escaped_byte (send_escaped_byte b ++ rest) 0 ≡ b
unfolding read_escaped_byte
read_escaped_byte-send_escaped_byte b rest h = rw (send_escaped_byte_lem b h) (ground arith)

-- `ReadEscapedWord` reads back a word below 2^16 that `SendEscapedWord` wrote, whatever follows.
pub read_escaped_word-send_escaped_word :
    (w : ℕ) (rest : Bytes) → w < 2 ^ 16 → read_escaped_word (send_escaped_word w ++ rest) 0 ≡ w
unfolding read_escaped_word read_escaped_byte
read_escaped_word-send_escaped_word w rest h = rw (send_escaped_word_lem w h) (ground arith)

-- What a line carries between the header and the terminator has no top bit.
abbrev pub IsSeven : ℕ → Type 0
IsSeven b = b < 128

pub send_escaped_byte-IsSeven : (b : ℕ) → IsByte b → All IsSeven (send_escaped_byte b)
send_escaped_byte-IsSeven b h = rw (send_escaped_byte_lem b h) (omega arith)

pub send_escaped_word-IsSeven : (w : ℕ) → w < 2 ^ 16 → All IsSeven (send_escaped_word w)
send_escaped_word-IsSeven w h = rw (send_escaped_word_lem w h) (omega arith)

pub length-send_escaped_byte : (b : ℕ) → length (send_escaped_byte b) ≡ 2
unfolding send_escaped_byte
length-send_escaped_byte b = refl

pub length-send_escaped_word : (w : ℕ) → length (send_escaped_word w) ≡ 4
unfolding send_escaped_word send_escaped_byte
length-send_escaped_word w = refl
