-- ===== src/Wire/Block.antt =====
-- Payloads under the escape code of sw/spyvspy/sendpacket.cpp, with their checksum.
use yamashnik.Prelude.{
  ℕ, zero, suc, ◌+◌, ◌*◌, ◌^◌, ◌<◌, ◌≡◌, refl, sym, ap, ap₂, ◌∙◌, [], ◌∷◌, ◌++◌, Bytes, IsByte, u16,
  All, arith, length, length-append, get_or, append_assoc, All-append, take,
}
use yamashnik.Wire.{
  read_escaped_byte, read_escaped_bytes, send_escaped_byte, send_escaped_word, escaped_loop,
  send_escaped_block_with_checksum,
}
use yamashnik.Wire.Escape.{
  read_escaped_byte-send_escaped_byte, IsSeven, send_escaped_byte-IsSeven, length-send_escaped_byte,
}

-- The escaped bytes of a payload, and the sum of its bytes.
abbrev pub escaped : Bytes → Bytes
escaped [] = []
escaped (b ∷ buf) = send_escaped_byte b ++ escaped buf

abbrev pub sum : Bytes → ℕ
sum [] = 0
sum (b ∷ buf) = b + sum buf

pub escaped_loop_lem :
    (c : ℕ) (buf : Bytes)
    → c < 2 ^ 16
    → escaped_loop c buf ≡ escaped buf ++ send_escaped_word (u16 (c + sum buf))
unfolding escaped_loop
escaped_loop_lem c [] h = let e : u16 (c + 0) ≡ c = omega arith in rw e
escaped_loop_lem c (b ∷ buf) h =
    let e : u16 (u16 (c + b) + sum buf) ≡ u16 (c + (b + sum buf)) = omega arith in
    rw (escaped_loop_lem (u16 (c + b)) buf (omega arith), e)
      (sym (append_assoc (send_escaped_byte b) _ _))

-- A payload block is the escaped form of the first `len` bytes of the buffer, or of all where it is
-- shorter, followed by the escaped word of their sum modulo 2^16.
pub block_lem :
    (buf : Bytes) (len : ℕ)
    → send_escaped_block_with_checksum buf len
      ≡ escaped (take len buf) ++ send_escaped_word (u16 (sum (take len buf)))
unfolding send_escaped_block_with_checksum
block_lem buf len =
    let e : 0 + sum (take len buf) ≡ sum (take len buf) = omega arith in
    escaped_loop_lem 0 (take len buf) (omega arith) ∙ rw e

pub length-escaped : (buf : Bytes) → length (escaped buf) ≡ 2 * length buf
length-escaped [] = refl
length-escaped (b ∷ buf) = omega (
  arith,
  length-append (send_escaped_byte b) (escaped buf),
  length-send_escaped_byte b,
  length-escaped buf,
)

pub escaped-IsSeven : (buf : Bytes) → All IsByte buf → All IsSeven (escaped buf)
escaped-IsSeven [] h = tt
escaped-IsSeven (b ∷ buf) h =
    All-append IsSeven (send_escaped_byte b) (escaped buf) (send_escaped_byte-IsSeven b h.0)
      (escaped-IsSeven buf h.1)

get_or_behind :
    (pre ys : Bytes) (i n : ℕ) → length pre ≡ n → get_or (pre ++ ys) (n + i) 0 ≡ get_or ys i 0
get_or_behind [] ys i n h = let e : n + i ≡ i = omega arith in rw e
get_or_behind (x ∷ pre) ys i zero h = absurd (omega arith)
get_or_behind (x ∷ pre) ys i (suc n) h =
    let e : suc n + i ≡ suc (n + i) = omega arith in rw e (get_or_behind pre ys i n (omega arith))

-- Reading at an offset is reading what stands from there on.
pub read_escaped_byte_behind :
    (pre ys : Bytes) (n : ℕ)
    → length pre ≡ n
    → read_escaped_byte (pre ++ ys) n ≡ read_escaped_byte ys 0
unfolding read_escaped_byte
read_escaped_byte_behind pre ys n h =
    let e : n ≡ n + 0 = omega arith in
    rw (get_or_behind pre ys 1 n h, ap (λ k. get_or (pre ++ ys) k 0) e, get_or_behind pre ys 0 n h)

-- For a list of bytes whose escaped form lies in a buffer from some offset on, the loop that reads
-- as many escaped bytes from that offset gives the list back, whatever stands before and behind.
pub read_escaped_bytes-escaped :
    (pre buf rest : Bytes) (n : ℕ)
    → All IsByte buf
    → length pre ≡ n
    → read_escaped_bytes (pre ++ (escaped buf ++ rest)) n (length buf) ≡ buf
unfolding read_escaped_bytes
read_escaped_bytes-escaped pre [] rest n h e = refl
read_escaped_bytes-escaped pre (b ∷ buf) rest n h e = ap₂ ◌∷◌ first (
    ap (λ p. read_escaped_bytes p (n + 2) (length buf)) regroup
    ∙ read_escaped_bytes-escaped (pre ++ send_escaped_byte b) buf rest (n + 2) h.1
        (omega (arith, length-append pre (send_escaped_byte b), length-send_escaped_byte b)))
  where
    first : read_escaped_byte (pre ++ ((send_escaped_byte b ++ escaped buf) ++ rest)) n ≡ b
    first =
        read_escaped_byte_behind pre ((send_escaped_byte b ++ escaped buf) ++ rest) n e
        ∙ ap (λ p. read_escaped_byte p 0) (append_assoc (send_escaped_byte b) _ _)
        ∙ read_escaped_byte-send_escaped_byte b (escaped buf ++ rest) h.0

    regroup :
        pre ++ ((send_escaped_byte b ++ escaped buf) ++ rest)
        ≡ (pre ++ send_escaped_byte b) ++ (escaped buf ++ rest)
    regroup = simp append_assoc
