-- ===== src/Sender/Frame.antt =====
-- The packets of one frame in `SendPacket` of sw/spyvspy/sendpacket.cpp, as a receiver sees them.
use Prim.Native.Nat.{zero}
use yamashnik.Prelude.{
  ℕ, ◌^◌, ◌<◌, ◌≡◌, ◌⊎◌, refl, inl, inr, Bool, true, false, [], ◌∷◌, ◌++◌, Option, none, some,
  Bytes, IsByte, All, arith, append_assoc, All-append, if◌then◌else◌, u8, u16, length, take, suc,
}
use yamashnik.Wire.{
  last_mark, intermediate_mark, header, send_header, send_escaped_byte, send_escaped_word,
  send_escaped_block_with_checksum,
}
use yamashnik.Wire.Cmd
use yamashnik.Wire.Escape.{IsSeven, send_escaped_byte-IsSeven, send_escaped_word-IsSeven}
use yamashnik.Wire.Block.{escaped, sum, block_lem, escaped-IsSeven}
use yamashnik.Sender.{block_frame, frame, bit_and}

-- A header of five bytes that starts with 0xf0 0x00, bytes without the top bit, and one of the two marks.
pub record Framed (bs : Bytes) : Type 0 where
  pub rest_of_header : Bytes
  pub body : Bytes
  pub mark : ℕ
  pub parts : bs ≡ (0xf0 ∷ 0x00 ∷ rest_of_header) ++ (body ++ mark ∷ [])
  pub five : length rest_of_header ≡ 3
  pub seven : All IsSeven body
  pub ends : (mark ≡ last_mark) ⊎ (mark ≡ intermediate_mark)

-- The packet, where there is one.
record AllFramed (o : Option Bytes) : Type 0 where
  framed : (bs : Bytes) → o ≡ some bs → Framed bs

none-AllFramed : AllFramed none
none-AllFramed = record { framed = λ bs e. cc e }

some-AllFramed : {bs : Bytes} → Framed bs → AllFramed (some bs)
some-AllFramed {bs} h = record { framed = λ bs' e. let same : bs ≡ bs' = cc e in rw same at h }

if-AllFramed :
    (b : Bool) (x y : Option Bytes) → AllFramed x → AllFramed y → AllFramed (if b then x else y)
if-AllFramed true x y h k = h
if-AllFramed false x y h k = k

header-Framed :
    (src dst kind mark : ℕ) (body bs : Bytes)
    → bs ≡ send_header (header src dst kind) ++ (body ++ mark ∷ [])
    → All IsSeven body
    → (mark ≡ last_mark) ⊎ (mark ≡ intermediate_mark)
    → Framed bs
unfolding header send_header
header-Framed src dst kind mark body bs e h m = record {
  rest_of_header = u8 dst ∷ kind ∷ u8 src ∷ [];
  body = body;
  mark = mark;
  parts = e;
  five = refl;
  seven = h;
  ends = m;
}

All-take : (n : ℕ) (bs : Bytes) → All IsByte bs → All IsByte (take n bs)
All-take zero bs h = tt
All-take (suc n) [] h = tt
All-take (suc n) (b ∷ bs) h = (h.0, All-take n bs h.1)

block-IsSeven :
    (buf : Bytes) (len : ℕ)
    → All IsByte buf
    → All IsSeven (send_escaped_block_with_checksum buf len)
block-IsSeven buf len h = rw (block_lem buf len) (
    All-append IsSeven (escaped (take len buf)) (send_escaped_word (u16 (sum (take len buf))))
      (escaped-IsSeven (take len buf) (All-take len buf h))
      (send_escaped_word-IsSeven (u16 (sum (take len buf))) (omega arith)))

block_frame-Framed :
    (src dst cmd len mark : ℕ) (buf : Bytes)
    → cmd < 256
    → len < 2 ^ 16
    → All IsByte buf
    → (mark ≡ last_mark) ⊎ (mark ≡ intermediate_mark)
    → Framed (block_frame (header src dst Cmd.base) cmd buf len mark)
block_frame-Framed src dst cmd len mark buf hc hl hb m =
    header-Framed src dst Cmd.base mark
      (send_escaped_byte cmd ++ (send_escaped_word len ++ send_escaped_block_with_checksum buf len))
      _ (simp append_assoc)
      (All-append IsSeven (send_escaped_byte cmd) _ (send_escaped_byte-IsSeven cmd hc) (
        All-append IsSeven (send_escaped_word len) _ (send_escaped_word-IsSeven len hl)
          (block-IsSeven buf len hb)))
      m

mark-cases :
    (last : Bool)
    → let mark : ℕ = if last then last_mark else intermediate_mark in
      (mark ≡ last_mark) ⊎ (mark ≡ intermediate_mark)
mark-cases true = inl refl
mark-cases false = inr refl

-- A command, a word, and something more.
two_parts-Framed :
    (src dst cmd addr1 mark : ℕ) (more : Bytes)
    → cmd < 256
    → addr1 < 2 ^ 16
    → All IsSeven more
    → (mark ≡ last_mark) ⊎ (mark ≡ intermediate_mark)
    → Framed (
        send_header (header src dst Cmd.base)
        ++ (send_escaped_byte cmd ++ (send_escaped_word addr1 ++ (more ++ mark ∷ []))))
two_parts-Framed src dst cmd addr1 mark more hc h1 h2 m =
    header-Framed src dst Cmd.base mark (send_escaped_byte cmd ++ (send_escaped_word addr1 ++ more))
      _ (simp append_assoc)
      (All-append IsSeven (send_escaped_byte cmd) _ (send_escaped_byte-IsSeven cmd hc)
        (All-append IsSeven (send_escaped_word addr1) _ (send_escaped_word-IsSeven addr1 h1) h2))
      m

frame-AllFramed :
    (src dst cmd : ℕ) (buf : Bytes) (len addr1 addr2 : ℕ) (last : Bool)
    → cmd < 256
    → len < 2 ^ 16
    → addr1 < 2 ^ 16
    → addr2 < 2 ^ 16
    → All IsByte buf
    → AllFramed (frame src dst cmd buf len addr1 addr2 last)
unfolding frame
frame-AllFramed src dst cmd buf len addr1 addr2 last hc hl h1 h2 hb =
    if-AllFramed _ _ _
      (some-AllFramed (header-Framed src dst Cmd.ping last_mark [] _ refl tt (inl refl)))
      (if-AllFramed _ _ _
        (some-AllFramed (block_frame-Framed src dst cmd len last_mark buf hc hl hb (inl refl)))
        (if-AllFramed _ _ _
          (some-AllFramed (
            two_parts-Framed src dst cmd addr1 _ (send_escaped_word addr2) hc h1
              (send_escaped_word-IsSeven addr2 h2) (mark-cases last)))
          (if-AllFramed _ _ _
            (some-AllFramed (block_frame-Framed src dst cmd len _ buf hc hl hb (mark-cases last)))
            (if-AllFramed _ _ _
              (some-AllFramed (
                two_parts-Framed src dst cmd addr1 last_mark
                  (send_escaped_byte (u8 (bit_and addr2 255))) hc h1
                  (send_escaped_byte-IsSeven (u8 (bit_and addr2 255)) (omega arith)) (inl refl)))
              none-AllFramed))))

-- For a command and payload of bytes, and a length and addresses of 16 bits: a packet of one frame is a
-- header of five bytes that starts with 0xf0 and 0x00, then bytes below 128 only, and at the end one of
-- the two marks, which are above 128.
pub frame-Framed :
    (src dst cmd : ℕ) (buf bs : Bytes) (len addr1 addr2 : ℕ) (last : Bool)
    → cmd < 256
    → len < 2 ^ 16
    → addr1 < 2 ^ 16
    → addr2 < 2 ^ 16
    → All IsByte buf
    → frame src dst cmd buf len addr1 addr2 last ≡ some bs
    → Framed bs
frame-Framed src dst cmd buf bs len addr1 addr2 last hc hl h1 h2 hb e =
    (frame-AllFramed src dst cmd buf len addr1 addr2 last hc hl h1 h2 hb).framed bs e
