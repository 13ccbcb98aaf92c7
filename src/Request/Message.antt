-- ===== src/Request/Message.antt =====
-- The workstation's message for a pattern, and `eat` of sw/spyvspy/spy.h on a part of it.
use yamashnik.Prelude.{
  ℕ, suc, ◌+◌, ◌/◌, ◌%◌, ◌<◌, ◌≤◌, ◌≡◌, refl, sym, ap, ◌∙◌, List, [], ◌∷◌, ◌++◌, some, Bytes,
  IsByte, arith, length, length-append, drop, take-append, or_bytes_low, le→leb, append-nil,
}
use yamashnik.Fcb.{Fcb, fcb_size, to_bytes, from_bytes}
use yamashnik.Fcb.Layout.{IsFcb, from_bytes-to_bytes, length-to_bytes}
use yamashnik.Request.{
  Token, byte, word, fcb, dma, Request, again, get_word_big_endian, verdict_of, store_aux,
  eat_token, eat_cursor,
}

-- A part of a request as the workstation sends it.
pub data Field : Type 0 where
  byte_field word_field : ℕ → Field
  fcb_field : Fcb → Field
  dma_field : Bytes → Field

abbrev pub token : Field → Token
token (byte_field b) = byte
token (word_field w) = word
token (fcb_field f) = fcb
token (dma_field bs) = dma

-- Big-endian words; a block or a buffer behind its length.
abbrev pub big_endian : ℕ → Bytes
big_endian w = w / 256 ∷ w % 256 ∷ []

abbrev pub encode : Field → Bytes
encode (byte_field b) = b ∷ []
encode (word_field w) = big_endian w
encode (fcb_field f) = 0 ∷ 44 ∷ to_bytes f
encode (dma_field bs) = big_endian (length bs) ++ bs

abbrev pub message : List Field → Bytes
message [] = []
message (f ∷ fs) = encode f ++ message fs

abbrev pub IsField : Field → Type 0
IsField (byte_field b) = IsByte b
IsField (word_field w) = w < 65536
IsField (fcb_field f) = IsFcb f
IsField (dma_field bs) = length bs < 65536

-- The receiver's state after one part.
abbrev pub accept : Field → Request → Request
accept (byte_field b) r = store_aux b 1 r
accept (word_field w) r = store_aux w 2 r
accept (fcb_field f) r = record r {
  block = f;
  bufoffset = r.bufoffset + (2 + fcb_size);
  rxcursor = r.rxcursor + 1;
}
accept (dma_field bs) r = record r {
  dma_buf = bs ++ drop (length bs) r.dma_buf;
  dmasize = length bs;
  bufoffset = r.bufoffset + (2 + length bs);
  rxcursor = r.rxcursor + 1;
}

abbrev pub accept_all : List Field → Request → Request
accept_all [] r = r
accept_all (f ∷ fs) r = accept_all fs (accept f r)

pub get_word_lem :
    (w : ℕ) (rest : Bytes) → w < 65536 → get_word_big_endian (w / 256 ∷ w % 256 ∷ rest) ≡ w
unfolding get_word_big_endian
get_word_lem w rest h = or_bytes_low (w / 256) (w % 256) (omega arith) (omega arith) ∙ omega arith

-- One round of the loop on a part that has come in whole.
pub eat_token-encode :
    (f : Field) (rest : Bytes) (r : Request)
    → IsField f
    → eat_cursor (some (token f)) (encode f ++ rest) r ≡ verdict_of again (accept f r)
unfolding eat_cursor eat_token
eat_token-encode (byte_field b) rest r h = refl
eat_token-encode (word_field w) rest r h =
    rw (get_word_lem w rest h, le→leb 2 (suc (suc (length rest))) (omega arith)) refl
eat_token-encode (fcb_field f) rest r h =
    rw (le→leb 46 _ long, take-append 44 (to_bytes f) rest (length-to_bytes f h), whole) refl
  where
    long : 46 ≤ length (0 ∷ 44 ∷ (to_bytes f ++ rest))
    long = omega (arith, length-append (to_bytes f) rest, length-to_bytes f h)

    whole : from_bytes (to_bytes f) ≡ f
    whole = ap from_bytes (sym (append-nil (to_bytes f))) ∙ from_bytes-to_bytes f [] h
eat_token-encode (dma_field bs) rest r h =
    rw
      (
        get_word_lem (length bs) (bs ++ rest) h,
        le→leb 2 (suc (suc (length (bs ++ rest)))) (omega arith),
        le→leb (length bs + 2) _ long,
        take-append (length bs) bs rest refl,
      )
      refl
  where
    long : length bs + 2 ≤ length (big_endian (length bs) ++ (bs ++ rest))
    long = omega (arith, length-append bs rest)

pub length-encode :
    (f : Field)
    → IsField f
    → (r : Request) → (accept f r).bufoffset ≡ r.bufoffset + length (encode f)
length-encode (byte_field b) h r = refl
length-encode (word_field w) h r = refl
length-encode (fcb_field f) h r = omega (arith, length-to_bytes f h)
length-encode (dma_field bs) h r = omega arith

-- Receiving changes neither the pattern nor, but by one, its cursor.
pub accept-cursor : (f : Field) (r : Request) → (accept f r).rxcursor ≡ r.rxcursor + 1
accept-cursor (byte_field b) r = refl
accept-cursor (word_field w) r = refl
accept-cursor (fcb_field f) r = refl
accept-cursor (dma_field bs) r = refl

pub accept-pattern : (f : Field) (r : Request) → (accept f r).rxpattern ≡ r.rxpattern
accept-pattern (byte_field b) r = refl
accept-pattern (word_field w) r = refl
accept-pattern (fcb_field f) r = refl
accept-pattern (dma_field bs) r = refl

-- The data of a message, told without the receiver's cursors.
abbrev pub values : List Field → List ℕ
values [] = []
values (byte_field b ∷ fs) = b ∷ values fs
values (word_field w ∷ fs) = w ∷ values fs
values (fcb_field f ∷ fs) = values fs
values (dma_field bs ∷ fs) = values fs

abbrev pub last_block : List Field → Fcb → Fcb
last_block [] b = b
last_block (byte_field _ ∷ fs) b = last_block fs b
last_block (word_field _ ∷ fs) b = last_block fs b
last_block (fcb_field f ∷ fs) b = last_block fs f
last_block (dma_field _ ∷ fs) b = last_block fs b

abbrev pub last_dma : List Field → Bytes → Bytes
last_dma [] d = d
last_dma (byte_field _ ∷ fs) d = last_dma fs d
last_dma (word_field _ ∷ fs) d = last_dma fs d
last_dma (fcb_field _ ∷ fs) d = last_dma fs d
last_dma (dma_field bs ∷ fs) d = last_dma fs bs
