-- ===== src/Response/Chunk.antt =====
-- `SendChunk` and `SendWord` of sw/spyvspy/spy.cpp on what they are meant for.
use yamashnik.Prelude.{
  ℕ, zero, suc, ◌/◌, ◌%◌, ◌≤◌, ◌<◌, ◌≡◌, ◌^◌, refl, ap, ap₂, ◌∙◌, [], ◌∷◌, some, Bytes, arith, u8,
  u16, length, take, take_all, le→leb, done, low_byte,
}
use yamashnik.Response.{send_chunk, send_word}

pub send_chunk-le : (bs : Bytes) (n : ℕ) → n ≤ length bs → send_chunk (some bs) n ≡ done (take n bs)
unfolding send_chunk
send_chunk-le bs zero h = refl
send_chunk-le bs (suc n) h = rw (le→leb (suc n) (length bs) h) refl

pub send_chunk-all : (bs : Bytes) → send_chunk (some bs) (length bs) ≡ done bs
send_chunk-all bs =
    send_chunk-le bs (length bs) (omega arith) ∙ ap done (take_all (length bs) bs (omega arith))

-- The high byte comes first.
pub send_word_lem : (w : ℕ) → w < 2 ^ 16 → send_word w ≡ w / 256 ∷ w % 256 ∷ []
unfolding send_word
send_word_lem w h =
    ap₂ (λ hi lo. hi ∷ lo ∷ []) (ap u8 (low_byte (u16 w / 2 ^ 8) (omega arith)) ∙ omega arith)
      (ap u8 (low_byte (u16 w) (omega arith)) ∙ omega arith)
