-- ===== src/BasicSend/Frames.antt =====
-- The frames of the blocks that `sendBlocks` of sw/spyvspy/basicsend.cpp cuts `binBuf` into.
use yamashnik.Prelude.{
  ℕ, zero, suc, ◌+◌, ◌-◌, ◌*◌, ◌/◌, ◌≤◌, ◌<◌, ◌≡◌, ◌^◌, refl, sym, ap, ◌∙◌, Bool, true, false, List,
  [], ◌∷◌, ◌++◌, Bytes, arith, All, u16, if◌then◌else◌, le→leb, length, length-take, length-drop,
  take, drop, done,
}
use yamashnik.Wire.{header, last_mark, intermediate_mark}
use yamashnik.Wire.Cmd
use yamashnik.Packet.{shex_data_packet}
use yamashnik.Sender.{send_packet_val, send_packet, frame, send_frame, block_frame}
use yamashnik.Sender.Pieces.{concat}
use yamashnik.Sender.Ready.{Takes}
use yamashnik.BasicSend.{block_at}

-- The frame of a block.
abbrev pub shex_frame : ℕ → Bytes → Bool → Bytes
shex_frame student block last =
    block_frame (header 0 student Cmd.base) Cmd.shex_data block (length block)
      (if last then last_mark else intermediate_mark)

-- Blocks that more will follow.
abbrev pub shex_frames : ℕ → List Bytes → Bytes
shex_frames student [] = []
shex_frames student (b ∷ bs) = shex_frame student b false ++ shex_frames student bs

pub shex-Takes :
    (student n : ℕ) (block : Bytes) (last : Bool)
    → length block ≡ n
    → n < 2 ^ 16
    → Takes (shex_data_packet 0 student block n last) (shex_frame student block last)
unfolding send_packet_val send_packet frame send_frame shex_data_packet
shex-Takes student n block last e lt d =
    let cut : u16 n ≡ length block = omega (arith, e) in rw cut refl

pub take-add : (m n : ℕ) (bs : Bytes) → take m bs ++ take n (drop m bs) ≡ take (m + n) bs
take-add zero n bs = ap (λ k. take k bs) zero_add
  where
    zero_add : n ≡ zero + n
    zero_add = omega arith
take-add (suc m) n [] = take-nil n ∙ sym (take-nil (suc m + n))
  where
    take-nil : (n : ℕ) → take {A = ℕ} n [] ≡ []
    take-nil zero = refl
    take-nil (suc n) = refl
take-add (suc m) n (b ∷ bs) = ap (λ t. b ∷ t) (take-add m n bs) ∙ ap (λ k. take k (b ∷ bs)) suc_add
  where
    suc_add : suc (m + n) ≡ suc m + n
    suc_add = omega arith

abbrev pub fulls : ℕ → Bytes → List Bytes
fulls zero bs = []
fulls (suc n) bs = take 56 bs ∷ fulls n (drop 56 bs)

pub concat-fulls : (n : ℕ) (bs : Bytes) → concat (fulls n bs) ≡ take (56 * n) bs
concat-fulls zero bs = refl
concat-fulls (suc n) bs =
    ap (λ t. take 56 bs ++ t) (concat-fulls n (drop 56 bs))
    ∙ take-add 56 (56 * n) bs
    ∙ ap (λ k. take k bs) count
  where
    count : 56 + 56 * n ≡ 56 * suc n
    count = omega arith

pub fulls-All : (n : ℕ) (bs : Bytes) → 56 * n ≤ length bs → All (λ b. length b ≡ 56) (fulls n bs)
fulls-All zero bs h = tt
fulls-All (suc n) bs h =
    (omega (arith, length-take 56 bs), fulls-All n (drop 56 bs) (omega (arith, length-drop 56 bs)))

pub block_at-fits :
    (offset len : ℕ) (buf : Bytes)
    → offset + len ≤ length buf
    → block_at offset len buf ≡ done (take len (drop offset buf))
unfolding block_at
block_at-fits offset len buf h = rw (le→leb (offset + len) (length buf) h) refl

-- The frames of all the bytes of `memory`, in blocks of 56 bytes and a last one.
pub record IsBlocks (student : ℕ) (memory sent : Bytes) : Type 0 where
  pub blocks : List Bytes
  pub last : Bytes
  pub full : All (λ b. length b ≡ 56) blocks
  pub some_last : 0 < length last
  pub short_last : length last ≤ 56
  pub together : concat blocks ++ last ≡ memory
  pub frames : sent ≡ shex_frames student blocks ++ shex_frame student last true

-- The numbers and the pieces of `sendBlocks`.
abbrev pub full_count : ℕ → ℕ → ℕ
full_count start end = (end - start) / 56

abbrev pub last_length : ℕ → ℕ → ℕ
last_length start end = end + 1 - (start + 56 * full_count start end)

abbrev pub last_block : ℕ → ℕ → Bytes → Bytes
last_block start end buf = take (last_length start end) (drop (56 * full_count start end) buf)

-- For addresses in order and a buffer that is long enough.
module _ (start end : ℕ) (buf : Bytes) (order : start ≤ end) (below : end < 2 ^ 16)
    (fits : end + 1 - start ≤ length buf) where
  pub last_length-cut :
      u16 (2 ^ 16 + (end + 1) - (start + 56 * full_count start end)) ≡ last_length start end
  last_length-cut = omega (arith, order, below)

  pub length-last_block : length (last_block start end buf) ≡ last_length start end
  length-last_block = omega (
    arith,
    order,
    fits,
    length-take (last_length start end) (drop (56 * full_count start end) buf),
    length-drop (56 * full_count start end) buf,
  )

  pub last_length_bounds : (0 < last_length start end) × (last_length start end ≤ 56)
  last_length_bounds = omega (arith, order)

  pub pieces_fit : 56 * full_count start end + last_length start end ≤ length buf
  pieces_fit = omega (arith, order, fits)

  pub fulls-IsBlocks :
      (student : ℕ)
      → IsBlocks student (take (end + 1 - start) buf) (
          shex_frames student (fulls (full_count start end) buf)
          ++ shex_frame student (last_block start end buf) true)
  fulls-IsBlocks student = record {
    blocks = fulls (full_count start end) buf;
    last = last_block start end buf;
    full = fulls-All (full_count start end) buf (omega (arith, pieces_fit));
    some_last = omega (arith, length-last_block, last_length_bounds.0);
    short_last = omega (arith, length-last_block, last_length_bounds.1);
    together =
        ap (λ t. t ++ last_block start end buf) (concat-fulls (full_count start end) buf)
        ∙ take-add (56 * full_count start end) (last_length start end) buf
        ∙ ap (λ k. take k buf) total;
    frames = refl;
  }
    where
      total : 56 * full_count start end + last_length start end ≡ end + 1 - start
      total = omega (arith, order)
