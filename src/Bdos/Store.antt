-- ===== src/Bdos/Store.antt =====
-- `randomWrite` of sw/spyvspy/spybdos.h against the bytes of the files.
use yamashnik.Prelude.{
  ℕ, ◌+◌, ◌-◌, ◌<◌, ◌≤◌, ◌≡◌, ◌≢◌, ◌⊎◌, sym, ap, ◌∙◌, some, Bytes, arith, Bool, if◌then◌else◌, true,
  false, ◌*◌, ◌%◌, ◌^◌, length, take, drop, replicate, length-take, length-append, done,
  length-replicate,
}
use mathlib.Core.Path.{subst}
use yamashnik.Fcb.{Fcb, get_file_name}
use yamashnik.Fcb.Extent.{get_extent_lem}
use yamashnik.Request.{Request}
use yamashnik.Response.{Response}
use yamashnik.Disk.{Host, Files, fopen, write_at, read_at}
use yamashnik.Disk.Names.{fopen-allowed, fopen-put_same, fopen-put_other}
use yamashnik.Disk.Places.{
  at, at-zeros, at-take, at-drop, same_bytes, at-write_at_inside, at-write_at_outside,
}
use yamashnik.Bdos.State.{World, sequential_offset, random_offset, on_open}
use yamashnik.Bdos.Read.{record_at}
use yamashnik.Bdos.Write.{write_open, random_write}

pub length-record_at : (p : ℕ) (c : Bytes) → length (record_at p c) ≡ 128
unfolding read_at
length-record_at p c = omega (
  arith,
  length-append (take 128 (drop p c)) (replicate (128 - length (take 128 (drop p c))) 0),
  length-replicate {A = ℕ} (128 - length (take 128 (drop p c))) 0,
  length-take 128 (drop p c),
)

at-record_at : (p i : ℕ) (c : Bytes) → i < 128 → at (record_at p c) i ≡ at c (p + i)
unfolding read_at
at-record_at p i c h =
    at-zeros (take 128 (drop p c)) (128 - length (take 128 (drop p c))) i
    ∙ at-take 128 i (drop p c) h
    ∙ at-drop p i c

pub record_at-written :
    (offset : ℕ) (bs c : Bytes) → length bs ≡ 128 → record_at offset (write_at offset bs c) ≡ bs
record_at-written offset bs c h =
    same_bytes _ bs (length-record_at offset (write_at offset bs c) ∙ sym h) λ i lt.
      let small : i < 128 = omega (arith, length-record_at offset (write_at offset bs c)) in
      let place : offset + i - offset ≡ i = omega arith in
      at-record_at offset i (write_at offset bs c) small
      ∙ at-write_at_inside offset (offset + i) bs c (omega arith) (omega arith)
      ∙ ap (at bs) place

record_at-kept :
    (offset p : ℕ) (bs c : Bytes)
    → length bs ≡ 128
    → (p + 128 ≤ offset) ⊎ (offset + 128 ≤ p)
    → record_at p (write_at offset bs c) ≡ record_at p c
record_at-kept offset p bs c h apart =
    same_bytes _ _ (length-record_at p (write_at offset bs c) ∙ sym (length-record_at p c)) λ i lt.
      let small : i < 128 = omega (arith, length-record_at p (write_at offset bs c)) in
      at-record_at p i (write_at offset bs c) small
      ∙ at-write_at_outside offset (p + i) bs c (ground (arith, apart))
      ∙ sym (at-record_at p i c small)

-- The fields of the block that place a sequential write are bytes.
pub record HasBytes (f : Fcb) : Type 0 where
  pub lo : f.extent_lo < 256
  pub hi : f.extent_hi < 256
  pub current : f.current_record < 256

-- The place that a write should go to: 128 bytes for a record, and 128 records for an extent; a random
-- record has a number of 24 bits.
abbrev pub write_place : Bool → Fcb → ℕ
write_place true f = 128 * ((f.extent_hi * 256 + f.extent_lo) * 128 + f.current_record)
write_place false f = 128 * (f.random_record % 2 ^ 24)

write_offset : Bool → Request → ℕ
write_offset sequential req =
    if sequential then sequential_offset req.block else random_offset req.block

write_offset_lem :
    (sequential : Bool) (req : Request)
    → HasBytes req.block
    → write_offset sequential req ≡ write_place sequential req.block
unfolding write_offset sequential_offset random_offset
write_offset_lem true req h = omega (arith, h, get_extent_lem req.block h.lo h.hi)
write_offset_lem false req h = omega arith

-- What a write of the first 128 bytes of the request's buffer makes of the files.
pub record Stored (host : Host) (sequential : Bool) (req : Request) (content : Bytes)
    (old new : Files) : Type 0 where
  pub content' : Bytes
  pub opened : fopen host (get_file_name req.block) new ≡ some content'
  pub written : record_at (write_place sequential req.block) content' ≡ take 128 req.dma_buf
  pub kept :
      (p : ℕ)
      → (p + 128 ≤ write_place sequential req.block) ⊎ (write_place sequential req.block + 128 ≤ p)
      → record_at p content' ≡ record_at p content
  pub others :
      (other : Bytes)
      → other ≢ get_file_name req.block
      → fopen host other new ≡ fopen host other old

-- Where the file of the block can be opened, the buffer has at least 128 bytes, and the extent and the
-- current record are bytes, a sequential or a random write returns. Afterwards the record at the place that
-- the block names — `128 * (128 * extent + current record)`, or 128 times the low 24 bits of the random
-- record — is the first 128 bytes of the request's buffer, whatever number of them has come in with the
-- request. The records that do not overlap it read as before, also behind the old end, and so do all other
-- files.
pub random_write-Stored :
    (sequential : Bool) (host : Host) (req : Request) (w : World) (content : Bytes)
    → fopen host (get_file_name req.block) w.files ≡ some content
    → 128 ≤ length req.dma_buf
    → HasBytes req.block
    → (r : Response) × (w' : World) × (random_write sequential host req w ≡ done (r, w'))
      × Stored host sequential req content w.files w'.files
unfolding random_write write_open write_offset
random_write-Stored sequential host req w content o long bytes =
    let bs = take 128 req.dma_buf in
    let size : length bs ≡ 128 = omega (arith, length-take 128 req.dma_buf) in
    let offset = write_offset sequential req in
    let place = write_offset_lem sequential req bytes in
    (
      _,
      _,
      ap (λ f. on_open f (λ c. write_open sequential c req w)) o,
      record {
        content' = write_at offset bs content;
        opened =
            fopen-put_same host (get_file_name req.block) (some (write_at offset bs content))
              w.files (fopen-allowed host (get_file_name req.block) content w.files o);
        written =
            subst (λ k. record_at k (write_at offset bs content) ≡ bs) place
              (record_at-written offset bs content size);
        kept = λ p apart.
            record_at-kept offset p bs content size
              (subst (λ k. (p + 128 ≤ k) ⊎ (k + 128 ≤ p)) (sym place) apart);
        others = λ other ne.
            fopen-put_other host (get_file_name req.block) other (some (write_at offset bs content))
              w.files ne;
      },
    )
