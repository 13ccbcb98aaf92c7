-- ===== src/Bdos/WriteRead.antt =====
-- A sequential write of sw/spyvspy/spybdos.h, followed by a sequential read of the same record.
use yamashnik.Prelude.{
  ℕ, ◌+◌, ◌-◌, ◌*◌, ◌^◌, ◌<◌, ◌≤◌, ◌≡◌, refl, sym, ap, ◌∙◌, inl, inr, some, Bytes, arith, true,
  length, take, drop, replicate, length-take, length-drop, length-append, done, u32, ltb, lt→ltb,
  if◌then◌else◌, Bool-cases, ◌++◌, length-replicate, ltb→lt,
}
use yamashnik.Fcb.{Fcb, get_file_name}
use yamashnik.Request.{Request}
use yamashnik.Response.{Response, respond, set_aux_data, assign_fcb}
use yamashnik.Disk.{Host, fopen, write_at, put}
use yamashnik.Disk.Names.{fopen-allowed, fopen-put_same}
use yamashnik.Bdos.State.{World, newline, sequential_offset, on_open}
use yamashnik.Bdos.Read.{record_at, sequential_read}
use yamashnik.Bdos.Write.{written_block, write_open, random_write}
use yamashnik.Bdos.Position.{IsPlaced, position, sequential_offset_lem, advance-IsNext}
use yamashnik.Bdos.Sequential.{record_answer, next_block, sequential_read_record}
use yamashnik.Bdos.Store.{record_at-written}

length-write_at :
    (offset : ℕ) (bs content : Bytes)
    → length bs ≡ 128
    → length (write_at offset bs content)
      ≡ (if ltb (length content) (offset + 128) then offset + 128 else length content)
unfolding write_at
length-write_at offset bs content h =
    let front = content ++ replicate (offset - length content) 0 in
    let a = length-append (take offset front) (bs ++ drop (offset + length bs) content) in
    let b = length-append bs (drop (offset + length bs) content) in
    let c = length-take offset front in
    let d = length-append content (replicate (offset - length content) 0) in
    let e = length-replicate {A = ℕ} (offset - length content) 0 in
    let f = length-drop (offset + length bs) content in
    elim (Bool-cases (ltb (length content) (offset + 128))) [
      | inl grows ↦
          let less : length content < offset + 128 = ltb→lt _ _ grows in
          rw grows (omega (arith, a, b, c, d, e, f))
      | inr stays ↦
          let more : offset + 128 ≤ length content = ground arith in
          rw stays (omega (arith, a, b, c, d, e, f))
    ]

reach : (n m : ℕ) → m < (if ltb n (m + 128) then m + 128 else n)
reach n m = ground arith

written_block-size :
    (offset : ℕ) (f : Fcb)
    → IsPlaced f
    → position f + 1 < 65536 * 128
    → offset + 128 < 2 ^ 32
    → (written_block offset f).file_size
      ≡ (if ltb f.file_size (offset + 128) then offset + 128 else f.file_size)
unfolding written_block
written_block-size offset f p room small =
    let g = record f { record_size_lo = 0; record_size_hi = 128 } in
    let cut : u32 (offset + 128) ≡ offset + 128 = omega arith in
    elim (Bool-cases (ltb f.file_size (offset + 128))) [
      | inl grows ↦
          rw (grows, cut)
            ((advance-IsNext (record g { file_size = offset + 128 })
              (record { lo = p.lo; hi = p.hi; current = p.current }) room).size)
      | inr stays ↦
          rw stays
            ((advance-IsNext g (record { lo = p.lo; hi = p.hi; current = p.current }) room).size)
    ]

-- The request to read the record that was written, with the size that the write has answered.
abbrev pub read_back : Request → Fcb → Request
read_back req g = record req { block = record (req.block) { file_size = g.file_size } }

-- For a file that can be opened, a well placed block below the last record of the last extent, with the
-- file's size, and a buffer of at least 128 bytes: a sequential write returns, and a sequential read of the
-- same record, with the size from the answer of the write, then answers 0 with the 128 bytes written.
pub random_write-sequential_read :
    (host : Host) (req : Request) (w : World) (content : Bytes)
    → fopen host (get_file_name req.block) w.files ≡ some content
    → IsPlaced req.block
    → position req.block + 1 < 65536 * 128
    → req.block.file_size ≡ length content
    → 128 ≤ length req.dma_buf
    → (r : Response) × (w' : World) × (g : Fcb) × (random_write true host req w ≡ done (r, w'))
      × (r.block ≡ some g)
      × (sequential_read host (read_back req g) w'
          ≡ done (
            record_answer (take 128 req.dma_buf) (next_block (read_back req g).block) 0,
            newline (read_back req g) w',
          ))
unfolding random_write write_open get_file_name respond set_aux_data assign_fcb
random_write-sequential_read host req w content o p room s long =
    let name = get_file_name req.block in
    let bs = take 128 req.dma_buf in
    let full : length bs ≡ 128 = omega (arith, length-take 128 req.dma_buf) in
    let offset = sequential_offset req.block in
    let at : offset ≡ 128 * position req.block = sequential_offset_lem req.block p in
    let g = written_block offset req.block in
    let content' = write_at offset bs content in
    let grown : g.file_size ≡ length content' =
      written_block-size offset req.block p room (omega (arith, at, room))
      ∙ ap (λ k. if ltb k (offset + 128) then offset + 128 else k) s
      ∙ sym (length-write_at offset bs content full) in
    let inside : 128 * position req.block < length content' =
      omega (arith, at, length-write_at offset bs content full, reach (length content) offset) in
    let req2 = read_back req g in
    let after = record (newline req w) { files = put name (some content') w.files } in
    (
      _,
      _,
      g,
      ap (λ f. on_open f (λ c. write_open true c req w)) o,
      refl,
      sequential_read_record host req2 _ content'
            (fopen-put_same host name (some content') w.files
              (fopen-allowed host name content w.files o))
            (record { lo = p.lo; hi = p.hi; current = p.current }) grown
          ∙ rw (lt→ltb (128 * position req.block) (length content') inside) (
              ap (λ t. done (record_answer t (next_block req2.block) 0, newline req2 after))
                (ap (λ k. record_at k content') (sym at)
                  ∙ record_at-written offset bs content full)),
    )
