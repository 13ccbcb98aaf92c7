-- ===== src/Bdos/Random.antt =====
-- `randomRead` of sw/spyvspy/spybdos.h against the bytes of the file.
use yamashnik.Prelude.{
  lt→leb_false, ℕ, ◌≡◌, ap, ◌∙◌, some, Bytes, arith, done, ◌<◌, ◌*◌, length, ◌/◌, ◌%◌, lt→leb_false,
}
use yamashnik.Fcb.{Fcb, get_file_name, get_extent, set_extent}
use yamashnik.Fcb.Extent.{get_extent-set_extent}
use yamashnik.Request.{Request}
use yamashnik.Disk.{Host, fopen}
use yamashnik.Bdos.State.{World, random_offset, newline}
use yamashnik.Bdos.Read.{random_read, random_read_open, random_block, record_at, read_answer}
use yamashnik.Bdos.Sequential.{record_answer, zero_test, read_some}

-- For a record `n` below 65536 that starts inside the file, and inside the size that the block tells, a
-- random read of a file that can be opened answers 0 with the record, filled with zeros. The block that
-- comes back has the extent `n / 128`, and the current record 0 where `n` is even and 128 where it is odd.
pub random_read_record :
    (host : Host) (req : Request) (w : World) (content : Bytes)
    → fopen host (get_file_name req.block) w.files ≡ some content
    → req.block.random_record < 65536
    → 128 * req.block.random_record < req.block.file_size
    → 128 * req.block.random_record < length content
    → (f : Fcb) × (random_read host req w
        ≡ done
            (record_answer (record_at (128 * req.block.random_record) content) f 0, newline req w))
      × (get_extent f ≡ req.block.random_record / 128)
      × (f.current_record ≡ 128 * (req.block.random_record % 2))
unfolding random_read random_read_open read_answer
random_read_record host req w content o small inside there =
    let at : random_offset req.block ≡ 128 * req.block.random_record =
      unfold random_offset in omega arith in
    (
      random_block (128 * req.block.random_record) req.block,
      rw (o, at, lt→leb_false req.block.file_size (128 * req.block.random_record) inside)
          (ap
            (λ (k : ℕ). done (
              record_answer (record_at (128 * req.block.random_record) content)
                  (random_block (128 * req.block.random_record) req.block) k,
              newline req w,
            ))
            (zero_test _ (read_some (128 * req.block.random_record) content there))),
      unfold random_block in
          get_extent-set_extent (128 * req.block.random_record / (128 * 128)) _ (omega arith)
          ∙ omega arith,
      unfold random_block set_extent in omega arith,
    )
