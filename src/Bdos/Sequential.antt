-- ===== src/Bdos/Sequential.antt =====
-- `sequentialRead` of sw/spyvspy/spybdos.h against the bytes of the file, record by record.
use yamashnik.Prelude.{
  ℕ, ◌*◌, ◌<◌, ◌≤◌, ◌≡◌, refl, ap, ◌∙◌, [], ◌∷◌, some, Bytes, arith, done, length, length-drop,
  length-take, drop, drop_all, replicate, if◌then◌else◌, ltb, ◌==◌, le→leb, lt→leb_false,
  Bool-cases, inl, inr, ltb→lt, ◌≢◌,
}
use yamashnik.Fcb.{Fcb, get_file_name}
use yamashnik.Request.{Request, fcb, byte, dma}
use yamashnik.Response.{Response, respond, set_aux_data, alloc_dma, assign_fcb, fresh_response}
use yamashnik.Disk.{Host, fopen, read_at}
use yamashnik.Bdos.State.{World, on_open, newline, sequential_offset, advance}
use yamashnik.Bdos.Read.{record_at, sequential_read, sequential_read_open}
use yamashnik.Bdos.Position.{IsPlaced, position, sequential_offset_lem}

-- The block that goes back, and the whole answer.
abbrev pub next_block : Fcb → Fcb
next_block f = advance (record f { record_size_lo = 0; record_size_hi = 128 })

abbrev pub record_answer : Bytes → Fcb → ℕ → Response
record_answer bs f result =
    respond (dma ∷ fcb ∷ byte ∷ [])
      (set_aux_data 0 result (alloc_dma bs (assign_fcb f fresh_response)))

record_behind :
    (offset : ℕ) (content : Bytes)
    → length content ≤ offset
    → record_at offset content ≡ replicate 128 0
unfolding read_at
record_behind offset content h = rw (drop_all offset content h) refl

pub read_some :
    (offset : ℕ) (content : Bytes)
    → offset < length content
    → length (read_at offset 128 content) ≢ 0
unfolding read_at
read_some offset content h = λ e.
    absurd (omega (arith, e, length-take 128 (drop offset content), length-drop offset content))

pub zero_test : (n : ℕ) → n ≢ 0 → ◌≡◌ {A = ℕ} (if n == 0 then 1 else 0) 0
zero_test n h = ground arith

sequential_read_open_lem :
    (req : Request) (w : World) (content : Bytes)
    → IsPlaced req.block
    → req.block.file_size ≡ length content
    → sequential_read_open content req w
      ≡ done (
        record_answer
            (record_at (128 * position req.block) content)
            (next_block req.block)
            (if ltb (128 * position req.block) (length content) then 0 else 1),
        newline req w,
      )
unfolding sequential_read_open
sequential_read_open_lem req w content p s =
    elim (Bool-cases (ltb (128 * position req.block) (length content))) [
      | inl inside ↦
          let in_file : 128 * position req.block < length content = ltb→lt _ _ inside in
          rw
            (
              inside,
              lt→leb_false req.block.file_size (sequential_offset req.block) (omega (arith, s, at)),
              at,
            )
            (ap
              (λ (k : ℕ). done (
                record_answer (record_at (128 * position req.block) content) (next_block req.block)
                    k,
                newline req w,
              ))
              (zero_test _ (read_some (128 * position req.block) content in_file)))
      | inr behind ↦
          let past : length content ≤ 128 * position req.block = ground arith in
          rw
            (
              behind,
              le→leb req.block.file_size (sequential_offset req.block) (omega (arith, s, at)),
              record_behind (128 * position req.block) content past,
            )
            refl
    ]
  where
    at : sequential_offset req.block ≡ 128 * position req.block
    at = sequential_offset_lem req.block p

-- Where the file of the block can be opened, the block's extent bytes are bytes, its record is below
-- 128 and its size is that of the file, a sequential read answers with the record at the block's
-- position, filled with zeros, with 0 where the position lies inside the file and 1 where not, and
-- with the advanced block; the files stay.
pub sequential_read_record :
    (host : Host) (req : Request) (w : World) (content : Bytes)
    → fopen host (get_file_name req.block) w.files ≡ some content
    → IsPlaced req.block
    → req.block.file_size ≡ length content
    → sequential_read host req w
      ≡ done (
        record_answer
            (record_at (128 * position req.block) content)
            (next_block req.block)
            (if ltb (128 * position req.block) (length content) then 0 else 1),
        newline req w,
      )
unfolding sequential_read
sequential_read_record host req w content o p s =
    ap (λ f. on_open f (λ c. sequential_read_open c req w)) o
    ∙ sequential_read_open_lem req w content p s
