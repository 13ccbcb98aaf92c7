-- ===== src/Bdos/Write.antt =====
-- `deleteFile`, `renameFile`, `createFile` and `randomWrite` of sw/spyvspy/spybdos.h.
use yamashnik.Prelude.{
  ℕ, ◌+◌, Bool, [], ◌∷◌, Option, none, some, Bytes, u32, ltb, ◌==◌, if◌then◌else◌, take, done,
}
use yamashnik.Fcb.{Fcb, get_extent, set_extent, get_file_name, get_file_name2}
use yamashnik.Request.{Request, byte, fcb}
use yamashnik.Response.{fresh_response, respond, assign_fcb, set_aux_data}
use yamashnik.Disk.{Files, Host, put, fopen, fopen_write, write_at, unlink, rename}
use yamashnik.Bdos.State.{
  World, Answer, newline, sequential_offset, random_offset, advance, on_open,
}

-- 0 and the new files where a call has succeeded; the error code and the old ones where it has not.
unfoldable pub settle : ℕ → Option Files → Files → ℕ × Files
settle code none old = (code, old)
settle code (some new) old = (0, new)

unfoldable pub delete_file : Host → Request → World → Answer
unfolding settle
delete_file host req w =
    let (result, files) = settle 0xff (unlink host (get_file_name req.block) w.files) w.files in
    done (
      respond (byte ∷ []) (set_aux_data 0 result fresh_response),
      record (newline req w) { files = files },
    )

unfoldable pub rename_file : Host → Request → World → Answer
unfolding settle
rename_file host req w =
    let new = rename host (get_file_name req.block) (get_file_name2 req.block) w.files in
    let (result, files) = settle 0xff new w.files in
    done (
      respond (byte ∷ []) (set_aux_data 0 result fresh_response),
      record (newline req w) { files = files },
    )

-- Only a first extent is created; any other asks for nothing and fails.
unfoldable pub create_file : Host → Request → World → Answer
unfolding settle
create_file host req w =
    let extent = get_extent req.block in
    let block = set_extent extent req.block in
    let new = if extent == 0 then fopen_write host (get_file_name req.block) w.files else none in
    let (result, files) = settle 0xff new w.files in
    done (
      respond (fcb ∷ byte ∷ []) (set_aux_data 0 result (assign_fcb block fresh_response)),
      record (newline req w) { files = files },
    )

-- The block after a write at the offset: the size grows to the record's end, and the record advances.
unfoldable pub written_block : ℕ → Fcb → Fcb
written_block offset f =
    let g = record f { record_size_lo = 0; record_size_hi = 128 } in
    advance
      (if ltb g.file_size (offset + 128) then record g { file_size = u32 (offset + 128) } else g)

-- 128 bytes of the buffer are written whatever the size that came in, which is only compared.
unfoldable pub write_open : Bool → Bytes → Request → World → Answer
unfolding written_block
write_open sequential content req w =
    let offset = if sequential then sequential_offset req.block else random_offset req.block in
    let files =
      put (get_file_name req.block) (some (write_at offset (take 128 req.dma_buf) content))
        w.files in
    let r =
      set_aux_data 0 (if 128 == req.dmasize then 0 else 1)
        (assign_fcb (written_block offset req.block) fresh_response) in
    done (
      respond (if sequential then fcb ∷ byte ∷ [] else byte ∷ []) r,
      record (newline req w) { files = files },
    )

-- `randomWrite(sequential)`. A file that cannot be opened leads to `fclose` of a null pointer.
unfoldable pub random_write : Bool → Host → Request → World → Answer
unfolding write_open
random_write sequential host req w =
    on_open (fopen host (get_file_name req.block) w.files)
      (λ content. write_open sequential content req w)
