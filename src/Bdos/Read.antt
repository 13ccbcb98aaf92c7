-- ===== src/Bdos/Read.antt =====
-- `openFile`, `getFileSize`, `randomBlockRead`, `randomRead` and `sequentialRead` of
-- sw/spyvspy/spybdos.h. The responses start from a new `SpyResponse`, as `Serve` gives one.
use yamashnik.Prelude.{
  ℕ, ◌+◌, ◌-◌, ◌*◌, ◌/◌, ◌%◌, ◌^◌, [], ◌∷◌, ◌++◌, none, some, Bytes, u8, u32, leb, ◌==◌,
  if◌then◌else◌, length, replicate, done, fault, ◌>>=◌, min,
}
use yamashnik.Fcb.{Fcb, record_size, set_extent, get_file_name}
use yamashnik.Request.{Request, byte, word, fcb, dma}
use yamashnik.Response.{
  Response, fresh_response, respond, assign_fcb, alloc_dma, set_dma_size, set_aux_data,
}
use yamashnik.Disk.{Host, fopen, fclose, read_at}
use yamashnik.Bdos.State.{
  World, Answer, newline, get_aux_data, open_file_size, file_size_of, stored_size,
  sequential_offset, random_offset, advance, on_open,
}

-- The body of `openFile` for a file that can be opened.
unfoldable pub opened_block : ℕ → Bytes → Fcb → Fcb
opened_block disk content f = record f {
  drive = u8 (disk + 1);
  file_size = open_file_size content;
  device_id = u8 (0x40 + disk);
}

-- `fclose(f)` is called whether or not the file could be opened.
unfoldable pub open_file : Host → Request → World → Answer
unfolding opened_block
open_file host req w = do
  let f = fopen host (get_file_name req.block) w.files
  let r : Response = elim f [
    | none ↦ set_aux_data 0 0xff (assign_fcb req.block fresh_response)
    | some content ↦
        set_aux_data 0 0x00 (assign_fcb (opened_block w.bdos.disk content req.block) fresh_response)
  ]
  _ ← fclose f
  done (respond (fcb ∷ byte ∷ []) r, newline req w)

unfoldable pub get_file_size : Host → Request → World → Answer
get_file_size host req w =
    let size = file_size_of host w.files (some (get_file_name req.block)) in
    let block = record (req.block) { file_size = stored_size size } in
    let result : ℕ = elim size [ none ↦ 0xff | some _ ↦ 0 ] in
    done (
      respond (fcb ∷ byte ∷ []) (set_aux_data 0 result (assign_fcb block fresh_response)),
      newline req w,
    )

-- A record of 128 bytes: what `fread` got, over zeros.
abbrev pub record_at : ℕ → Bytes → Bytes
record_at offset content =
    let got = read_at offset 128 content in got ++ replicate (128 - length got) 0

-- The answer of both reads of single records: the data, the block and the result.
unfoldable pub read_answer : Bytes → Fcb → ℕ → Request → World → Answer
read_answer bs f result req w = done (
  respond (dma ∷ fcb ∷ byte ∷ [])
      (set_aux_data 0 result (alloc_dma bs (assign_fcb f fresh_response))),
  newline req w,
)

-- What `randomRead` does to the block. `CurrentRecord` has eight bits.
unfoldable pub random_block : ℕ → Fcb → Fcb
random_block offset f = set_extent (offset / (128 * 128)) (record f {
  current_record = u8 (offset % (128 * 128));
  record_size_lo = 0;
  record_size_hi = 128;
})

unfoldable pub random_read_open : Bytes → Request → World → Answer
unfolding random_block read_answer
random_read_open content req w =
    let offset = random_offset req.block in
    if leb req.block.file_size offset
    then read_answer (replicate 128 0) req.block 1 req w
    else read_answer (record_at offset content) (random_block offset req.block)
        (if length (read_at offset 128 content) == 0 then 1 else 0) req w

-- With a null `f` either `fseek` or `fclose` is undefined.
unfoldable pub random_read : Host → Request → World → Answer
unfolding random_read_open
random_read host req w =
    on_open (fopen host (get_file_name req.block) w.files)
      (λ content. random_read_open content req w)

unfoldable pub sequential_block : Fcb → Fcb
sequential_block f = advance (record f { record_size_lo = 0; record_size_hi = 128 })

unfoldable pub sequential_read_open : Bytes → Request → World → Answer
unfolding read_answer sequential_block
sequential_read_open content req w =
    let offset = sequential_offset req.block in
    if leb req.block.file_size offset
    then read_answer (replicate 128 0) (sequential_block req.block) 1 req w
    else read_answer (record_at offset content) (sequential_block req.block)
        (if length (read_at offset 128 content) == 0 then 1 else 0) req w

unfoldable pub sequential_read : Host → Request → World → Answer
unfolding sequential_read_open
sequential_read host req w =
    on_open (fopen host (get_file_name req.block) w.files)
      (λ content. sequential_read_open content req w)

-- The answer of `randomBlockRead`: the count, the data, the block and the result.
unfoldable pub block_read_answer : ℕ → Response → Request → World → Answer
block_read_answer result r req w =
    done (respond (word ∷ dma ∷ fcb ∷ byte ∷ []) (set_aux_data 1 result r), newline req w)

-- `AllocDMA` and `fread`: whole records count, and `SetDMASize` cuts off what was read of one more.
-- What the file does not fill of the memory is not told here, since it is not sent.
unfoldable pub block_read : ℕ → ℕ → ℕ → Bytes → Request → World → Answer
unfolding block_read_answer
block_read offset nrecords size content req w =
    let got = read_at offset (nrecords * size) content in
    let recordsread = min nrecords (length got / size) in
    let block = record (req.block) {
      random_record = u32 (req.block.random_record + recordsread);
    } in
    block_read_answer (if recordsread == nrecords then 0 else 1)
      (set_aux_data 0 recordsread
        (set_dma_size (recordsread * size) (alloc_dma got (assign_fcb block fresh_response))))
      req w

unfoldable pub random_block_read_open : Bytes → Request → World → Answer
unfolding block_read block_read_answer
random_block_read_open content req w =
    let nrecords = get_aux_data req 6 in
    let size = record_size req.block in
    let offset = u32 (req.block.random_record * size) in
    if leb req.block.file_size offset
    then block_read_answer 1
        (set_aux_data 0 0 (set_dma_size 0 (assign_fcb req.block fresh_response))) req w
    -- `nrecords*recordsize` is an `int`: an overflow is undefined.
    else if leb (2 ^ 31) (nrecords * size)
    then fault
    else block_read offset nrecords size content req w

unfoldable pub random_block_read : Host → Request → World → Answer
unfolding random_block_read_open
random_block_read host req w =
    on_open (fopen host (get_file_name req.block) w.files)
      (λ content. random_block_read_open content req w)
