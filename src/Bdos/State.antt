-- ===== src/Bdos/State.antt =====
-- The state of `NetBDOS`, and its private helpers, in sw/spyvspy/spybdos.h. What is printed is not
-- modelled, but for the code of the last request, which decides about the newlines.
use yamashnik.Prelude.{
  ℕ, ◌+◌, ◌*◌, ◌%◌, ◌^◌, ◌-◌, Option, none, some, Bytes, u8, u32, ltb, ◌==◌, if◌then◌else◌, length,
  Run, get_or, fault,
}
use yamashnik.Fcb.{Fcb, get_extent, set_extent}
use yamashnik.Globor.{Globor}
use yamashnik.Request.{Request}
use yamashnik.Response.{Response}
use yamashnik.Disk.{Files, Host, fopen}

-- `m_lastRequest` is -1, here `none`, before the first request; `m_globbuf` is never used.
pub record Bdos : Type 0 where
  pub disk : ℕ
  pub globor : Globor
  pub last_request : Option ℕ

-- The server and the directory that it serves.
pub record World : Type 0 where
  pub bdos : Bdos
  pub files : Files

abbrev pub Answer : Type 0
Answer = Run (Response × World)

-- A handler's work on a file that could be opened. With a null pointer `fseek` or `fclose` is undefined.
abbrev pub on_open : Option Bytes → (Bytes → Answer) → Answer
on_open none work = fault
on_open (some content) work = work content

-- `GetBDOSFunc`
abbrev pub get_bdos_func : Request → ℕ
get_bdos_func r = r.func + 14

-- `newline` and `newlineIfNewFunc` leave the same state.
unfoldable pub newline : Request → World → World
newline r w = record w { bdos = record (w.bdos) { last_request = some (get_bdos_func r) } }

-- `GetAuxData(i)`
abbrev pub get_aux_data : Request → ℕ → ℕ
get_aux_data r i = get_or r.aux i 0

-- `internalGetFileSize` of an open file
unfoldable pub open_file_size : Bytes → ℕ
open_file_size content = if ltb 737820 (length content) then 737820 else length content

-- `internalGetFileSize(filename)`; `none` is -1. A null name, which `fopen` does
-- not allow, is taken as the GNU C library takes it: the file is not opened.
unfoldable pub file_size_of : Host → Files → Option Bytes → Option ℕ
file_size_of host files none = none
file_size_of host files (some name) = elim (fopen host name files) [
  | none ↦ none
  | some content ↦ some (open_file_size content)
]

-- An `int` size stored in the unsigned field: -1 becomes the largest value.
unfoldable pub stored_size : Option ℕ → ℕ
stored_size none = 2 ^ 32 - 1
stored_size (some n) = n

-- `128 * recordsize * extent + recordno * recordsize`, in `uint32_t`
unfoldable pub sequential_offset : Fcb → ℕ
sequential_offset f = u32 (u32 (128 * 128 * get_extent f) + u32 (f.current_record * 128))

-- The record number of a random access has 24 bits.
unfoldable pub random_offset : Fcb → ℕ
random_offset f = u32 (f.random_record % 2 ^ 24 * 128)

-- To the next record, and at the end of an extent to the next extent.
unfoldable pub advance : Fcb → Fcb
advance f =
    let g = record f { current_record = u8 (f.current_record + 1) } in
    if g.current_record == 0x80
    then set_extent (get_extent g + 1) (record g { current_record = 0 })
    else g
