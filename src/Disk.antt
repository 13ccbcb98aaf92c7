-- ===== src/Disk.antt =====
-- The part of the C library's files that sw/spyvspy/spybdos.h uses, on whole files as byte lists. What
-- belongs to the host is a parameter: which names it lets the program open, remove or rename,
-- what a directory lists, and the time of a file. Failures of reading and writing an open file are not
-- modelled.
pub mod Places
pub mod Names
use yamashnik.Prelude.{
  ℕ, ◌+◌, ◌-◌, Bool, List, [], ◌++◌, Option, none, some, Bytes, if◌then◌else◌, length, take, drop,
  replicate, Run, done, fault,
}
use yamashnik.Globor.{equal}
use yamashnik.Dirent.{Tm}

-- The files of the served directory.
abbrev pub Files : Type 0
Files = Bytes → Option Bytes

pub record Host : Type 0 where
  pub allowed : Bytes → Bool
  -- The names that `readdir` gives after `opendir`, or `none` where `opendir` fails.
  pub listing : Files → Option (List Bytes)
  -- `stat` and `localtime_r`, or `none` where `stat` fails.
  pub modified : Files → Bytes → Option Tm

unfoldable pub put : Bytes → Option Bytes → Files → Files
put name v files n = if equal n name then v else files n

-- `fopen(name, "rb")` and `fopen(name, "r+")`: the bytes of the file, or a null pointer.
unfoldable pub fopen : Host → Bytes → Files → Option Bytes
fopen host name files = if host.allowed name then files name else none

-- `fopen(name, "w")`: an empty file, old or new.
unfoldable pub fopen_write : Host → Bytes → Files → Option Files
fopen_write host name files = if host.allowed name then some (put name (some []) files) else none

-- `fclose` of a null pointer is undefined.
unfoldable pub fclose : Option Bytes → Run (Unit {0})
fclose none = fault
fclose (some content) = done tt

-- `fseek` to an offset and `fread` of `n` bytes there.
unfoldable pub read_at : ℕ → ℕ → Bytes → Bytes
read_at offset n content = take n (drop offset content)

-- `fseek` to an offset, which may lie behind the end, and `fwrite`: a gap is filled with zeros.
unfoldable pub write_at : ℕ → Bytes → Bytes → Bytes
write_at offset bs content =
    take offset (content ++ replicate (offset - length content) 0)
    ++ (bs ++ drop (offset + length bs) content)

-- `unlink`
unfoldable pub unlink : Host → Bytes → Files → Option Files
unlink host name files = elim (fopen host name files) [
  | none ↦ none
  | some content ↦ some (put name none files)
]

-- `rename`: the old name is gone and the new one holds its bytes.
unfoldable pub rename : Host → Bytes → Bytes → Files → Option Files
rename host from to files = elim (fopen host from files) [
  | none ↦ none
  | some content ↦
      if host.allowed to then some (put to (some content) (put from none files)) else none
]
