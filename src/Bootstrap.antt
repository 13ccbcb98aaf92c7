-- ===== src/Bootstrap.antt =====
-- The start of a workstation: `Spy` of sw/spyvspy/spy.h and spy.cpp, but for `Serve`. The files that can
-- be opened are a function from paths; what `stat` and `which` say of the program's own path are
-- parameters. What is printed and the pauses are not modelled.
pub mod Remote
pub mod Upload
pub mod Launch
pub mod Phase
use Prim.Native.Nat.{bit_or}
use yamashnik.Prelude.{
  ℕ, zero, suc, ◌+◌, ◌-◌, ◌*◌, ◌/◌, ◌%◌, ◌^◌, Bool, true, false, ◌||◌, ◌&&◌, not, List, [], ◌∷◌,
  ◌++◌, Option, none, some, Bytes, u16, leb, ltb, ◌==◌, if◌then◌else◌, length, get_or, set, take,
  drop, Run, done, exited, fault, ◌>>=◌, min,
}
use yamashnik.Serial.{Device, Port, transmit}
use yamashnik.Response.{send_byte, send_word}
use yamashnik.Sender.{Sender}
use yamashnik.BasicSend.{Basic, send_command}
use yamashnik.BasicSend.Files.{send_bin}
use yamashnik.Transport.{send_memory}

-- `RAMIMAGE`, `BDOS` and `STRAPON`
abbrev pub ram_image : Bytes
ram_image = b'm' ∷ b'e' ∷ b'm' ∷ b'o' ∷ b'r' ∷ b'y' ∷ b'.' ∷ b'r' ∷ b'a' ∷ b'm' ∷ []

abbrev pub bdos_image : Bytes
bdos_image =
    b's' ∷ b'p' ∷ b'y' ∷ b'_' ∷ b'b' ∷ b'd' ∷ b'o' ∷ b's' ∷ b'_' ∷ b'e' ∷ b'9' ∷ b'0' ∷ b'0' ∷ b'.'
    ∷ b'r' ∷ b'a' ∷ b'm' ∷ []

abbrev pub strap_on : Bytes
strap_on =
    b's' ∷ b'p' ∷ b'y' ∷ b'_' ∷ b'b' ∷ b'o' ∷ b'o' ∷ b't' ∷ b's' ∷ b't' ∷ b'r' ∷ b'a' ∷ b'p' ∷ b'.'
    ∷ b'b' ∷ b'i' ∷ b'n' ∷ []

-- What stands before the last slash; `none` where `strrchr` finds none.
unfoldable pub before_slash : Bytes → Option Bytes
before_slash [] = none
before_slash (b ∷ bs) =
    let rest = before_slash bs in
    elim rest [ some p ↦ some (b ∷ p) | none ↦ if b == b'/' then some [] else none ]

-- `pathend - fullPath` has no meaning where `pathend` is null.
directory_of : Option Bytes → Run Bytes
directory_of none = fault
directory_of (some p) = done p

-- `extractExePath`: `found` says whether `stat` finds `m_argv0`, `which` is what `which` prints.
unfoldable pub extract_exe_path : Bytes → Bool → Option Bytes → Run Bytes
unfolding directory_of
extract_exe_path argv0 true which = directory_of (before_slash argv0)
extract_exe_path argv0 false which =
    if ltb 1000 (length argv0)
    then exited
    else elim which [ none ↦ exited | some path ↦ directory_of (before_slash path) ]

abbrev pub in_directory : Bytes → Bytes → Bytes
in_directory dir name = dir ++ b'/' ∷ name

-- The path that `loadFile` opens
unfoldable pub path_of : Bytes → Bytes → Bytes
path_of dir name =
    let first = get_or name 0 0 in
    if first == b'/' || first == b'.' then name else in_directory dir name

-- `loadFile` on the file that it has opened, where the size -1 is `none`
unfoldable pub load_content : Option Bytes → Option ℕ → ℕ × Option Bytes
load_content none expected = (0, none)
load_content (some content) (some size) = let got = take size content in (length got, some got)
load_content (some content) none =
    let got = take (min (length content) 0x8000) content in (length got, some got)

-- `loadFile(filename, buf, expectedSize)`: the number of bytes read, and those bytes, or `none` where
-- `buf` is left as it was.
unfoldable pub load_file : Bytes → (Bytes → Option Bytes) → Bytes → Option ℕ → ℕ × Option Bytes
load_file dir files name expected = load_content (files (path_of dir name)) expected

-- `m_MSXRAM` and `m_BDOS`, which `initData` reads in its messages: a null pointer is a fault.
unfoldable pub loaded : ℕ × Option Bytes → Run (ℕ × Bytes)
loaded (n, none) = fault
loaded (n, some bs) = done (n, bs)

-- The two images; `m_BDOSSize` is the length of the second.
pub record Images : Type 0 where
  pub ram : Bytes
  pub bdos : Bytes

-- `initData` behind `extractExePath`; `none` is the result 0.
unfoldable pub init_data : Bytes → (Bytes → Option Bytes) → Run (Option Images)
init_data dir files = do
  (n, ram) ← loaded (load_file dir files ram_image (some 65536))
  elim n [
    | zero ↦ done none
    | suc _ ↦ loaded (load_file dir files bdos_image none) >>= λ (m, bdos). elim m [
      | zero ↦ done none
      | suc _ ↦ done (some (record { ram = ram; bdos = bdos }))
    ]
  ]

-- The address in the sixth and seventh byte of the memory image
unfoldable pub bdos_start : Bytes → ℕ
bdos_start ram = bit_or (get_or ram 6 0) (get_or ram 7 0 * 2 ^ 8)

-- The flag of MSX-DOS is cleared.
unfoldable pub patched_ram : Bytes → Bytes
patched_ram ram = let start = bdos_start ram in set ram (start - start % 256 + 0x1A) 0

-- `SendMemory(m_MSXRAM + start, start, end - start)`, whose length is an `int`.
unfoldable pub send_area : Bytes → ℕ → ℕ → Run Bytes
send_area ram start end =
    if leb start end
    then send_memory (drop start ram) start (end - start)
    else done (send_byte 1 ++ (send_word start ++ send_word (2 ^ 16 + end - start)))

-- The second phase of `Bootstrap`: what it sends of the images.
unfoldable pub upload : Images → ℕ → ℕ → Run Bytes
upload images boot_start boot_end = do
  let start = bdos_start images.ram
  let ram = patched_ram images.ram
  zero_page ← send_memory images.ram 0 256
  below ← (if ltb start boot_start then send_area ram start boot_start else done [])
  above ← send_area ram (if ltb start boot_start then boot_end else start) 0xf380
  bdos ← send_memory images.bdos 0xe900 (length images.bdos)
  done (zero_page ++ (below ++ (above ++ bdos)))

-- The third phase: the program file, if one is named and not empty.
unfoldable pub upload_program : Bytes → (Bytes → Option Bytes) → List Bytes → Run Bytes
upload_program dir files [] = done []
upload_program dir files (name ∷ names) = elim ((load_file dir files name none).1) [
  | none ↦ done []
  | some [] ↦ done []
  | some (b ∷ bs) ↦ send_memory (b ∷ bs) 0x100 (length (b ∷ bs))
]

-- `    WIDTH 80:COLOR9,1`
abbrev pub width_command : Bytes
width_command =
    b' ' ∷ b' ' ∷ b' ' ∷ b' ' ∷ b'W' ∷ b'I' ∷ b'D' ∷ b'T' ∷ b'H' ∷ b' ' ∷ b'8' ∷ b'0' ∷ b':' ∷ b'C'
    ∷ b'O' ∷ b'L' ∷ b'O' ∷ b'R' ∷ b'9' ∷ b',' ∷ b'1' ∷ []

-- The first phase: the bootstrap code is sent and run. `none` where `Bootstrap` returns 0.
unfoldable pub send_bootstrap : ℕ → ℕ → Option Bytes → Basic → Run (Option (ℕ × ℕ) × Basic)
send_bootstrap fuel student none s = done (none, s)
send_bootstrap fuel student (some []) s = done (none, s)
send_bootstrap fuel student (some (sig ∷ code)) s =
    if sig == 0xfe
    then (do
      (got, line) ← send_command student width_command s.line
      elim got [
        | true ↦ send_bin fuel student code (record s { line = line })
        | false ↦ done (none, record s { line = line })
      ])
    else done (none, s)

-- `Bootstrap` up to its call of `Serve`; the port is passed on from the packets to the transport.
unfoldable pub bootstrap :
    ℕ → ℕ → Bytes → (Bytes → Option Bytes) → List Bytes → Images → Basic → Run (Bool × Basic)
bootstrap fuel student dir files names images s = do
  (addresses, s1) ← send_bootstrap fuel student (files (in_directory dir strap_on)) s
  elim addresses [
    | none ↦ done (false, s1)
    | some (boot_start, boot_end) ↦ do
      memory ← upload images boot_start boot_end
      program ← upload_program dir files names
      let port = transmit (memory ++ (program ++ send_byte 2)) s1.line.port
      done (true, record s1 { line = record (s1.line) { port = port } })
  ]
