-- ===== src/BasicSend/Files.antt =====
-- The senders of whole files in sw/spyvspy/basicsend.cpp: `sendROM`, `sendBIN`, `sendBASIC`, `netSend`.
use yamashnik.Prelude.{
  ℕ, ◌+◌, ◌-◌, ◌*◌, ◌/◌, ◌%◌, ◌^◌, Bool, true, false, ◌&&◌, not, List, [], ◌∷◌, Option, none, some,
  Bytes, u16, leb, ltb, ◌==◌, if◌then◌else◌, length, get_or, set, take, drop, Run, done, exited,
  fault, ◌>>=◌,
}
use yamashnik.Packet.{poke_packet}
use yamashnik.Sender.{splice}
use yamashnik.BasicSend.{
  Basic, rom2bin_start_code, size_8k, size_16k, size_32k, answered, send_blocks, send_shex_header,
  run_rom,
}

-- `fread(&binBuf, size, 1, file)`
unfoldable pub read_into : ℕ → Bytes → Bytes → Run Bytes
read_into size file buf =
    let got = take size file in
    if leb (length got) (length buf) then done (splice buf 0 got) else fault

-- The place and the byte of `patchAddr` and `patchVal`; `none` for a negative place.
abbrev pub patched : Option (ℕ × ℕ) → Bytes → Bytes
patched none buf = buf
patched (some (at, value)) buf = set buf at value

-- `binBuf` for a section of a ROM
unfoldable pub rom_section : Bytes → ℕ → Option (ℕ × ℕ) → Bytes → Run Bytes
rom_section file size patch buf = do
  buf1 ← read_into size file buf
  done (set (patched patch (splice buf1 size rom2bin_start_code)) 0 0)

-- `sendBlocks` and `runROM`
unfoldable pub send_program : ℕ → ℕ → ℕ → ℕ → ℕ → Basic → Run Basic
send_program fuel student start end run s = do
  d1 ← send_blocks student start end s.bin_buf s.line
  d2 ← run_rom fuel student run d1
  done (record s { line = d2 })

-- `sendSHEXHeader`, and `work` where it has been acknowledged; with the answer.
unfoldable pub with_header : ℕ → ℕ → ℕ → ℕ → (Basic → Run Basic) → Basic → Run (Bool × Basic)
with_header fuel student start end work s = do
  (got, d) ← send_shex_header fuel student start end s.line
  elim got [
    | true ↦ work (record s { line = d }) >>= λ s'. done (true, s')
    | false ↦ done (false, record s { line = d })
  ]

-- `sendROMSection`
unfoldable pub send_rom_section : ℕ → ℕ → Bytes → ℕ → Option (ℕ × ℕ) → Basic → Run (Bool × Basic)
send_rom_section fuel student file size patch s = do
  buf ← rom_section file size patch s.bin_buf
  let start : ℕ = 0x9000
  let end = u16 (start + size + length rom2bin_start_code - 1)
  let run = u16 (start + size)
  with_header fuel student start end (send_program fuel student start end run)
      (record s { bin_buf = buf })

-- The two sections of a ROM of 32K
unfoldable pub send_rom_32k : ℕ → ℕ → Bytes → Basic → Run (Bool × Basic)
send_rom_32k fuel student file s = do
  (first, s1) ←
      send_rom_section fuel student file size_16k
        (some (size_16k + length rom2bin_start_code - 9, 0)) s
  elim first [
    | true ↦
        send_rom_section fuel student (drop size_16k file) size_16k
          (some (size_16k + length rom2bin_start_code - 21, 0x80)) s1
    | false ↦ done (false, s1)
  ]

-- `sendROM`
unfoldable pub send_rom : ℕ → ℕ → Bytes → Basic → Run (Bool × Basic)
send_rom fuel student file s =
    let size = length file in
    if ltb size_32k size
    then done (false, s)
    else if not (size == size_8k) && (not (size == size_16k) && not (size == size_32k))
    then done (false, s)
    else if ltb size size_32k
    then send_rom_section fuel student file size none s
    else send_rom_32k fuel student file s

-- A little-endian word of a file
abbrev pub word_at : Bytes → ℕ → ℕ
word_at file i = get_or file i 0 + 256 * get_or file (i + 1) 0

-- The addresses that `sendBIN` leaves in its `out` parameters, where it is successful.
abbrev pub addresses : ℕ → ℕ → Bool × Basic → Run (Option (ℕ × ℕ) × Basic)
addresses start end (true, s) = done (some (start, end), s)
addresses start end (false, s) = done (none, s)

-- `sendBIN`, from the byte behind the magic on. The size is an `int` that becomes a `size_t`; what a
-- file of less than six bytes leaves in the addresses is not defined.
unfoldable pub send_bin : ℕ → ℕ → Bytes → Basic → Run (Option (ℕ × ℕ) × Basic)
send_bin fuel student file s =
    let start = word_at file 0 in
    let end = word_at file 2 in
    let run = word_at file 4 in
    if leb 6 (length file)
    then (do
      buf ← read_into ((2 ^ 64 + (end + 1) - start) % 2 ^ 64) (drop 6 file) s.bin_buf
      result ←
          with_header fuel student start end (send_program fuel student start end run)
            (record s { bin_buf = buf })
      addresses start end result)
    else fault

-- `sendPoke`
unfoldable pub send_poke : ℕ → ℕ → ℕ → Basic → Run (Bool × Basic)
send_poke student addr value s = do
  (got, d) ← answered (poke_packet 0 student addr value) s.line
  done (got, record s { line = d })

-- The end of `sendBASIC`: two pokes, the second only after the first.
unfoldable pub poke_end : ℕ → ℕ → Bool × Basic → Run (Bool × Basic)
poke_end student end (false, s) = done (false, s)
poke_end student end (true, s) = do
  (got, s1) ← send_poke student 0xF6C2 (end % 0x100) s
  elim got [ true ↦ send_poke student 0xF6C3 (end / 0x100) s1 | false ↦ done (false, s1) ]

-- `sendBASIC`, of a file with its first byte
unfoldable pub send_basic : ℕ → ℕ → Bytes → Basic → Run (Bool × Basic)
send_basic fuel student file s = do
  let size = length file
  buf ← read_into (size - 1) (drop 1 file) s.bin_buf
  let start : ℕ = 0x8001
  let end = u16 (start + size - 1)
  result ←
      with_header fuel student start end
        (λ s'.
          send_blocks student start end s'.bin_buf s'.line >>= λ d. done (record s' { line = d }))
        (record s { bin_buf = buf })
  poke_end student end result

-- The body of the loop of `netSend`, on what `fopen` finds; the results are not looked at.
unfoldable pub send_one : ℕ → ℕ → Option Bytes → Basic → Run Basic
send_one fuel student none s = exited
send_one fuel student (some []) s = exited
send_one fuel student (some (magic ∷ rest)) s =
    if magic == 0xfe
    then (send_bin fuel student rest s >>= λ (result, s'). done s')
    else if magic == 0xff
    then (send_basic fuel student (magic ∷ rest) s >>= λ (result, s'). done s')
    else if magic == 0x41
    then (send_rom fuel student (magic ∷ rest) s >>= λ (result, s'). done s')
    else exited

-- `netSend`
unfoldable pub net_send : ℕ → (Bytes → Option Bytes) → ℕ → List Bytes → Basic → Run Basic
net_send fuel files student [] s = done s
net_send fuel files student (name ∷ names) s =
    send_one fuel student (files name) s >>= net_send fuel files student names
