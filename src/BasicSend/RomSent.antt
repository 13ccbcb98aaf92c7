-- ===== src/BasicSend/RomSent.antt =====
-- `sendROM` of sw/spyvspy/basicsend.cpp as a whole.
use yamashnik.Prelude.{
  ℕ, ◌+◌, ◌-◌, ◌≤◌, ◌<◌, ◌≡◌, ◌⊎◌, refl, ◌∙◌, inl, inr, true, false, List, ◌++◌, Option, none, some,
  Bytes, arith, All, ltb, if◌then◌else◌, length, length-drop, take, drop, done, lt→ltb,
}
use yamashnik.Serial.{Event}
use yamashnik.Sender.Answered.{Replied}
use yamashnik.BasicSend.{Basic, rom2bin_start_code, size_8k, size_16k, size_32k}
use yamashnik.BasicSend.Files.{send_rom_section, send_rom_32k, send_rom}
use yamashnik.BasicSend.Rom.{rom_image}
use yamashnik.BasicSend.Exchange.{Turn, IsTurn, script, Exchange, >>=-Exchange}
use yamashnik.BasicSend.Sections.{IsSection, section_turns, on_line, send_rom_section-Exchange}

-- The patches of the start code behind the first and the second half.
abbrev pub first_patch : Option (ℕ × ℕ)
first_patch = some (size_16k + length rom2bin_start_code - 9, 0)

abbrev pub second_patch : Option (ℕ × ℕ)
second_patch = some (size_16k + length rom2bin_start_code - 21, 0x80)

-- What is sent for a ROM of 32K: its two halves.
pub record IsHalves (student : ℕ) (file sent : Bytes) : Type 0 where
  pub first : Bytes
  pub second : Bytes
  pub is_first :
      IsSection student size_16k (rom_image (take size_16k file) size_16k first_patch) first
  pub is_second :
      IsSection student size_16k
        (rom_image (take size_16k (drop size_16k file)) size_16k second_patch)
        second
  pub together : sent ≡ first ++ second

-- A file of 8K or 16K is one section.
abbrev pub IsRom : ℕ → Bytes → Bytes → Type 0
IsRom student file sent =
    ((length file < size_32k)
      × IsSection student (length file) (rom_image (take (length file) file) (length file) none)
          sent)
    ⊎ ((length file ≡ size_32k) × IsHalves student file sent)

abbrev pub rom_turns : Bytes → ℕ
rom_turns file =
    if ltb (length file) size_32k
    then section_turns (length file)
    else section_turns size_16k + section_turns size_16k

module _ (fuel student : ℕ) (enough : 0 < fuel) (file buf : Bytes) where
  send_rom_32k-Exchange :
      length file ≡ size_32k
      → size_16k + 53 ≤ length buf
      → (buf' : Bytes) × (length buf' ≡ length buf)
        × ((bs : Bytes) × IsHalves student file bs
            × Exchange
                (λ d. send_rom_32k fuel student file (on_line buf d))
                (λ d. (true, on_line buf' d))
                (section_turns size_16k + section_turns size_16k)
                bs)
  unfolding send_rom_32k
  send_rom_32k-Exchange whole room =
      let (buf1, same1, (x, section1, e1)) =
        send_rom_section-Exchange fuel student enough size_16k file buf first_patch (omega arith)
          (omega arith) (omega arith) room (omega arith, omega arith) in
      let (buf2, same2, (y, section2, e2)) =
        send_rom_section-Exchange fuel student enough size_16k (drop size_16k file) buf1
          second_patch (omega arith) (omega arith) (omega (arith, length-drop size_16k file))
          (omega (arith, same1)) (omega arith, omega arith) in
      (
        buf2,
        same2 ∙ same1,
        (
          x ++ y,
          record {
            first = x;
            second = y;
            is_first = section1;
            is_second = section2;
            together = refl;
          },
          >>=-Exchange
              (λ d. send_rom_section fuel student file size_16k first_patch (on_line buf d))
              (λ r. elim r.0 [
                | true ↦
                    send_rom_section fuel student (drop size_16k file) size_16k second_patch r.1
                | false ↦ done (false, r.1)
              ])
              (λ d. (true, on_line buf1 d)) (λ d. (true, on_line buf2 d)) (section_turns size_16k)
              (section_turns size_16k) x y e1 e2,
        ),
      )

send_rom-small :
    (fuel student : ℕ) (file : Bytes) (s : Basic)
    → (length file ≡ size_8k) ⊎ (length file ≡ size_16k)
    → send_rom fuel student file s ≡ send_rom_section fuel student file (length file) none s
unfolding send_rom
send_rom-small fuel student file s (inl e) = rw e refl
send_rom-small fuel student file s (inr e) = rw e refl

send_rom-large :
    (fuel student : ℕ) (file : Bytes) (s : Basic)
    → length file ≡ size_32k
    → send_rom fuel student file s ≡ send_rom_32k fuel student file s
unfolding send_rom
send_rom-large fuel student file s e = rw e refl

size_bounds : (n : ℕ) → (n ≡ size_8k) ⊎ (n ≡ size_16k) → (0 < n) × (n ≤ size_16k) × (n < size_32k)
size_bounds n (inl e) = omega arith
size_bounds n (inr e) = omega arith

-- The turns of a ROM of one section
small_turns : (file : Bytes) → length file < size_32k → rom_turns file ≡ section_turns (length file)
small_turns file h = rw (lt→ltb (length file) size_32k h) refl

large_turns :
    (file : Bytes)
    → length file ≡ size_32k
    → rom_turns file ≡ section_turns size_16k + section_turns size_16k
large_turns file e = rw e refl

-- A ROM that `sendROM` takes
abbrev pub IsRomSize : ℕ → Type 0
IsRomSize n = (n ≡ size_8k) ⊎ ((n ≡ size_16k) ⊎ (n ≡ size_32k))

module _ (fuel student : ℕ) (enough : 0 < fuel) (file buf : Bytes)
    (room : size_16k + 53 ≤ length buf) where
  abbrev RomExchange : Type 0
  RomExchange =
      (buf' : Bytes) × (length buf' ≡ length buf)
      × ((bs : Bytes) × IsRom student file bs
          × Exchange (λ d. send_rom fuel student file (on_line buf d)) (λ d. (true, on_line buf' d))
              (rom_turns file) bs)

  small-Exchange : (length file ≡ size_8k) ⊎ (length file ≡ size_16k) → RomExchange
  small-Exchange size =
      let (some_bytes, small, one) = size_bounds (length file) size in
      let (buf', same, (bs, section, exchange)) =
        send_rom_section-Exchange fuel student enough (length file) file buf none some_bytes small
          (omega arith) (omega (arith, small, room)) tt in
      (
        buf',
        same,
        (
          bs,
          inl (one, section),
          λ ts es d count turns input whole.
              let (d', e, r) = exchange ts es d (count ∙ small_turns file one) turns input whole in
              (d', send_rom-small fuel student file (on_line buf d) size ∙ e, r),
        ),
      )

  large-Exchange : length file ≡ size_32k → RomExchange
  large-Exchange size =
      let (buf', same, (bs, halves, exchange)) =
        send_rom_32k-Exchange fuel student enough file buf size room in
      (
        buf',
        same,
        (
          bs,
          inr (size, halves),
          λ ts es d count turns input whole.
              let (d', e, r) = exchange ts es d (count ∙ large_turns file size) turns input whole in
              (d', send_rom-large fuel student file (on_line buf d) size ∙ e, r),
        ),
      )

  pub send_rom-Exchange : IsRomSize (length file) → RomExchange
  send_rom-Exchange (inl size) = small-Exchange (inl size)
  send_rom-Exchange (inr (inl size)) = small-Exchange (inr size)
  send_rom-Exchange (inr (inr size)) = large-Exchange size

-- For a ROM of 8K, 16K or 32K, a `binBuf` with room for a section and the start code, a receive buffer
-- of 1024 bytes, and a workstation that answers each packet before the wait for it is over: `sendROM`
-- returns 1 and has read these answers and nothing behind them. It has sent one section, or the two
-- halves of a ROM of 32K: each a ping, the header with the addresses, in blocks the bytes of the section, of
-- which the first is set to 0, with its start code behind them, a ping, and the command that runs the start
-- code.
pub send_rom-IsRom :
    (fuel student : ℕ) (file : Bytes) (ts : List Turn) (es : List Event) (s : Basic)
    → 0 < fuel
    → IsRomSize (length file)
    → size_16k + 53 ≤ length s.bin_buf
    → length ts ≡ rom_turns file
    → All IsTurn ts
    → s.line.port.input ≡ script ts es
    → length s.line.self.buf ≡ 1024
    → (s' : Basic) × (send_rom fuel student file s ≡ done (true, s'))
      × ((bs : Bytes) × IsRom student file bs × Replied (s.line.port.sent ++ bs) es s'.line)
send_rom-IsRom fuel student file ts es s enough size room count turns input whole =
    let (buf', same, (bs, rom, exchange)) =
      send_rom-Exchange fuel student enough file s.bin_buf room size in
    let (d', e, r) = exchange ts es s.line count turns input whole in
    (on_line buf' d', e, (bs, rom, r))
