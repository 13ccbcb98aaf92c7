-- ===== src/BasicSend/Sections.antt =====
-- The sections of a ROM that sw/spyvspy/basicsend.cpp sends, and the ROM as a whole.
use yamashnik.Prelude.{
  ℕ, ◌+◌, ◌-◌, ◌/◌, ◌≤◌, ◌<◌, ◌≡◌, ◌^◌, refl, ap, ◌∙◌, true, false, ◌++◌, Option, Bytes, arith, u16,
  length, take, Run, done, ◌>>=◌,
}
use mathlib.Core.Path.{subst}
use yamashnik.Serial.{Device}
use yamashnik.Sender.{Sender}
use yamashnik.Ncopy.Ping.{ping_frame}
use yamashnik.BasicSend.{Basic, size_16k, send_blocks, send_shex_header, run_rom, run_command}
use yamashnik.BasicSend.Files.{send_program, with_header, send_rom_section}
use yamashnik.BasicSend.Rom.{InCode, rom_image, rom_section-rom_image}
use yamashnik.BasicSend.Frames.{IsBlocks, full_count, fulls-IsBlocks}
use yamashnik.BasicSend.Exchange.{
  Exchange, >>=-Exchange, Exchange-eq, mapped-Exchange, header_frame, command_frame,
}
use yamashnik.BasicSend.Transfer.{
  block_frames, header-Exchange, run_rom-Exchange, send_blocks-Exchange,
}

-- What is sent for a section: a ping and the header with the two addresses, the blocks of the image, and
-- another ping and the command that runs what is behind the section.
pub record IsSection (student size : ℕ) (image sent : Bytes) : Type 0 where
  pub blocks : Bytes
  pub is_blocks : IsBlocks student image blocks
  pub frames :
      sent
      ≡ (ping_frame student ++ header_frame student 0x9000 (0x9000 + size + 52))
        ++ (blocks ++ (ping_frame student ++ command_frame student (run_command (0x9000 + size))))

-- Its packets, each with an answer
abbrev pub section_turns : ℕ → ℕ
section_turns size = (size + 52) / 56 + 5

abbrev pub on_line : Bytes → Device Sender → Basic
on_line buf d = record { line = d; bin_buf = buf }

module _ (fuel student : ℕ) (enough : 0 < fuel) where
  pub send_program-Exchange :
      (start end run : ℕ) (buf : Bytes)
      → start ≤ end
      → end < 2 ^ 16
      → end + 1 - start ≤ length buf
      → Exchange
          (λ d. send_program fuel student start end run (on_line buf d))
          (on_line buf)
          (full_count start end + 1 + 2)
          (block_frames student start end buf
            ++ (ping_frame student ++ command_frame student (run_command run)))
  unfolding send_program
  send_program-Exchange start end run buf order below fits =
      >>=-Exchange (send_blocks student start end buf)
        (λ d1. run_rom fuel student run d1 >>= λ d2. done (on_line buf d2)) (λ d. d) (on_line buf)
        (full_count start end + 1) 2 (block_frames student start end buf)
        (ping_frame student ++ command_frame student (run_command run))
        (send_blocks-Exchange student start end buf order below fits)
        (mapped-Exchange (run_rom fuel student run) (on_line buf) (λ d. d) 2
          (ping_frame student ++ command_frame student (run_command run))
          (run_rom-Exchange fuel student enough run))

  pub with_header-Exchange :
      (start end n : ℕ) (bs buf : Bytes) (work : Basic → Run Basic)
      → Exchange (λ d. work (on_line buf d)) (on_line buf) n bs
      → Exchange
          (λ d. with_header fuel student start end work (on_line buf d))
          (λ d. (true, on_line buf d))
          (2 + n)
          ((ping_frame student ++ header_frame student start end) ++ bs)
  unfolding with_header
  with_header-Exchange start end n bs buf work h =
      >>=-Exchange (send_shex_header fuel student start end)
        (λ r. elim r.0 [
          | true ↦ work (on_line buf r.1) >>= λ s'. done (true, s')
          | false ↦ done (false, on_line buf r.1)
        ])
        (λ d. (true, d)) (λ d. (true, on_line buf d)) 2 n
        (ping_frame student ++ header_frame student start end) bs
        (header-Exchange fuel student enough start end)
        (mapped-Exchange (λ d. work (on_line buf d)) (λ s'. (true, s')) (on_line buf) n bs h)

  -- A section that the file holds whole.
  pub send_rom_section-Exchange :
      (size : ℕ) (file buf : Bytes) (patch : Option (ℕ × ℕ))
      → 0 < size
      → size ≤ size_16k
      → size ≤ length file
      → size + 53 ≤ length buf
      → InCode size patch
      → (buf' : Bytes) × (length buf' ≡ length buf)
        × ((bs : Bytes) × IsSection student size (rom_image (take size file) size patch) bs
            × Exchange
                (λ d. send_rom_section fuel student file size patch (on_line buf d))
                (λ d. (true, on_line buf' d))
                (section_turns size)
                bs)
  unfolding send_rom_section
  send_rom_section-Exchange size file buf patch some_bytes small whole room h =
      let (buf', e, image, same) =
        rom_section-rom_image file buf size patch some_bytes whole room h in
      let cut : u16 (0x9000 + size + 53 - 1) ≡ 0x9000 + size + 52 = omega arith in
      let cut_run : u16 (0x9000 + size) ≡ 0x9000 + size = omega arith in
      let total : 0x9000 + size + 52 + 1 - 0x9000 ≡ size + 53 = omega arith in
      let blocks = block_frames student 0x9000 (0x9000 + size + 52) buf' in
      (
        buf',
        same,
        (
          _,
          record {
            blocks = blocks;
            is_blocks =
                subst (λ m. IsBlocks student m blocks) (ap (λ k. take k buf') total ∙ image)
                  (fulls-IsBlocks 0x9000 (0x9000 + size + 52) buf' (omega arith) (omega arith)
                    (omega (arith, same)) student);
            frames = refl;
          },
          rw (e, cut, cut_run)
              (Exchange-eq _ _ (2 + (full_count 0x9000 (0x9000 + size + 52) + 1 + 2))
                (section_turns size) _ _ (omega arith) refl
                (with_header-Exchange 0x9000 (0x9000 + size + 52) _ _ buf'
                  (send_program fuel student 0x9000 (0x9000 + size + 52) (0x9000 + size))
                  (send_program-Exchange 0x9000 (0x9000 + size + 52) (0x9000 + size) buf'
                    (omega arith) (omega arith) (omega (arith, same))))),
        ),
      )
