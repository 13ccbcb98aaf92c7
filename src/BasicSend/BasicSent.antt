-- ===== src/BasicSend/BasicSent.antt =====
-- `sendBASIC` of sw/spyvspy/basicsend.cpp at a workstation that answers each packet.
use Prim.Native.Nat.{bit_and}
use yamashnik.Prelude.{
  ℕ, ◌+◌, ◌-◌, ◌/◌, ◌%◌, ◌≤◌, ◌<◌, ◌≡◌, refl, sym, ap, ◌∙◌, true, false, [], ◌∷◌, ◌++◌, Bytes,
  arith, u8, u16, le→leb, length, length-drop, take, take_all, take-append, drop-append, ap₂, drop,
  Run, done, ◌>>=◌,
}
use mathlib.Core.Path.{subst}
use yamashnik.Wire.{header, send_header, send_escaped_byte, send_escaped_word, last_mark}
use yamashnik.Wire.Cmd
use yamashnik.Packet.{poke_packet}
use yamashnik.Sender.{send_packet_val, send_packet, frame, send_frame, splice}
use yamashnik.Sender.Receive.{length-splice}
use yamashnik.Sender.Ready.{Takes}
use yamashnik.Ncopy.Ping.{ping_frame}
use yamashnik.BasicSend.{Basic, answered, send_blocks}
use yamashnik.BasicSend.Files.{read_into, with_header, send_poke, poke_end, send_basic}
use yamashnik.BasicSend.Frames.{IsBlocks, full_count, fulls-IsBlocks, take-add}
use yamashnik.BasicSend.Exchange.{
  Exchange, >>=-Exchange, Exchange-eq, mapped-Exchange, answered-Exchange, header_frame,
}
use yamashnik.BasicSend.Transfer.{block_frames, send_blocks-Exchange}
use yamashnik.BasicSend.Sections.{on_line, with_header-Exchange}

-- A tokenized program that fits behind 0x8001, with its first byte.
pub record IsBasic (file : Bytes) (size : ℕ) : Type 0 where
  pub some_bytes : 0 < length file
  pub below : length file ≤ 0x7fff
  pub room : length file ≤ size

-- One byte more is sent than the file has left: what `binBuf` held there before.
abbrev pub basic_memory : Bytes → Bytes → Bytes
basic_memory file buf = drop 1 file ++ take 1 (drop (length file - 1) buf)

abbrev pub poke_frame : ℕ → ℕ → ℕ → Bytes
poke_frame student addr value =
    send_header (header 0 student Cmd.base)
    ++ (send_escaped_byte Cmd.poke
        ++ (send_escaped_word addr
            ++ (send_escaped_byte (u8 (bit_and value 255)) ++ last_mark ∷ [])))

poke-Takes :
    (student addr value : ℕ)
    → Takes (poke_packet 0 student addr value) (poke_frame student addr value)
unfolding send_packet_val send_packet frame send_frame poke_packet
poke-Takes student addr value d = refl

-- What `sendBASIC` sends: a ping and the header, the blocks, and the two halves of the end.
pub record IsBasicSent (student : ℕ) (file memory sent : Bytes) : Type 0 where
  pub blocks : Bytes
  pub is_blocks : IsBlocks student memory blocks
  pub frames :
      sent
      ≡ ((ping_frame student ++ header_frame student 0x8001 (0x8000 + length file)) ++ blocks)
        ++ (poke_frame student 0xF6C2 ((0x8000 + length file) % 0x100)
            ++ poke_frame student 0xF6C3 ((0x8000 + length file) / 0x100))

abbrev pub basic_turns : Bytes → ℕ
basic_turns file = full_count 0x8001 (0x8000 + length file) + 5

send_poke-Exchange :
    (student addr value : ℕ) (buf : Bytes)
    → Exchange
        (λ d. send_poke student addr value (on_line buf d))
        (λ d. (true, on_line buf d))
        1
        (poke_frame student addr value)
unfolding send_poke
send_poke-Exchange student addr value buf =
    mapped-Exchange (answered (poke_packet 0 student addr value)) (λ r. (r.0, on_line buf r.1))
      (λ d. (true, d)) 1 (poke_frame student addr value)
      (answered-Exchange (poke_packet 0 student addr value) (poke_frame student addr value)
        (poke-Takes student addr value))

poke_end-Exchange :
    (student end : ℕ) (buf : Bytes)
    → Exchange
        (λ d. poke_end student end (true, on_line buf d))
        (λ d. (true, on_line buf d))
        2
        (poke_frame student 0xF6C2 (end % 0x100) ++ poke_frame student 0xF6C3 (end / 0x100))
unfolding poke_end
poke_end-Exchange student end buf =
    >>=-Exchange (λ d. send_poke student 0xF6C2 (end % 0x100) (on_line buf d))
      (λ r. elim r.0 [
        | true ↦ send_poke student 0xF6C3 (end / 0x100) r.1
        | false ↦ done (false, r.1)
      ])
      (λ d. (true, on_line buf d)) (λ d. (true, on_line buf d)) 1 1
      (poke_frame student 0xF6C2 (end % 0x100)) (poke_frame student 0xF6C3 (end / 0x100))
      (send_poke-Exchange student 0xF6C2 (end % 0x100) buf)
      (send_poke-Exchange student 0xF6C3 (end / 0x100) buf)

abbrev pub basic_buffer : Bytes → Bytes → Bytes
basic_buffer file buf = splice buf 0 (drop 1 file)

module _ (fuel student : ℕ) (enough : 0 < fuel) (file buf : Bytes)
    (basic : IsBasic file (length buf)) where
  size : length (drop 1 file) ≡ length file - 1
  size = length-drop 1 file

  pub length-basic_buffer : length (basic_buffer file buf) ≡ length buf
  length-basic_buffer = length-splice buf (drop 1 file) 0 (omega (arith, basic.room, size))

  basic_read : read_into (length file - 1) (drop 1 file) buf ≡ done (basic_buffer file buf)
  unfolding read_into
  basic_read =
      rw
        (
          take_all (length file - 1) (drop 1 file) (omega (arith, size)),
          le→leb (length (drop 1 file)) (length buf) (omega (arith, basic.room, size)),
        )
        refl

  sent_memory :
      take (0x8000 + length file + 1 - 0x8001) (basic_buffer file buf) ≡ basic_memory file buf
  sent_memory =
      ap (λ k. take k (basic_buffer file buf)) count
      ∙ sym (take-add (length (drop 1 file)) 1 (basic_buffer file buf))
      ∙ ap₂ (λ x y. x ++ take 1 y) (take-append (length (drop 1 file)) (drop 1 file) rest refl)
          (drop-append (length (drop 1 file)) (drop 1 file) rest refl)
      ∙ ap (λ k. drop 1 file ++ take 1 (drop k buf)) place
    where
      rest : Bytes
      rest = drop (0 + length (drop 1 file)) buf

      count : 0x8000 + length file + 1 - 0x8001 ≡ length (drop 1 file) + 1
      count = omega (arith, size, basic.some_bytes)

      place : 0 + length (drop 1 file) ≡ length file - 1
      place = omega (arith, size)

  -- The whole of `sendBASIC`
  pub send_basic-Exchange :
      (bs : Bytes) × IsBasicSent student file (basic_memory file buf) bs
      × Exchange
          (λ d. send_basic fuel student file (on_line buf d))
          (λ d. (true, on_line (basic_buffer file buf) d))
          (basic_turns file)
          bs
  unfolding send_basic
  send_basic-Exchange =
      let blocks = block_frames student 0x8001 (0x8000 + length file) (basic_buffer file buf) in
      let cut : u16 (0x8001 + length file - 1) ≡ 0x8000 + length file =
        omega (arith, basic.some_bytes, basic.below) in
      (
        _,
        record {
          blocks = blocks;
          is_blocks =
              subst (λ m. IsBlocks student m blocks) sent_memory
                (fulls-IsBlocks 0x8001 (0x8000 + length file) (basic_buffer file buf)
                  (omega (arith, basic.some_bytes)) (omega (arith, basic.below))
                  (omega (arith, basic.room, length-basic_buffer)) student);
          frames = refl;
        },
        rw (basic_read, cut)
            (Exchange-eq _ _ (2 + (full_count 0x8001 end + 1) + 2) (basic_turns file) _ _
              (omega arith) refl
              (>>=-Exchange
                (λ d. with_header fuel student 0x8001 end work (on_line (basic_buffer file buf) d))
                (poke_end student end) (λ d. (true, on_line (basic_buffer file buf) d))
                (λ d. (true, on_line (basic_buffer file buf) d)) (2 + (full_count 0x8001 end + 1)) 2
                _ _
                (with_header-Exchange fuel student enough 0x8001 end (full_count 0x8001 end + 1)
                  blocks (basic_buffer file buf) work
                  (mapped-Exchange (send_blocks student 0x8001 end (basic_buffer file buf))
                    (on_line (basic_buffer file buf)) (λ d. d) (full_count 0x8001 end + 1) blocks
                    (send_blocks-Exchange student 0x8001 end (basic_buffer file buf)
                      (omega (arith, basic.some_bytes)) (omega (arith, basic.below))
                      (omega (arith, basic.room, length-basic_buffer)))))
                (poke_end-Exchange student end (basic_buffer file buf)))),
      )
    where
      end : ℕ
      end = 0x8000 + length file

      work : Basic → Run Basic
      work s' =
          send_blocks student 0x8001 end s'.bin_buf s'.line >>= λ d. done (record s' { line = d })
