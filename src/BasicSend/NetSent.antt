-- ===== src/BasicSend/NetSent.antt =====
-- `netSend` of sw/spyvspy/basicsend.cpp: all the files of a command, to a workstation that answers each
-- packet.
use yamashnik.Sender.Answered.{Replied}
use yamashnik.Serial.{Event}
use yamashnik.Prelude.{
  ℕ, ◌+◌, ◌≤◌, ◌<◌, ◌≡◌, refl, sym, ◌∙◌, List, [], ◌∷◌, ◌++◌, Option, some, Bytes, length, done,
  ◌>>=◌, All,
}
use mathlib.Core.Path.{subst}
use yamashnik.BasicSend.{Basic, size_16k}
use yamashnik.BasicSend.Files.{send_bin, send_basic, send_rom, send_one, net_send}
use yamashnik.BasicSend.Exchange.{
  Turn, IsTurn, script, Exchange, >>=-Exchange, mapped-Exchange, nothing-Exchange, same-Exchange,
}
use yamashnik.BasicSend.Sections.{on_line}
use yamashnik.BasicSend.BinSent.{
  IsBin, IsBinSent, bin_memory, bin_turns, bin_buffer, length-bin_buffer, send_bin-Exchange,
}
use yamashnik.BasicSend.BasicSent.{
  IsBasic, IsBasicSent, basic_memory, basic_turns, basic_buffer, length-basic_buffer,
  send_basic-Exchange,
}
use yamashnik.BasicSend.RomSent.{IsRom, IsRomSize, rom_turns, send_rom-Exchange}

-- A file that can be sent with a `binBuf` of this size, by its first byte.
pub data Program (size : ℕ) (file : Bytes) : Type 0 where
  bin : (rest : Bytes) → file ≡ 0xfe ∷ rest → IsBin rest size → Program size file
  basic : (rest : Bytes) → file ≡ 0xff ∷ rest → IsBasic file size → Program size file
  rom :
      (rest : Bytes)
      → file ≡ 0x41 ∷ rest
      → IsRomSize (length file)
      → size_16k + 53 ≤ size
      → Program size file

abbrev pub turns_of : (size : ℕ) (file : Bytes) → Program size file → ℕ
turns_of size file (bin rest e h) = bin_turns rest
turns_of size file (basic rest e h) = basic_turns file
turns_of size file (rom rest e h room) = rom_turns file

-- What is sent for it, and `binBuf` before and after. Where a BIN file is shorter than its addresses say,
-- and for one byte behind a BASIC program, that is what `binBuf` held before; what it holds behind a ROM is
-- left open.
abbrev pub ProgramSent :
    ℕ → (size : ℕ) (file : Bytes) → Program size file → Bytes → Bytes → Bytes → Type 0
ProgramSent student size file (bin rest e h) buf buf' sent =
    (buf' ≡ bin_buffer rest buf) × IsBinSent student rest (bin_memory rest buf) sent
ProgramSent student size file (basic rest e h) buf buf' sent =
    (buf' ≡ basic_buffer file buf) × IsBasicSent student file (basic_memory file buf) sent
ProgramSent student size file (rom rest e h room) buf buf' sent = IsRom student file sent

module _ (fuel student : ℕ) (enough : 0 < fuel) (size : ℕ) where
  send_one-send_basic :
      (file rest : Bytes) (s : Basic)
      → file ≡ 0xff ∷ rest
      → send_one fuel student (some file) s
        ≡ (send_basic fuel student file s >>= λ (result, s'). done s')
  unfolding send_one
  send_one-send_basic file rest s e = rw e refl

  send_one-send_rom :
      (file rest : Bytes) (s : Basic)
      → file ≡ 0x41 ∷ rest
      → send_one fuel student (some file) s
        ≡ (send_rom fuel student file s >>= λ (result, s'). done s')
  unfolding send_one
  send_one-send_rom file rest s e = rw e refl

  -- One file; the size of `binBuf` stays.
  one_sent :
      (file buf : Bytes) (p : Program size file)
      → length buf ≡ size
      → (buf' : Bytes) × (length buf' ≡ size)
        × ((bs : Bytes) × ProgramSent student size file p buf buf' bs
            × Exchange
                (λ d. send_one fuel student (some file) (on_line buf d))
                (on_line buf')
                (turns_of size file p)
                bs)
  unfolding send_one
  one_sent file buf (bin rest e h) all =
      let here : IsBin rest (length buf) = subst (λ n. IsBin rest n) (sym all) h in
      let (bs, sent, exchange) = send_bin-Exchange fuel student enough rest buf here in
      (
        bin_buffer rest buf,
        length-bin_buffer fuel student enough rest buf here ∙ all,
        (
          bs,
          (refl, sent),
          rw e (
              mapped-Exchange (λ d. send_bin fuel student rest (on_line buf d)) (λ r. r.1) _
                (bin_turns rest) bs exchange),
        ),
      )
  one_sent file buf (basic rest e h) all =
      let here : IsBasic file (length buf) = subst (λ n. IsBasic file n) (sym all) h in
      let (bs, sent, exchange) = send_basic-Exchange fuel student enough file buf here in
      (
        basic_buffer file buf,
        length-basic_buffer fuel student enough file buf here ∙ all,
        (
          bs,
          (refl, sent),
          same-Exchange _ (λ d. send_one fuel student (some file) (on_line buf d)) _ _ _
              (λ d. send_one-send_basic file rest (on_line buf d) e)
              (mapped-Exchange (λ d. send_basic fuel student file (on_line buf d)) (λ r. r.1) _
                (basic_turns file) bs exchange),
        ),
      )
  one_sent file buf (rom rest e h room) all =
      let (buf', same, (bs, sent, exchange)) =
        send_rom-Exchange fuel student enough file buf
          (subst (λ n. size_16k + 53 ≤ n) (sym all) room) h in
      (
        buf',
        same ∙ all,
        (
          bs,
          sent,
          same-Exchange _ (λ d. send_one fuel student (some file) (on_line buf d)) _ _ _
              (λ d. send_one-send_rom file rest (on_line buf d) e)
              (mapped-Exchange (λ d. send_rom fuel student file (on_line buf d)) (λ r. r.1) _
                (rom_turns file) bs exchange),
        ),
      )

-- The names of a command, each of a file that can be sent with a `binBuf` of this size.
pub data Programs (files : Bytes → Option Bytes) (size : ℕ) : List Bytes → Type 0 where
  no_program : Programs files size []
  program :
      (name file : Bytes) (names : List Bytes)
      → files name ≡ some file
      → Program size file
      → Programs files size names
      → Programs files size (name ∷ names)

module _ {files : Bytes → Option Bytes} {size : ℕ} where
  -- The packets of all of them.
  unfoldable pub all_turns : {names : List Bytes} → Programs files size names → ℕ
  all_turns no_program = 0
  all_turns (program name file names e p ps) = turns_of size file p + all_turns ps

  -- What is sent for them, one after the other, with `binBuf` before the first.
  unfoldable pub AllSent :
      ℕ → {names : List Bytes} → Programs files size names → Bytes → Bytes → Type 0
  AllSent student no_program buf sent = sent ≡ []
  AllSent student (program name file names e p ps) buf sent =
      (buf' : Bytes) × (first : Bytes) × (behind : Bytes) × (sent ≡ first ++ behind)
      × ProgramSent student size file p buf buf' first
      × AllSent student ps buf' behind

module _ (fuel student : ℕ) (enough : 0 < fuel) (files : Bytes → Option Bytes) (size : ℕ) where
  -- To a workstation that acknowledges each packet, `netSend` sends the files of a command one after the
  -- other, each the way its first byte says, and returns when all are sent.
  pub net_send-Exchange :
      (names : List Bytes) (ps : Programs files size names) (buf : Bytes)
      → length buf ≡ size
      → (buf' : Bytes) × (length buf' ≡ size)
        × ((bs : Bytes) × AllSent student ps buf bs
            × Exchange
                (λ d. net_send fuel files student names (on_line buf d))
                (on_line buf')
                (all_turns ps)
                bs)
  unfolding net_send all_turns AllSent
  net_send-Exchange [] no_program buf e = (buf, e, ([], refl, nothing-Exchange (on_line buf)))
  net_send-Exchange (name ∷ names) (program _ file _ found p ps) buf e =
      let (buf1, e1, (xs, first, exchange1)) = one_sent fuel student enough size file buf p e in
      let (buf2, e2, (ys, behind, exchange2)) = net_send-Exchange names ps buf1 e1 in
      (
        buf2,
        e2,
        (
          xs ++ ys,
          (buf1, xs, ys, refl, first, behind),
          >>=-Exchange _ (net_send fuel files student names) (on_line buf1) (on_line buf2) _ _ xs ys
              (rw found exchange1) exchange2,
        ),
      )

-- For the names of a command that are all of programs that can be sent — BIN files whose addresses are in
-- order and span no more than `binBuf` holds, tokenized programs that fit behind 0x8001 and into `binBuf`,
-- ROMs of 8K, 16K or 32K with room for a section and the start code —, a receive buffer of 1024 bytes, and a
-- workstation that answers each packet before the wait for it is over: `netSend` returns, with the size of
-- `binBuf` kept, and has read these answers and nothing behind them. It has sent, in the order of the files:
-- for a BIN file its header, in blocks the bytes between its addresses, and the command that runs it, where
-- the file's missing bytes are those that `binBuf` held; for a BASIC program its bytes behind the first in
-- blocks, with one byte more that `binBuf` held, and its end; for a ROM its sections, each with its first
-- byte set to 0 and the start code behind it. What `binBuf` holds between two files is what the first one has
-- left there, except that it is left open behind a ROM.
pub net_send-AllSent :
    (fuel student : ℕ) (files : Bytes → Option Bytes) (names : List Bytes) (s : Basic)
    (ps : Programs files (length s.bin_buf) names) (ts : List Turn) (es : List Event)
    → 0 < fuel
    → length ts ≡ all_turns ps
    → All IsTurn ts
    → s.line.port.input ≡ script ts es
    → length s.line.self.buf ≡ 1024
    → (s' : Basic) × (net_send fuel files student names s ≡ done s')
      × (length s'.bin_buf ≡ length s.bin_buf)
      × ((bs : Bytes) × AllSent student ps s.bin_buf bs
          × Replied (s.line.port.sent ++ bs) es s'.line)
net_send-AllSent fuel student files names s ps ts es enough count turns input whole =
    let (buf', same, (bs, sent, exchange)) =
      net_send-Exchange fuel student enough files (length s.bin_buf) names ps s.bin_buf refl in
    let (d', e, r) = exchange ts es s.line count turns input whole in
    (on_line buf' d', e, same, (bs, sent, r))
