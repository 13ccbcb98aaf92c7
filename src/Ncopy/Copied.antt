-- ===== src/Ncopy/Copied.antt =====
-- `ncopy` of sw/spyvspy/ncopy.cpp: all the files of a command, to a workstation that answers each packet.
use yamashnik.Prelude.{
  ℕ, suc, ◌+◌, ◌*◌, ◌≤◌, ◌<◌, ◌≡◌, refl, ap, ◌∙◌, List, [], ◌∷◌, ◌++◌, Option, some, Bytes, arith,
  All, length, length-drop, drop, drop-drop, drop_all, done,
}
use yamashnik.Serial.{Device, Event, arrived}
use yamashnik.Serial.Silence.{silences}
use yamashnik.Sender.{Sender}
use yamashnik.Sender.Receive.{Full}
use yamashnik.BasicSend.Exchange.{Turn, script}
use yamashnik.Ncopy.{ncopy}
use yamashnik.Ncopy.Sent.{ContentSent}
use yamashnik.Ncopy.Ping.{pings}
use yamashnik.Ncopy.Heard.{IsPrompt, All-drop, Hearing, sector_turns}
use yamashnik.Ncopy.File.{send_file-Hearing}

-- The names of a command, each of a file that can be opened.
pub data Copies (files : Bytes → Option Bytes) : List Bytes → Type 0 where
  no_copy : Copies files []
  copy :
      (name content : Bytes) (names : List Bytes)
      → files name ≡ some content
      → Copies files names
      → Copies files (name ∷ names)

module _ {files : Bytes → Option Bytes} where
  -- The answers to a ping and to what is sent for a file, and for the others.
  unfoldable pub copy_turns : {names : List Bytes} → Copies files names → ℕ
  copy_turns no_copy = 0
  copy_turns (copy name content names found ps) = suc (1 + sector_turns content + 1 + copy_turns ps)

  -- Behind what was sent before: a ping and what is sent for a file, then the others.
  unfoldable pub CopiesSent : ℕ → {names : List Bytes} → Copies files names → Bytes → Bytes → Type 0
  CopiesSent student no_copy before out = out ≡ before
  CopiesSent student (copy name content names found ps) before out =
      (d : Device Sender) × ContentSent student name content (before ++ pings student 1) d
      × CopiesSent student ps d.port.sent out

module _ (fuel student : ℕ) (some_fuel : 0 < fuel) (files : Bytes → Option Bytes) where
  ncopy-Hearing :
      (names : List Bytes) (ps : Copies files names) (ts : List Turn) (es : List Event)
      (d : Device Sender)
      → copy_turns ps ≤ length ts
      → All IsPrompt ts
      → Hearing ts es d
      → All Full es
      → (d' : Device Sender) × (ncopy fuel files student names d ≡ done d')
        × CopiesSent student ps d.port.sent d'.port.sent
        × Hearing (drop (copy_turns ps) ts) es d'
  unfolding ncopy copy_turns CopiesSent
  ncopy-Hearing [] no_copy ts es d enough prompts h full = (d, refl, refl, h)
  ncopy-Hearing (name ∷ names) (copy _ content _ found ps) [] es d enough prompts h full =
      absurd (omega arith)
  ncopy-Hearing (name ∷ names) (copy _ content _ found ps) (t ∷ ts) es d enough (prompt, prompts) h
        full =
      let n = 1 + sector_turns content + 1 in
      let rounds : t.silent ≡ 0 * 50 + t.silent = omega arith in
      let input = h.input ∙ ap (λ m. silences m ++ (arrived t.reply ∷ script ts es)) rounds in
      let (d1, e1, sent1, h1) =
        send_file-Hearing fuel 0 t.silent student name content t.reply ts es d some_fuel
          (omega (arith, prompt.few)) input prompt.is_reply (omega arith) prompts h.whole full in
      let (d2, e2, sent2, h2) =
        ncopy-Hearing names ps (drop n ts) es d1 (omega (arith, length-drop n ts))
          (All-drop n ts prompts) h1 full in
      (
        d2,
        rw (found, e1) e2,
        (d1, sent1, sent2),
        record {
          input = h2.input ∙ ap (λ r. script r es) (drop-drop (copy_turns ps) n ts);
          whole = h2.whole;
        },
      )

  -- For the names of a command that are all of files that can be opened, fuel for one ping, a receive
  -- buffer of 1024 bytes, a port that reports itself readable only with a byte to read, and a workstation that answers each ping,
  -- packet and piece of master data before ten rounds of silence: `ncopy` returns, and has read these
  -- answers and nothing behind them. For the files in their order it has sent a ping, a packet that
  -- creates the file, for each whole sector of 128 bytes its master data and a packet that writes it,
  -- and a packet that closes the file.
  pub ncopy-CopiesSent :
      (names : List Bytes) (ps : Copies files names) (ts : List Turn) (es : List Event)
      (d : Device Sender)
      → length ts ≡ copy_turns ps
      → All IsPrompt ts
      → d.port.input ≡ script ts es
      → length d.self.buf ≡ 1024
      → All Full es
      → (d' : Device Sender) × (ncopy fuel files student names d ≡ done d')
        × CopiesSent student ps d.port.sent d'.port.sent
        × (d'.port.input ≡ es)
  ncopy-CopiesSent names ps ts es d count prompts input whole full =
      let (d', e, sent, h) =
        ncopy-Hearing names ps ts es d (omega arith) prompts
          (record { input = input; whole = whole }) full in
      (d', e, sent, h.input ∙ ap (λ r. script r es) (drop_all _ ts (omega arith)))
