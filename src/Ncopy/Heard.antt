-- ===== src/Ncopy/Heard.antt =====
use mathlib.Core.Path.{subst}
use yamashnik.Prelude.{
  ℕ, zero, suc, ◌+◌, ◌*◌, ◌/◌, ◌-◌, ◌≤◌, ◌<◌, ◌≡◌, refl, ap, ◌∙◌, inl, inr, Bool-cases, true, false,
  List, [], ◌∷◌, ◌++◌, Bytes, arith, All, leb, leb→le, length, length-drop, take, drop, drop-drop,
  Run, done, ◌>>=◌,
}
use yamashnik.Serial.{Device, Event, arrived, wait_rx, transmit}
use yamashnik.Serial.Silence.{silences, attempt-arrived, wait_rx-heard}
use yamashnik.Packet.{
  Packet, master_data_packet, write_file_packet, create_file_packet, close_file_packet, net_fcb,
}
use yamashnik.Wire.{header}
use yamashnik.Wire.Cmd
use yamashnik.Sender.{Sender, rx_handler, master_loop, master_frame, send_packet, send_packet_val}
use yamashnik.Sender.Receive.{length-splice, check_packet-buf}
use yamashnik.Sender.Answered.{IsReply, replied, rx_handler-reply}
use yamashnik.Sender.Ready.{Takes}
use yamashnik.BasicSend.Exchange.{Turn, script, acknowledged-Exchange}
use yamashnik.Ncopy.{acknowledged, send_sectors, send_contents}
use yamashnik.Ncopy.Copy.{fcb_frame, create-Takes, write-Takes, close-Takes}

-- A turn of the workstation that is over before the shortest wait, ten rounds for a piece of master data.
pub record IsPrompt (t : Turn) : Type 0 where
  pub few : t.silent < 10
  pub is_reply : IsReply t.reply

pub All-drop : (n : ℕ) (ts : List Turn) → All IsPrompt ts → All IsPrompt (drop n ts)
All-drop zero ts h = h
All-drop (suc n) [] h = h
All-drop (suc n) (t ∷ ts) (h, hs) = All-drop n ts hs

-- The line brings these turns, and the buffer is whole.
pub record Hearing (ts : List Turn) (es : List Event) (d : Device Sender) : Type 0 where
  pub input : d.port.input ≡ script ts es
  pub whole : length d.self.buf ≡ 1024

-- A run that returns after so many turns.
abbrev pub Heard : (Device Sender → Run (Device Sender)) → ℕ → Type 0
Heard m n =
    (ts : List Turn) (es : List Event) (d : Device Sender)
    → n ≤ length ts
    → All IsPrompt ts
    → Hearing ts es d
    → (d' : Device Sender) × (m d ≡ done d') × Hearing (drop n ts) es d'

Heard->>= :
    (m k : Device Sender → Run (Device Sender)) (a b : ℕ)
    → Heard m a
    → Heard k b
    → Heard (λ d. m d >>= k) (a + b)
Heard->>= m k a b first second ts es d enough prompt h =
    let (d1, e1, h1) = first ts es d (omega arith) prompt h in
    let (d2, e2, h2) =
      second (drop a ts) es d1 (omega (arith, length-drop a ts)) (All-drop a ts prompt) h1 in
    (
      d2,
      rw e1 e2,
      record { input = h2.input ∙ ap (λ r. script r es) (drop-drop b a ts); whole = h2.whole },
    )

nothing-Heard : Heard (λ d. done d) 0
nothing-Heard ts es d enough prompt h = (d, refl, h)

same-Heard :
    (m m' : Device Sender → Run (Device Sender)) (n n' : ℕ)
    → ((d : Device Sender) → m' d ≡ m d)
    → n ≡ n'
    → Heard m n
    → Heard m' n'
same-Heard m m' n n' same count h =
    subst (Heard m') count
      λ ts es d enough prompt k. let (d', e, h') = h ts es d enough prompt k in (d', same d ∙ e, h')

-- The wait for an answer.
waited :
    (left n : ℕ) (c : Bytes) (es : List Event) (d : Device Sender)
    → n ≤ left
    → d.self.pos ≡ 0
    → d.port.input ≡ silences n ++ (arrived c ∷ es)
    → IsReply c
    → length d.self.buf ≡ 1024
    → (d' : Device Sender) × (wait_rx rx_handler (suc left) d ≡ done (true, d'))
      × (d'.port.input ≡ es)
      × (length d'.self.buf ≡ 1024)
waited left n c es d few start input h whole = (
  record { port = record (d.port) { input = es }; self = replied c d.self },
  wait_rx-heard rx_handler (arrived c ∷ es) n left d _ few input
      (attempt-arrived rx_handler es _ c refl ∙ rx_handler-reply c es _ start refl h whole),
  refl,
  ap length (check_packet-buf _).0
      ∙ length-splice d.self.buf c 0 (omega (arith, h.short, whole))
      ∙ whole,
)

acknowledged-Heard : (p : Packet) (bs : Bytes) → Takes p bs → Heard (acknowledged p) 1
acknowledged-Heard p bs takes [] es d enough prompt h = absurd (omega arith)
acknowledged-Heard p bs takes (t ∷ ts) es d enough (prompt, _) h =
    let (d', e, r) =
      acknowledged-Exchange p bs takes (t ∷ []) (script ts es) d refl
        (record { few = omega (arith, prompt.few); is_reply = prompt.is_reply }, tt) h.input
        h.whole in
    (d', e, record { input = r.input; whole = r.whole })

-- A round of the loop over master data, behind which others follow or not.
module _ (fuel l : ℕ) (head buf : Bytes) (len : ℕ) where
  abbrev started : Device Sender → Device Sender
  started d = record d {
    self = record (d.self) { pos = 0 };
    port = transmit (master_frame head buf len l) d.port;
  }

  last_piece : leb l 56 ≡ true → Heard (master_loop (suc fuel) head buf len l) 1
  unfolding master_loop
  last_piece last [] es d enough prompt h = absurd (omega arith)
  last_piece last (t ∷ ts) es d enough (prompt, _) h =
      let (d', e, input, whole) =
        waited 9 t.silent t.reply (script ts es) (started d) (omega (arith, prompt.few)) refl
          h.input prompt.is_reply h.whole in
      (d', rw (e, last) refl, record { input = input; whole = whole })

  more_pieces :
      (n : ℕ)
      → leb l 56 ≡ false
      → Heard (master_loop fuel head buf len (l - 56)) n
      → Heard (master_loop (suc fuel) head buf len l) (suc n)
  unfolding master_loop
  more_pieces n more rest [] es d enough prompt h = absurd (omega arith)
  more_pieces n more rest (t ∷ ts) es d enough (prompt, prompts) h =
      let (d1, e, input, whole) =
        waited 9 t.silent t.reply (script ts es) (started d) (omega (arith, prompt.few)) refl
          h.input prompt.is_reply h.whole in
      let (d2, e2, h2) =
        rest ts es d1 (omega arith) prompts (record { input = input; whole = whole }) in
      (d2, rw (e, more) e2, h2)

-- A sector of 128 bytes goes in three pieces.
sector_data-Heard :
    (student : ℕ) (sector : Bytes)
    → Heard (send_packet_val (master_data_packet 0 student sector 128)) 3
unfolding send_packet_val send_packet master_data_packet
sector_data-Heard student sector =
    more_pieces 128 128 head sector 128 2 refl
      (more_pieces 127 72 head sector 128 1 refl (last_piece 126 16 head sector 128 refl))
  where
    head : Bytes
    head = header 0 student Cmd.base

sector-Heard :
    (student : ℕ) (sector : Bytes)
    → Heard
        (λ d. send_packet_val (master_data_packet 0 student sector 128) d >>= λ d1.
          acknowledged (write_file_packet 0 student d1.self.rx_data) d1)
        4
sector-Heard student sector =
    Heard->>= (send_packet_val (master_data_packet 0 student sector 128))
      (λ d1. acknowledged (write_file_packet 0 student d1.self.rx_data) d1) 3 1
      (sector_data-Heard student sector)
      λ ts es d.
        acknowledged-Heard (write_file_packet 0 student d.self.rx_data)
          (fcb_frame student Cmd.write_file d.self.rx_data) (write-Takes student d.self.rx_data) ts
          es d

-- A turn for each piece and each packet that writes a sector.
abbrev pub sector_turns : Bytes → ℕ
sector_turns content = 4 * (length content / 128)

send_sectors-Heard :
    (fuel student : ℕ) (content : Bytes)
    → length content < fuel
    → Heard (send_sectors fuel student content) (sector_turns content)
unfolding send_sectors
send_sectors-Heard zero student content lt = absurd (omega arith)
send_sectors-Heard (suc fuel) student content lt = elim (Bool-cases (leb 128 (length content))) [
  | inl whole ↦
      let long : 128 ≤ length content = leb→le 128 (length content) whole in
      same-Heard
        (λ d.
          (send_packet_val (master_data_packet 0 student (take 128 content) 128) d >>= λ d1.
          acknowledged (write_file_packet 0 student d1.self.rx_data) d1)
          >>= send_sectors fuel student (drop 128 content))
        (send_sectors (suc fuel) student content) (4 + sector_turns (drop 128 content)) _
        (λ d. rw (whole, send_sectors) refl) (omega (arith, length-drop 128 content))
        (Heard->>= _ (send_sectors fuel student (drop 128 content)) 4
          (sector_turns (drop 128 content)) (sector-Heard student (take 128 content))
          (send_sectors-Heard fuel student (drop 128 content)
            (omega (arith, length-drop 128 content))))
  | inr short ↦
      let few : length content < 128 = ground arith in
      same-Heard (λ d. done d) (send_sectors (suc fuel) student content) 0 _
        (λ d. rw (short, send_sectors) refl) (omega arith) nothing-Heard
]

pub send_contents-Heard :
    (name content : Bytes) (student : ℕ)
    → Heard (send_contents name content student) (1 + sector_turns content + 1)
unfolding send_contents
send_contents-Heard name content student =
    Heard->>=
      (λ d.
        acknowledged (create_file_packet 0 student name) d
        >>= send_sectors (suc (length content)) student content)
      (λ d1. acknowledged (close_file_packet 0 student d1.self.rx_data) d1)
      (1 + sector_turns content) 1
      (Heard->>= (acknowledged (create_file_packet 0 student name))
        (send_sectors (suc (length content)) student content) 1 (sector_turns content)
        (acknowledged-Heard (create_file_packet 0 student name)
          (fcb_frame student Cmd.create_file (net_fcb 0 0 0 name)) (create-Takes student name))
        (send_sectors-Heard (suc (length content)) student content (omega arith)))
      λ ts es d.
        acknowledged-Heard (close_file_packet 0 student d.self.rx_data)
          (fcb_frame student Cmd.close_file d.self.rx_data) (close-Takes student d.self.rx_data) ts
          es d
