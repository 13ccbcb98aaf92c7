-- ===== src/BasicSend/Exchange.antt =====
-- The packets of sw/spyvspy/basicsend.cpp at a workstation that answers each of them.
use yamashnik.Prelude.{
  ℕ, zero, suc, ◌+◌, ◌*◌, ◌≤◌, ◌<◌, ◌≡◌, ◌^◌, refl, sym, ap, ◌∙◌, true, false, List, [], ◌∷◌, ◌++◌,
  take_all, Bytes, arith, All, u16, length, length-take, length-drop, take, drop, drop-drop,
  append-nil, append_assoc, done, ◌>>=◌, Bool,
}
use yamashnik.Wire.{header, send_header, send_escaped_byte, send_escaped_word, last_mark}
use yamashnik.Wire.Cmd
use yamashnik.Serial.{Device, Event, arrived}
use yamashnik.Serial.Silence.{silences}
use yamashnik.Packet.{Packet, shex_data_packet, shex_header_packet, sndcmd_packet}
use yamashnik.Sender.{Sender, send_packet_val, send_packet, frame, send_frame, block_frame}
use yamashnik.Sender.Ready.{Takes}
use yamashnik.Sender.Answered.{IsReply, Replied, packet-Replied}
use yamashnik.Ncopy.{acknowledged}
use yamashnik.BasicSend.{full_blocks, answered, Run}
use yamashnik.BasicSend.Frames.{shex_frame, shex_frames, shex-Takes, fulls, block_at-fits}

-- A turn of the workstation: rounds of silence, and a reply.
pub record Turn : Type 0 where
  pub silent : ℕ
  pub reply : Bytes

-- The reply comes before the wait for it is over.
pub record IsTurn (t : Turn) : Type 0 where
  pub few : t.silent < 50
  pub is_reply : IsReply t.reply

-- What the line brings in these turns, and then.
abbrev pub script : List Turn → List Event → List Event
script [] es = es
script (t ∷ ts) es = silences t.silent ++ (arrived t.reply ∷ script ts es)

script-split :
    (a : ℕ) (ts : List Turn) (es : List Event)
    → All IsTurn ts
    → All IsTurn (take a ts)
      × All IsTurn (drop a ts)
      × (script ts es ≡ script (take a ts) (script (drop a ts) es))
script-split zero ts es h = (tt, h, refl)
script-split (suc a) [] es h = (tt, tt, refl)
script-split (suc a) (t ∷ ts) es (h, hs) =
    let (before, behind, e) = script-split a ts es hs in
    ((h, before), behind, ap (λ r. silences t.silent ++ (arrived t.reply ∷ r)) e)

-- At a workstation that answers in so many turns: the run sends these bytes, reads the answers and nothing
-- behind them, and ends with this result on the device.
abbrev pub Exchange :
    {A : Type 0} → (Device Sender → Run A) → (Device Sender → A) → ℕ → Bytes → Type 0
Exchange m result n bs =
    (ts : List Turn) (es : List Event) (d : Device Sender)
    → length ts ≡ n
    → All IsTurn ts
    → d.port.input ≡ script ts es
    → length d.self.buf ≡ 1024
    → (d' : Device Sender) × (m d ≡ done (result d')) × Replied (d.port.sent ++ bs) es d'

pub >>=-Exchange :
    {A B : Type 0} (m : Device Sender → Run A) (k : A → Run B) (r : Device Sender → A)
    (q : Device Sender → B) (a b : ℕ) (x y : Bytes)
    → Exchange m r a x
    → Exchange (λ d. k (r d)) q b y
    → Exchange (λ d. m d >>= k) q (a + b) (x ++ y)
>>=-Exchange m k r q a b x y first second ts es d count turns input whole =
    let (before, behind, e) = script-split a ts es turns in
    let (d1, e1, r1) =
      first (take a ts) (script (drop a ts) es) d (omega (arith, length-take a ts)) before
        (input ∙ e) whole in
    let (d2, e2, r2) =
      second (drop a ts) es d1 (omega (arith, length-drop a ts)) behind r1.input r1.whole in
    (
      d2,
      rw e1 e2,
      record {
        written = r2.written ∙ ap (λ t. t ++ y) r1.written ∙ append_assoc d.port.sent x y;
        input = r2.input;
        whole = r2.whole;
      },
    )

pub nothing-Exchange : {A : Type 0} (r : Device Sender → A) → Exchange (λ d. done (r d)) r 0 []
nothing-Exchange r [] es d count turns input whole =
    (d, refl, record { written = sym (append-nil d.port.sent); input = input; whole = whole })
nothing-Exchange r (t ∷ ts) es d count turns input whole = absurd (omega arith)

-- Another count, and other bytes, that are the same.
pub Exchange-eq :
    {A : Type 0} (m : Device Sender → Run A) (r : Device Sender → A) (a b : ℕ) (x y : Bytes)
    → a ≡ b
    → x ≡ y
    → Exchange m r a x
    → Exchange m r b y
Exchange-eq m r a b x y same eq h ts es d count = rw (← eq) (h ts es d (count ∙ sym same))

abbrev pub header_frame : ℕ → ℕ → ℕ → Bytes
header_frame student start end =
    send_header (header 0 student Cmd.base)
    ++ (send_escaped_byte Cmd.shex_header
        ++ (send_escaped_word start ++ (send_escaped_word end ++ last_mark ∷ [])))

abbrev pub command_frame : ℕ → Bytes → Bytes
command_frame student cmd =
    block_frame (header 0 student Cmd.base) Cmd.send_command cmd (length cmd) last_mark

pub header-Takes :
    (student start end : ℕ)
    → Takes (shex_header_packet 0 student start end) (header_frame student start end)
unfolding send_packet_val send_packet frame send_frame shex_header_packet
header-Takes student start end d = refl

pub command-Takes :
    (student : ℕ) (cmd : Bytes)
    → length cmd < 2 ^ 16
    → Takes (sndcmd_packet 0 student cmd) (command_frame student cmd)
unfolding send_packet_val send_packet frame send_frame sndcmd_packet
command-Takes student cmd h d =
    let cut : u16 (length cmd) ≡ length cmd = omega arith in
    rw (cut, take_all (length cmd) cmd (omega arith)) refl

module _ (p : Packet) (bs : Bytes) (takes : Takes p bs) where
  pub answered-Exchange : Exchange (answered p) (λ d. (true, d)) 1 bs
  unfolding answered
  answered-Exchange [] es d count turns input whole = absurd (omega arith)
  answered-Exchange (t ∷ []) es d count (turn, _) input whole =
      packet-Replied p bs t.silent t.reply es d takes turn.few input turn.is_reply whole
  answered-Exchange (t ∷ u ∷ ts) es d count turns input whole = absurd (omega arith)

  pub acknowledged-Exchange : Exchange (acknowledged p) (λ d. d) 1 bs
  unfolding acknowledged answered
  acknowledged-Exchange ts es d count turns input whole =
      let (d', e, r) = answered-Exchange ts es d count turns input whole in
      (d', rw (takes d, rw (takes d) at e) refl, r)

-- The loop over the full blocks, a turn for each.
pub full_blocks-Exchange :
    (n student offset : ℕ) (buf : Bytes)
    → offset + 56 * n ≤ length buf
    → Exchange
        (full_blocks n student offset buf)
        (λ d. d)
        n
        (shex_frames student (fulls n (drop offset buf)))
unfolding full_blocks
full_blocks-Exchange zero student offset buf fits = nothing-Exchange (λ d. d)
full_blocks-Exchange (suc n) student offset buf fits =
    Exchange-eq (full_blocks (suc n) student offset buf) (λ d. d) (1 + n) (suc n) _ _ (omega arith)
      (ap (λ t. shex_frame student block false ++ shex_frames student (fulls n t))
        (sym (drop-drop 56 offset buf)))
      (rw (block_at-fits offset 56 buf (omega arith)) (
        >>=-Exchange (acknowledged (shex_data_packet 0 student block 56 false))
          (full_blocks n student (offset + 56) buf) (λ d. d) (λ d. d) 1 n
          (shex_frame student block false) (shex_frames student (fulls n (drop (offset + 56) buf)))
          (acknowledged-Exchange (shex_data_packet 0 student block 56 false)
            (shex_frame student block false) (shex-Takes student 56 block false size (omega arith)))
          (full_blocks-Exchange n student (offset + 56) buf (omega arith))))
  where
    block : Bytes
    block = take 56 (drop offset buf)

    size : length block ≡ 56
    size = omega (arith, length-take 56 (drop offset buf), length-drop offset buf)

-- A run whose result is only put into another form.
pub mapped-Exchange :
    {A B : Type 0} (m : Device Sender → Run A) (f : A → B) (r : Device Sender → A) (n : ℕ)
    (bs : Bytes)
    → Exchange m r n bs
    → Exchange (λ d. m d >>= λ a. done (f a)) (λ d. f (r d)) n bs
mapped-Exchange m f r n bs h ts es d count turns input whole =
    let (d', e, k) = h ts es d count turns input whole in (d', rw e refl, k)

-- A run after which the answer is not looked at.
pub ignored-Exchange :
    (m : Device Sender → Run (Bool × Device Sender)) (n : ℕ) (bs : Bytes)
    → Exchange m (λ d. (true, d)) n bs
    → Exchange (λ d. m d >>= λ (got, d1). done d1) (λ d. d) n bs
ignored-Exchange m n bs h = mapped-Exchange m (λ r. r.1) (λ d. (true, d)) n bs h

-- A run that is equal to one whose exchange is known.
pub same-Exchange :
    {A : Type 0} (m m' : Device Sender → Run A) (r : Device Sender → A) (n : ℕ) (bs : Bytes)
    → ((d : Device Sender) → m' d ≡ m d)
    → Exchange m r n bs
    → Exchange m' r n bs
same-Exchange m m' r n bs same h ts es d count turns input whole =
    let (d', e, k) = h ts es d count turns input whole in (d', same d ∙ e, k)
