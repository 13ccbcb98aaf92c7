-- ===== src/Ncopy/File.antt =====
-- `sendFile` of sw/spyvspy/ncopy.cpp, from its ping to its last packet.
use mathlib.Core.Path.{subst}
use yamashnik.Prelude.{
  sym, ℕ, zero, suc, ◌≤◌, ◌+◌, ◌*◌, ◌<◌, ◌≡◌, ◌++◌, ◌∷◌, [], some, Bytes, length, All, drop_all, ap,
  ◌∙◌, arith, done, List,
}
use yamashnik.Serial.{Device, Event, arrived}
use yamashnik.Serial.Silence.{silences}
use yamashnik.Serial.Wait.{Safely}
use yamashnik.Sender.{Sender}
use yamashnik.Sender.Receive.{Full}
use yamashnik.Sender.Answered.{IsReply}
use yamashnik.BasicSend.Exchange.{Turn, script}
use yamashnik.Ncopy.{send_file, drop}
use yamashnik.Ncopy.Sent.{ContentSent, send_contents-Sent}
use yamashnik.Ncopy.Heard.{IsPrompt, sector_turns, send_contents-Heard, Hearing}
use yamashnik.Ncopy.Ping.{pings, ping_pong-Replied}

-- For a file that can be opened, and a workstation that answers the ping with a packet after `k` whole
-- waits and part of another, where the port reports itself readable only with a byte to read, the
-- receive buffer has its 1024 bytes, and the fuel is for more than `k` pings: whatever the workstation
-- answers then, `sendFile` ends the program, or it returns and has sent `k + 1` pings, a packet that
-- creates the file, for each whole sector of 128 bytes of the content, in order, its master data and a
-- packet that writes it, and a packet that closes the file. Less than a sector at the end of the content
-- is not sent.
pub send_file-Sent :
    (fuel k n student : ℕ) (name content c : Bytes) (es : List Event) (d : Device Sender)
    → k < fuel
    → n < 50
    → d.port.input ≡ silences (k * 50 + n) ++ (arrived c ∷ es)
    → IsReply c
    → length d.self.buf ≡ 1024
    → All Full es
    → Safely
        (ContentSent student name content (d.port.sent ++ pings student (suc k)))
        (send_file fuel name (some content) student d)
unfolding send_file
send_file-Sent fuel k n student name content c es d lt few input h whole full =
    let (d', e, r) = ping_pong-Replied fuel k n student c es d lt few input h whole in
    rw e (
      send_contents-Sent name content student _ d' (record {
        whole = r.whole;
        events = subst (All Full) (sym r.input) full;
        written = r.written;
      }))

silences-Full : (n : ℕ) (es : List Event) → All Full es → All Full (silences n ++ es)
silences-Full zero es h = h
silences-Full (suc n) es h = (tt, silences-Full n es h)

script-Full :
    (ts : List Turn) (es : List Event) → All IsPrompt ts → All Full es → All Full (script ts es)
script-Full [] es prompts h = h
script-Full (t ∷ ts) es (prompt, prompts) h =
    silences-Full t.silent _ (prompt.is_reply.some_bytes, script-Full ts es prompts h)

-- A file, at a workstation that goes on with turns for other files behind.
pub send_file-Hearing :
    (fuel k n student : ℕ) (name content c : Bytes) (ts : List Turn) (es : List Event)
    (d : Device Sender)
    → k < fuel
    → n < 50
    → d.port.input ≡ silences (k * 50 + n) ++ (arrived c ∷ script ts es)
    → IsReply c
    → 1 + sector_turns content + 1 ≤ length ts
    → All IsPrompt ts
    → length d.self.buf ≡ 1024
    → All Full es
    → (d' : Device Sender) × (send_file fuel name (some content) student d ≡ done d')
      × ContentSent student name content (d.port.sent ++ pings student (suc k)) d'
      × Hearing (drop (1 + sector_turns content + 1) ts) es d'
unfolding send_file
send_file-Hearing fuel k n student name content c ts es d lt few input reply enough prompts whole
      full =
    let (d1, e1, r) =
      ping_pong-Replied fuel k n student c (script ts es) d lt few input reply whole in
    let (d2, e2, h) =
      send_contents-Heard name content student ts es d1 enough prompts
        (record { input = r.input; whole = r.whole }) in
    let e : send_file fuel name (some content) student d ≡ done d2 = rw (e1, send_file) e2 in
    (
      d2,
      e,
      subst (Safely (ContentSent student name content (d.port.sent ++ pings student (suc k)))) e (
          send_file-Sent fuel k n student name content c (script ts es) d lt few input reply whole
            (script-Full ts es prompts full)),
      h,
    )

-- For a file that can be opened, and a workstation that answers the ping with a packet after `k` whole
-- waits and part of another, and from then on each piece of master data and each packet before ten rounds
-- of silence — four answers for each whole sector of 128 bytes, and one each for the packets that create
-- and close the file —, where the port reports itself readable only with a byte to read, the receive
-- buffer has its 1024 bytes, and the fuel is for more than `k` pings: `sendFile` returns, and has read these
-- answers and nothing behind them. It has sent `k + 1` pings, a packet that creates the file, for each whole
-- sector of the content, in order, its master data and a packet that writes it, and a packet that closes
-- the file.
pub send_file-ContentSent :
    (fuel k n student : ℕ) (name content c : Bytes) (ts : List Turn) (es : List Event)
    (d : Device Sender)
    → k < fuel
    → n < 50
    → d.port.input ≡ silences (k * 50 + n) ++ (arrived c ∷ script ts es)
    → IsReply c
    → length ts ≡ 1 + sector_turns content + 1
    → All IsPrompt ts
    → length d.self.buf ≡ 1024
    → All Full es
    → (d' : Device Sender) × (send_file fuel name (some content) student d ≡ done d')
      × ContentSent student name content (d.port.sent ++ pings student (suc k)) d'
      × (d'.port.input ≡ es)
send_file-ContentSent fuel k n student name content c ts es d lt few input reply count prompts whole
      full =
    let (d', e, sent, h) =
      send_file-Hearing fuel k n student name content c ts es d lt few input reply (omega arith)
        prompts whole full in
    (d', e, sent, h.input ∙ ap (λ r. script r es) (drop_all _ ts (omega arith)))
