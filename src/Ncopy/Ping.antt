-- ===== src/Ncopy/Ping.antt =====
-- `pingPong` of sw/spyvspy/ncopy.cpp, and `sendFile` from its ping on.
use yamashnik.Prelude.{
  ℕ, zero, suc, ◌+◌, ◌*◌, ◌<◌, ◌≡◌, refl, sym, ap, ◌∙◌, false, List, [], ◌∷◌, ◌++◌, Bytes, arith,
  length, append_assoc, append-nil, done, ◌>>=◌,
}
use yamashnik.Wire.{header, send_header, last_mark}
use yamashnik.Wire.Cmd
use yamashnik.Serial.{Device, Event, silence, arrived, until}
use yamashnik.Serial.Silence.{silences, wait_rx-silent}
use yamashnik.Packet.{ping_packet}
use yamashnik.Sender.{
  Sender, send_packet_val, send_packet, frame, send_frame, receive_packet, rx_handler,
}
use yamashnik.Sender.Ready.{Takes}
use yamashnik.Sender.Answered.{IsReply, Replied, packet-Replied}
use yamashnik.Ncopy.{ping_pong}

abbrev pub ping_frame : ℕ → Bytes
ping_frame student = send_header (header 0 student Cmd.ping) ++ last_mark ∷ []

pub ping-Takes : (student : ℕ) → Takes (ping_packet 0 student) (ping_frame student)
unfolding send_packet_val send_packet frame send_frame ping_packet
ping-Takes student d = refl

abbrev waiting : ℕ → List Event → Device Sender → Device Sender
waiting student es d = record {
  port = record { sent = d.port.sent ++ ping_frame student; input = es };
  self = record (d.self) { pos = 0 };
}

ping_round-silent :
    (student : ℕ) (es : List Event) (d : Device Sender)
    → d.port.input ≡ silences 50 ++ es
    → (send_packet_val (ping_packet 0 student) d >>= receive_packet)
      ≡ done (false, waiting student es d)
unfolding receive_packet
ping_round-silent student es d input =
    rw (ping-Takes student d) (wait_rx-silent rx_handler es 49 _ input)

silences-add :
    (m n : ℕ) (es : List Event) → silences (m + n) ++ es ≡ silences m ++ (silences n ++ es)
silences-add zero n es = ap (λ k. silences k ++ es) (zero_add n)
  where
    zero_add : (n : ℕ) → zero + n ≡ n
    zero_add n = omega arith
silences-add (suc m) n es =
    ap (λ k. silences k ++ es) suc_add ∙ ap (λ t. silence ∷ t) (silences-add m n es)
  where
    suc_add : suc m + n ≡ suc (m + n)
    suc_add = omega arith

-- So many pings.
abbrev pub pings : ℕ → ℕ → Bytes
pings student zero = []
pings student (suc n) = ping_frame student ++ pings student n

-- For a workstation that is silent for `k` times the 50 rounds of a wait, and `n` rounds more, and then
-- sends a packet, with a receive buffer of 1024 bytes and fuel for more than `k` pings: `pingPong` returns
-- after exactly `k + 1` pings, and has read that packet and nothing behind it.
pub ping_pong-Replied :
    (fuel k n student : ℕ) (c : Bytes) (es : List Event) (d : Device Sender)
    → k < fuel
    → n < 50
    → d.port.input ≡ silences (k * 50 + n) ++ (arrived c ∷ es)
    → IsReply c
    → length d.self.buf ≡ 1024
    → (d' : Device Sender) × (ping_pong fuel student d ≡ done d')
      × Replied (d.port.sent ++ pings student (suc k)) es d'
unfolding ping_pong until
ping_pong-Replied zero k n student c es d lt few input h whole = absurd (omega arith)
ping_pong-Replied (suc fuel) zero n student c es d lt few input h whole =
    let (d', e, r) =
      packet-Replied (ping_packet 0 student) (ping_frame student) n c es d (ping-Takes student) few
        (input ∙ order) h whole in
    (
      d',
      rw e refl,
      record {
        written = r.written ∙ ap (λ t. d.port.sent ++ t) (sym (append-nil (ping_frame student)));
        input = r.input;
        whole = r.whole;
      },
    )
  where
    order : silences (0 * 50 + n) ++ (arrived c ∷ es) ≡ silences n ++ (arrived c ∷ es)
    order = ap (λ m. silences m ++ (arrived c ∷ es)) count
      where
        count : 0 * 50 + n ≡ n
        count = omega arith
ping_pong-Replied (suc fuel) (suc k) n student c es d lt few input h whole =
    let behind = silences (k * 50 + n) ++ (arrived c ∷ es) in
    let (d', e, r) =
      ping_pong-Replied fuel k n student c es (waiting student behind d) (omega arith) few refl h
        whole in
    (
      d',
      rw (ping_round-silent student behind d (input ∙ order)) e,
      record {
        written = r.written ∙ append_assoc d.port.sent (ping_frame student) _;
        input = r.input;
        whole = r.whole;
      },
    )
  where
    order :
        silences (suc k * 50 + n) ++ (arrived c ∷ es)
        ≡ silences 50 ++ (silences (k * 50 + n) ++ (arrived c ∷ es))
    order =
        ap (λ m. silences m ++ (arrived c ∷ es)) count
        ∙ silences-add 50 (k * 50 + n) (arrived c ∷ es)
      where
        count : suc k * 50 + n ≡ 50 + (k * 50 + n)
        count = omega arith
