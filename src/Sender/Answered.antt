-- ===== src/Sender/Answered.antt =====
-- A packet of `PacketSender` of sw/spyvspy/sendpacket.cpp that a workstation answers.
use yamashnik.Prelude.{
  ℕ, ◌+◌, ◌-◌, ◌≤◌, ◌<◌, ◌≡◌, ◌⊎◌, refl, ap, ◌∙◌, inl, inr, true, false, List, ◌∷◌, ◌++◌, Bytes,
  arith, length, take_all, drop, get_or, get_or-append, le→leb, done, ◌>>=◌, ltb, ◌==◌,
}
use yamashnik.Serial.{Device, Event, arrived, read, read_events}
use yamashnik.Serial.Silence.{silences, attempt-arrived, wait_rx-heard}
use yamashnik.Packet.{Packet}
use yamashnik.Sender.{
  Sender, send_packet_val, receive_packet, rx_handler, received, taken, splice, check_packet,
  is_mark,
}
use yamashnik.Sender.Receive.{length-splice, check_packet-buf}
use yamashnik.Sender.Ready.{Takes}

-- Bytes of one packet: the last one is the mark of its end.
pub record IsReply (c : Bytes) : Type 0 where
  pub some_bytes : 0 < length c
  pub short : length c ≤ 256
  pub marked : (get_or c (length c - 1) 0 ≡ 0x83) ⊎ (get_or c (length c - 1) 0 ≡ 0x97)

-- The receiver when the reply has been read into the start of its buffer.
abbrev pub replied : Bytes → Sender → Sender
replied c s = check_packet (record s { buf = splice s.buf 0 c; pos = 0 + length c })

received-reply :
    (c : Bytes) (s : Sender)
    → IsReply c
    → length s.buf ≡ 1024
    → received (record s { buf = splice s.buf 0 c; pos = 0 + length c }) ≡ done (true, replied c s)
unfolding received is_mark
received-reply c s h whole = rw (gt→ltb_false, pos_some, marked h.marked, wide, inside) refl
  where
    gt→ltb_false : ltb 256 (0 + length c) ≡ false
    gt→ltb_false = ground (arith, h.short)

    kept : length (splice s.buf 0 c) ≡ 1024
    kept = length-splice s.buf c 0 (omega (arith, h.short, whole)) ∙ whole

    wide : ltb 90 (length (splice s.buf 0 c)) ≡ true
    wide = ground (arith, kept)

    inside : ltb (0 + length c) (length (splice s.buf 0 c)) ≡ true
    inside = ground (arith, kept, h.short)

    pos_some : ((0 + length c) == 0) ≡ false
    pos_some = ground (arith, h.some_bytes)

    last_byte : get_or (splice s.buf 0 c) (0 + length c - 1) 0 ≡ get_or c (length c - 1) 0
    last_byte =
        get_or-append c (drop (0 + length c) s.buf) (0 + length c - 1) 0
          (omega (arith, h.some_bytes))
        ∙ ap (λ k. get_or c k 0) place
      where
        place : 0 + length c - 1 ≡ length c - 1
        place = omega arith

    marked :
        (get_or c (length c - 1) 0 ≡ 0x83) ⊎ (get_or c (length c - 1) 0 ≡ 0x97)
        → is_mark (get_or (splice s.buf 0 c) (0 + length c - 1) 0) ≡ true
    marked (inl e) = ap is_mark (last_byte ∙ e)
    marked (inr e) = ap is_mark (last_byte ∙ e)

-- One reply is one call of `RxHandler`.
pub rx_handler-reply :
    (c : Bytes) (es : List Event) (d : Device Sender)
    → d.self.pos ≡ 0
    → d.port.input ≡ arrived c ∷ es
    → IsReply c
    → length d.self.buf ≡ 1024
    → rx_handler d
      ≡ done (true, record { port = record (d.port) { input = es }; self = replied c d.self })
unfolding rx_handler read read_events taken
rx_handler-reply c es d at input h whole =
    rw
      (
        input,
        at,
        le→leb (length c) 1024 (omega (arith, h.short)),
        take_all 1024 c (omega (arith, h.short)),
        received-reply c d.self h whole,
      )
      refl

-- After a reply.
pub record Replied (sent : Bytes) (es : List Event) (d : Device Sender) : Type 0 where
  pub written : d.port.sent ≡ sent
  pub input : d.port.input ≡ es
  pub whole : length d.self.buf ≡ 1024

-- A packet of one frame, answered before the wait for it is over.
pub packet-Replied :
    (p : Packet) (bs : Bytes) (n : ℕ) (c : Bytes) (es : List Event) (d : Device Sender)
    → Takes p bs
    → n < 50
    → d.port.input ≡ silences n ++ (arrived c ∷ es)
    → IsReply c
    → length d.self.buf ≡ 1024
    → (d' : Device Sender) × ((send_packet_val p d >>= receive_packet) ≡ done (true, d'))
      × Replied (d.port.sent ++ bs) es d'
unfolding receive_packet
packet-Replied p bs n c es d takes few input h whole = (
  record {
    port = record { sent = d.port.sent ++ bs; input = es };
    self = replied c (record (d.self) { pos = 0 });
  },
  rw (takes d) (
      wait_rx-heard rx_handler (arrived c ∷ es) n 49 _ _ (omega arith) input
        (attempt-arrived rx_handler es _ c refl ∙ rx_handler-reply c es _ refl refl h whole)),
  record {
    written = refl;
    input = refl;
    whole =
        ap length (check_packet-buf _).0
        ∙ length-splice d.self.buf c 0 (omega (arith, h.short, whole))
        ∙ whole;
  },
)
