-- ===== src/Sender/Receive.antt =====
-- The receive buffer of `PacketSender` in sw/spyvspy/sendpacket.cpp.
use yamashnik.Sender.{
  check_packet, Device, Sender, received, splice, receive_packet, rx_handler, taken, wait_rx, Port,
  is_mark, read,
}
use yamashnik.Prelude.{
  ap, ◌∙◌, Bytes, ℕ, length, ◌+◌, ◌<◌, ◌≡◌, arith, ◌≤◌, All, Bool-cases, length-append, ltb, inl,
  take, inr, ◌++◌, ◌-◌, List, drop, ◌==◌, length-take, suc, ◌∷◌, get_or, length-drop, leb, refl,
  true,
}
use yamashnik.Serial.{Event, arrived, silence, unplugged, read, read_events, Port, Device, wait_rx}
use yamashnik.Serial.Wait.{Safely, Safely->>=, wait_rx_safe}

-- `select` reports a descriptor as readable only with a byte to read.
abbrev pub Full : Event → Type 0
Full (arrived bs) = 0 < length bs
Full silence = Unit
Full unplugged = Unit

-- The buffer has its 1024 bytes, of which at most 256 are in use, and `sent` has been sent.
pub record InBuffer (sent : Bytes) (d : Device Sender) : Type 0 where
  pub whole : length d.self.buf ≡ 1024
  pub room : d.self.pos ≤ 256
  pub events : All Full d.port.input
  pub written : d.port.sent ≡ sent

pub length-splice :
    (buf bs : Bytes) (at : ℕ) → at + length bs ≤ length buf → length (splice buf at bs) ≡ length buf
length-splice buf bs at h = omega (
  arith,
  length-append (take at buf) (bs ++ drop (at + length bs) buf),
  length-append bs (drop (at + length bs) buf),
  length-take at buf,
  length-drop (at + length bs) buf,
)

pub check_packet-buf :
    (s : Sender) → ((check_packet s).buf ≡ s.buf) × ((check_packet s).pos ≡ s.pos)
unfolding check_packet
check_packet-buf s = ground arith

received_safe :
    (s : Sender)
    → length s.buf ≡ 1024
    → 0 < s.pos
    → Safely (λ r. (length r.1.buf ≡ 1024) × (r.1.pos ≤ 256)) (received s)
unfolding received
received_safe s h p = elim (Bool-cases (ltb 256 s.pos)) [
  | inl over ↦ rw over (h, omega arith)
  | inr fits ↦ elim (Bool-cases (s.pos == 0)) [
    | inl empty ↦ ground arith
    | inr more ↦ elim (Bool-cases (is_mark (get_or s.buf (s.pos - 1) 0))) [
      | inl mark ↦
          let (same, stay) = check_packet-buf s in
          let short : s.pos ≤ 256 = ground arith in
          let wide : ltb 90 (length s.buf) ≡ true = ground (arith, h) in
          let inside : ltb s.pos (length s.buf) ≡ true = ground (arith, h, short) in
          rw (fits, more, mark, wide, inside) (ap length same ∙ h, omega (arith, stay, short))
      | inr other ↦ rw (fits, more, other) (h, ground arith)
    ]
  ]
]

read_events_lem :
    (n : ℕ) (bs : Bytes) (es : List Event)
    → 0 < n
    → 0 < length bs
    → All Full es
    → let r = read_events n (arrived bs ∷ es) in (0 < length r.0) × (length r.0 ≤ n) × All Full r.1
unfolding read_events
read_events_lem n bs es hn hb h = (
  omega (arith, length-take n bs),
  omega (arith, length-take n bs),
  elim (Bool-cases (leb (length bs) n)) [
    | inl all ↦ rw all h
    | inr part ↦ rw part ((ground (arith, length-drop n bs), h))
  ],
)

taken_safe :
    (sent : Bytes) (d : Device Sender) (bs : Bytes) (port : Port)
    → InBuffer sent d
    → 0 < length bs
    → length bs ≤ 1024 - d.self.pos
    → All Full port.input
    → port.sent ≡ sent
    → Safely (λ r. InBuffer sent r.1) (taken d (bs, port))
unfolding taken
taken_safe sent d bs port h some_read fits events written =
    let s : Sender = record (d.self) {
      buf = splice d.self.buf d.self.pos bs;
      pos = d.self.pos + length bs;
    } in
    Safely->>= (λ r. (length r.1.buf ≡ 1024) × (r.1.pos ≤ 256)) (λ r. InBuffer sent r.1)
      (received s) _
      (received_safe s
        (length-splice d.self.buf bs d.self.pos (omega (arith, h.whole, h.room)) ∙ h.whole)
        (omega arith))
      λ (got, s') k. record { whole = k.0; room = k.1; events = events; written = written }

rx_handler_safe :
    (sent bs : Bytes) (es : List Event) (d : Device Sender)
    → d.port.input ≡ arrived bs ∷ es
    → InBuffer sent d
    → Safely (λ r. InBuffer sent r.1) (rx_handler d)
unfolding rx_handler read
rx_handler_safe sent bs es d e h =
    let full : (0 < length bs) × All Full es = rw e at h.events in
    let (more, fits, left) =
      read_events_lem (1024 - d.self.pos) bs es (omega (arith, h.room)) full.0 full.1 in
    rw e (taken_safe sent d _ _ h more fits left h.written)

silence_safe :
    (sent : Bytes) (es : List Event) (d : Device Sender)
    → d.port.input ≡ silence ∷ es
    → InBuffer sent d
    → InBuffer sent (record d { port = record (d.port) { input = es } })
silence_safe sent es d e h =
    let full : Unit × All Full es = rw e at h.events in
    record { whole = h.whole; room = h.room; events = full.1; written = h.written }

-- Every wait for a packet, with any number of tries, keeps `InBuffer` and never faults.
pub wait_rx-InBuffer :
    (tries : ℕ) (sent : Bytes) (d : Device Sender)
    → InBuffer sent d
    → Safely (λ r. InBuffer sent r.1) (wait_rx rx_handler (suc tries) d)
wait_rx-InBuffer tries sent d h =
    wait_rx_safe (InBuffer sent) rx_handler (silence_safe sent) (rx_handler_safe sent) tries d h

pub receive_packet-InBuffer :
    (d : Device Sender)
    → length d.self.buf ≡ 1024
    → All Full d.port.input
    → Safely (λ r. InBuffer d.port.sent r.1) (receive_packet d)
unfolding receive_packet
receive_packet-InBuffer d h e =
    wait_rx-InBuffer 49 d.port.sent (record d { self = record (d.self) { pos = 0 } })
      (record { whole = h; room = omega arith; events = e; written = refl })
