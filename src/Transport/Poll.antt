-- ===== src/Transport/Poll.antt =====
-- `Poll` and `ReceiveRequest` of sw/spyvspy/spy.cpp on what a workstation may do.
use yamashnik.Prelude.{
  ℕ, ◌≤◌, ◌<◌, ◌≡◌, ◌⊎◌, inl, inr, refl, ap, ◌∙◌, true, false, List, [], ◌∷◌, ◌++◌, All, map, arith,
  length, drop, done, u8,
}
use yamashnik.Serial.{Device, Event, arrived, wait_rx}
use yamashnik.Serial.Silence.{silences, heard, attempt-arrived, wait_rx-heard, wait_rx-silent}
use yamashnik.Request.{Request, expect, set_func, needs_data}
use yamashnik.Request.Message.{
  Field, byte_field, word_field, fcb_field, dma_field, IsField, message, token,
}
use yamashnik.Request.Table.{func_of, pattern_of}
use yamashnik.Request.Ends.{IsPlain}
use yamashnik.Sender.Receive.{length-splice}
use yamashnik.Transport.{
  rx_data, poll, get_func, Transport, rx_handler, on_read, poll_student, receive_request,
  request_data, expecting,
}
use yamashnik.Transport.Read.{rx_handler-arrived, store-fits}
use yamashnik.Transport.Receive.{Carries, Whole, receive_data-Whole}

-- The bytes that answer a poll.
abbrev pub IsAnswer : ℕ → Type 0
IsAnswer b = (b ≡ 0xff) ⊎ (b ≡ 0x7f)

-- The transport after one byte has been read into its buffer.
abbrev one_byte : ℕ → Transport → Transport
one_byte b t = record t { rxbuf = b ∷ drop 1 t.rxbuf }

on_read-poll :
    (b : ℕ) (t : Transport)
    → IsAnswer b
    → 1 ≤ length t.rxbuf
    → on_read poll (b ∷ []) t ≡ done (true, one_byte b t)
unfolding on_read
on_read-poll b t (inl e) room = rw (store-fits 0 (b ∷ []) t room, e) refl
on_read-poll b t (inr e) room = rw (store-fits 0 (b ∷ []) t room, e) refl

on_read-get_func :
    (b : ℕ) (t : Transport)
    → 1 ≤ length t.rxbuf
    → on_read get_func (b ∷ []) t ≡ done (true, record (one_byte b t) { func = b })
unfolding on_read
on_read-get_func b t room = rw (store-fits 0 (b ∷ []) t room) refl

-- The device once the poll has been answered.
abbrev pub polled : ℕ → ℕ → List Event → Device Transport → Device Transport
polled student b es d = record {
  port = record { sent = d.port.sent ++ (u8 student ∷ 0xF4 ∷ []); input = es };
  self = record (one_byte b d.self) { state = poll };
}

-- The device once nobody has answered it.
abbrev pub ignored : ℕ → List Event → Device Transport → Device Transport
ignored student es d = record {
  port = record { sent = d.port.sent ++ (u8 student ∷ 0xF4 ∷ []); input = es };
  self = record (d.self) { state = poll };
}

pub poll_student-answered :
    (student n b : ℕ) (es : List Event) (d : Device Transport)
    → n < 10
    → IsAnswer b
    → 1 ≤ length d.self.rxbuf
    → d.port.input ≡ silences n ++ (arrived (b ∷ []) ∷ es)
    → poll_student student d ≡ done (true, polled student b es d)
unfolding poll_student
poll_student-answered student n b es d few h room e =
    wait_rx-heard rx_handler (arrived (b ∷ []) ∷ es) n 9 _ _ (omega arith) e (
      attempt-arrived rx_handler es _ (b ∷ []) refl
      ∙ rx_handler-arrived _ (b ∷ []) es refl (omega arith)
      ∙ rw (on_read-poll b (record (d.self) { state = poll }) h room) refl)

pub poll_student-ignored :
    (student : ℕ) (es : List Event) (d : Device Transport)
    → d.port.input ≡ silences 10 ++ es
    → poll_student student d ≡ done (false, ignored student es d)
unfolding poll_student
poll_student-ignored student es d e = wait_rx-silent rx_handler es 9 _ e

-- What follows a function code: the data of the pattern, or nothing.
abbrev pub Brings : List Event → List Field → Type 0
Brings es [] = es ≡ []
Brings es (f ∷ fs) = Carries es (message (f ∷ fs))

token-IsPlain : (fs : List Field) → IsPlain (map token fs)
token-IsPlain [] = tt
token-IsPlain (byte_field b ∷ fs) = (λ e. cc e, token-IsPlain fs)
token-IsPlain (word_field w ∷ fs) = (λ e. cc e, token-IsPlain fs)
token-IsPlain (fcb_field f ∷ fs) = (λ e. cc e, token-IsPlain fs)
token-IsPlain (dma_field bs ∷ fs) = (λ e. cc e, token-IsPlain fs)

-- `ReceiveRequest` behind the switch, for a pattern without and with data.
request_data-Whole :
    (fuel : ℕ) (fs : List Field) (r : Request) (es tail : List Event) (d : Device Transport)
    → All IsField fs
    → length (message fs) ≤ 65536
    → length es < fuel
    → length d.self.rxbuf ≡ 65536
    → d.port.input ≡ es ++ tail
    → d.self.rq ≡ expect (map token fs) r
    → Brings es fs
    → (d' : Device Transport) × (request_data fuel d ≡ done (true, d'))
      × Whole fs r tail d.port.sent d'
unfolding request_data needs_data
request_data-Whole fuel [] r es tail d valid small enough room input rq h = (
  d,
  let none_expected : needs_data d.self.rq ≡ false = ap needs_data rq ∙ unfold expect in refl in
      rw none_expected refl,
  record { rq = rq; room = room; input = input ∙ ap (λ t. t ++ tail) h; written = refl },
)
request_data-Whole fuel (f ∷ fs) r es tail d valid small enough room input rq h =
    let waiting : Device Transport = record d {
      self = record (d.self) { state = rx_data; rxpos = 0 };
    } in
    let (d', e, whole) =
      receive_data-Whole (f ∷ fs) r tail d.port.sent valid small fuel waiting es enough input refl h
        refl refl room rq (token-IsPlain (f ∷ fs)) in
    (
      d',
      let some_expected : needs_data d.self.rq ≡ true = ap needs_data rq ∙ unfold expect in refl in
          rw (some_expected, e) refl,
      whole,
    )

-- A function code, after fewer silent rounds than `waitRx` allows, and its data: whatever the pieces
-- that they come in, the request holds what `consume` makes of the whole message, and nothing behind
-- the message has been read.
pub receive_request-Whole :
    (fuel n code : ℕ) (fs : List Field) (es tail : List Event) (d : Device Transport)
    → n < 10
    → pattern_of (func_of code) ≡ map token fs
    → All IsField fs
    → length (message fs) ≤ 65536
    → length es < fuel
    → length d.self.rxbuf ≡ 65536
    → d.port.input ≡ silences n ++ (arrived (code ∷ []) ∷ (es ++ tail))
    → Brings es fs
    → (d' : Device Transport) × (receive_request fuel d ≡ done (true, d'))
      × Whole fs (set_func code d.self.rq) tail d.port.sent d'
unfolding receive_request
receive_request-Whole fuel n code fs es tail d few known valid small enough room input h =
    let asked : Device Transport = record d { self = record (d.self) { state = get_func } } in
    let told : Device Transport = record {
      port = record (d.port) { input = es ++ tail };
      self = record (one_byte code d.self) { state = get_func; func = code };
    } in
    let heard_it : wait_rx rx_handler 10 asked ≡ done (true, told) =
      wait_rx-heard rx_handler (arrived (code ∷ []) ∷ (es ++ tail)) n 9 asked told (omega arith)
        input
        (attempt-arrived rx_handler (es ++ tail) _ (code ∷ []) refl
          ∙ rx_handler-arrived _ (code ∷ []) (es ++ tail) refl (omega arith)
          ∙ rw (on_read-get_func code (record (d.self) { state = get_func }) (omega (arith, room)))
              refl) in
    let (d', e, whole) =
      request_data-Whole fuel fs (set_func code d.self.rq) es tail
        (record told { self = expecting told.self }) valid small enough
        (length-splice d.self.rxbuf (code ∷ []) 0 (omega (arith, room)) ∙ room) refl
        (ap (λ p. expect p (set_func code d.self.rq)) known) h in
    (d', rw heard_it e, whole)

-- An answer to the poll, but no function code.
pub receive_request-silent :
    (fuel : ℕ) (es : List Event) (d : Device Transport)
    → d.port.input ≡ silences 10 ++ es
    → receive_request fuel d
      ≡ done (false, heard es (record d { self = record (d.self) { state = get_func } }))
unfolding receive_request
receive_request-silent fuel es d e =
    rw (wait_rx-silent rx_handler es 9 (record d { self = record (d.self) { state = get_func } }) e)
      refl
