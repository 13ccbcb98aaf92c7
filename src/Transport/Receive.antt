-- ===== src/Transport/Receive.antt =====
-- The wait for the data of a request: `RxHandler` and `ReceiveRequest` of sw/spyvspy/spy.cpp, on
-- bytes that come in pieces.
use yamashnik.Prelude.{
  ℕ, ◌+◌, ◌≤◌, ◌<◌, ◌≡◌, ◌⊎◌, inl, inr, refl, sym, ap, ◌∙◌, Bool, true, false, List, [], ◌∷◌, ◌++◌,
  some, Bytes, All, map, arith, length, length-append, take, append-nil, append_assoc, Run, done,
  ◌>>=◌,
}
use yamashnik.Serial.{Device, Event, silence, unplugged, arrived, attempt, wait_rx}
use yamashnik.Serial.Progress.{Moves, ends, goes_on, wait_rx-Moves, until-Returns}
use yamashnik.Request.{Request, consume, expect}
use yamashnik.Request.Message.{Field, IsField, message, token, accept_all}
use yamashnik.Request.Receive.{consume-All}
use yamashnik.Request.Prefix.{consume-prefix}
use yamashnik.Request.Ends.{IsPlain}
use yamashnik.Request.Growing.{consume-append, consume-pattern}
use yamashnik.Sender.Receive.{length-splice}
use yamashnik.Sender.{splice}
use yamashnik.Transport.{rx_data, on_read, Transport, rx_handler, receive_data}
use yamashnik.Serial.Silence.{attempt-arrived, attempt-silence}
use yamashnik.Transport.Read.{rx_handler-arrived, on_read-rx_data, with_input, take-splice}

-- The events carry the bytes, in pieces that one `read` takes, with the last piece as the last event.
abbrev pub Carries : List Event → Bytes → Type 0
Carries [] bs = ⊥
Carries (silence ∷ es) bs = Carries es bs
Carries (unplugged ∷ es) bs = ⊥
Carries (arrived c ∷ es) bs =
    (length c ≤ 1024)
    × (((es ≡ []) × (bs ≡ c) × (0 < length c))
        ⊎ ((rest : Bytes) × (bs ≡ c ++ rest) × Carries es rest))

Carries-some : (es : List Event) (bs : Bytes) → Carries es bs → 0 < length bs
Carries-some [] bs h = absurd h
Carries-some (unplugged ∷ es) bs h = absurd h
Carries-some (silence ∷ es) bs h = Carries-some es bs h
Carries-some (arrived c ∷ es) bs (_, inl (_, e, lt)) = omega (arith, ap length e)
Carries-some (arrived c ∷ es) bs (_, inr (rest, e, h)) =
    omega (arith, ap length e, length-append c rest, Carries-some es rest h)

module _ (fs : List Field) (r : Request) (tail : List Event) (out : Bytes) where
  -- `n` events are left, which carry what is left of the message.
  record Coming (n : ℕ) (d : Device Transport) : Type 0 where
    es : List Event
    got : Bytes
    late : Bytes
    left : length es ≡ n
    input : d.port.input ≡ es ++ tail
    carried : Carries es late
    parted : got ++ late ≡ message fs
    state : d.self.state ≡ rx_data
    room : length d.self.rxbuf ≡ 65536
    pos : d.self.rxpos ≡ length got
    stored : take d.self.rxpos d.self.rxbuf ≡ got
    plain : IsPlain d.self.rq.rxpattern
    same :
        (extra : Bytes)
        → consume (got ++ extra) d.self.rq ≡ consume (got ++ extra) (expect (map token fs) r)
    written : d.port.sent ≡ out

  -- The message has come in whole, and no more has been read.
  pub record Whole (d : Device Transport) : Type 0 where
    pub rq : d.self.rq ≡ accept_all fs (expect (map token fs) r)
    pub room : length d.self.rxbuf ≡ 65536
    pub input : d.port.input ≡ tail
    pub written : d.port.sent ≡ out

  module _ (valid : All IsField fs) (small : length (message fs) ≤ 65536) where
    Coming-silence :
        (n : ℕ) (d : Device Transport) (es : List Event) (h : Coming n d)
        → h.es ≡ silence ∷ es
        → Moves Coming Whole n (attempt rx_handler d)
    Coming-silence n d es h e =
        goes_on (length es) _ (omega (arith, h.left, ap length e))
          (attempt-silence rx_handler (es ++ tail) d (h.input ∙ ap (λ i. i ++ tail) e))
          (record {
            es = es;
            got = h.got;
            late = h.late;
            left = refl;
            input = refl;
            carried = rw e at h.carried;
            parted = h.parted;
            state = h.state;
            room = h.room;
            pos = h.pos;
            stored = h.stored;
            plain = h.plain;
            same = h.same;
            written = h.written;
          })

    -- A piece of the data: what `consume` says of it is what `RxHandler` says.
    piece :
        (n : ℕ) (d : Device Transport) (c : Bytes) (es : List Event) (h : Coming n d)
        → h.es ≡ arrived c ∷ es
        → length c ≤ 1024
        → length (h.got ++ c) ≤ 65536
        → (b : Bool) (rq : Request) → consume (h.got ++ c) d.self.rq ≡ some (b, rq)
        → attempt rx_handler d
          ≡ done (
            b,
            with_input (es ++ tail) d (record (d.self) {
              rxbuf = splice d.self.rxbuf d.self.rxpos c;
              rxpos = d.self.rxpos + length c;
              rq = rq;
            }),
          )
    piece n d c es h e le fits b rq k =
        let input : d.port.input ≡ arrived c ∷ (es ++ tail) = h.input ∙ ap (λ i. i ++ tail) e in
        attempt-arrived rx_handler (es ++ tail) d c input
        ∙ rx_handler-arrived d c (es ++ tail) input (rw h.state le)
        ∙ ap (λ st. on_read st c d.self >>= go_on) h.state
        ∙ ap (λ m. m >>= go_on)
            (on_read-rx_data c h.got d.self b rq
              (omega (arith, h.room, h.pos, length-append h.got c)) h.stored k)
      where
        go_on : Bool × Transport → Run (Bool × Device Transport)
        go_on (got, t) = done (got, with_input (es ++ tail) d t)

    -- The last piece of the data.
    Coming-last :
        (n : ℕ) (d : Device Transport) (c : Bytes) (h : Coming n d)
        → h.es ≡ arrived c ∷ []
        → length c ≤ 1024
        → h.late ≡ c
        → Moves Coming Whole n (attempt rx_handler d)
    Coming-last n d c h e le k =
        let all : h.got ++ c ≡ message fs = ap (λ b. h.got ++ b) (sym k) ∙ h.parted in
        let fits : length (h.got ++ c) ≤ 65536 = omega (arith, ap length all) in
        let found : consume (h.got ++ c) d.self.rq
            ≡ some (true, accept_all fs (expect (map token fs) r)) =
          h.same c
          ∙ ap (λ b. consume b (expect (map token fs) r)) (all ∙ sym (append-nil (message fs)))
          ∙ consume-All fs [] r valid in
        ends _ (piece n d c [] h e le fits true _ found) (record {
          rq = refl;
          room =
              length-splice d.self.rxbuf c d.self.rxpos
                (omega (arith, h.room, h.pos, length-append h.got c))
              ∙ h.room;
          input = refl;
          written = h.written;
        })

    -- A piece that more will follow.
    Coming-more :
        (n : ℕ) (d : Device Transport) (c rest : Bytes) (es : List Event) (h : Coming n d)
        → h.es ≡ arrived c ∷ es
        → length c ≤ 1024
        → h.late ≡ c ++ rest
        → Carries es rest
        → Moves Coming Whole n (attempt rx_handler d)
    Coming-more n d c rest es h e le k carried =
        let parted : (h.got ++ c) ++ rest ≡ message fs =
          append_assoc h.got c rest ∙ ap (λ b. h.got ++ b) (sym k) ∙ h.parted in
        let room : d.self.rxpos + length c ≤ length d.self.rxbuf = omega (
          arith,
          h.room,
          h.pos,
          length-append h.got c,
          length-append (h.got ++ c) rest,
          ap length parted,
        ) in
        let (rq, asks) =
          consume-prefix fs (h.got ++ c) rest r valid (Carries-some es rest carried) parted in
        let found : consume (h.got ++ c) d.self.rq ≡ some (false, rq) = h.same c ∙ asks in
        goes_on (length es) _ (omega (arith, h.left, ap length e))
          (piece n d c es h e le (omega (arith, h.room, h.pos, length-append h.got c)) false rq
            found)
          (record {
            es = es;
            got = h.got ++ c;
            late = rest;
            left = refl;
            input = refl;
            carried = carried;
            parted = parted;
            state = h.state;
            room = length-splice d.self.rxbuf c d.self.rxpos room ∙ h.room;
            pos = omega (arith, h.pos, length-append h.got c);
            stored =
                take-splice d.self.rxbuf c d.self.rxpos (omega arith) ∙ ap (λ b. b ++ c) h.stored;
            plain = rw (consume-pattern (h.got ++ c) d.self.rq rq h.plain found) h.plain;
            same = λ extra.
                consume-append (h.got ++ c) extra d.self.rq rq h.plain found
                ∙ ap (λ b. consume b d.self.rq) (append_assoc h.got c extra)
                ∙ h.same (c ++ extra)
                ∙ ap (λ b. consume b (expect (map token fs) r)) (sym (append_assoc h.got c extra));
            written = h.written;
          })

    Coming-step :
        (n : ℕ) (d : Device Transport) → Coming n d → Moves Coming Whole n (attempt rx_handler d)
    Coming-step n d h = split h.es refl h.carried
      where
        split :
            (es : List Event)
            → h.es ≡ es
            → Carries es h.late
            → Moves Coming Whole n (attempt rx_handler d)
        split [] e k = absurd k
        split (silence ∷ es) e k = Coming-silence n d es h e
        split (unplugged ∷ es) e k = absurd k
        split (arrived c ∷ es) e (le, inl (none_left, k, _)) =
            Coming-last n d c h (e ∙ ap (λ t. arrived c ∷ t) none_left) le k
        split (arrived c ∷ es) e (le, inr (rest, k, carried)) =
            Coming-more n d c rest es h e le k carried

    -- Fuel for one round more than there are events is enough for the wait.
    pub receive_data-Whole :
        (fuel : ℕ) (d : Device Transport) (es : List Event)
        → length es < fuel
        → d.port.input ≡ es ++ tail
        → d.port.sent ≡ out
        → Carries es (message fs)
        → d.self.state ≡ rx_data
        → d.self.rxpos ≡ 0
        → length d.self.rxbuf ≡ 65536
        → d.self.rq ≡ expect (map token fs) r
        → IsPlain (map token fs)
        → (d' : Device Transport) × (receive_data fuel d ≡ done d') × Whole d'
    unfolding receive_data
    receive_data-Whole fuel d es lt input written carried state pos room rq plain =
        until-Returns Coming Whole (wait_rx rx_handler 10)
          (wait_rx-Moves Coming Whole rx_handler Coming-step 9) fuel (length es) d lt
          (record {
            es = es;
            got = [];
            late = message fs;
            left = refl;
            input = input;
            carried = carried;
            parted = refl;
            state = state;
            room = room;
            pos = pos;
            stored = ap (λ n. take n d.self.rxbuf) pos;
            plain = unfold expect in rw rq plain;
            same = λ extra. ap (consume extra) rq;
            written = written;
          })
