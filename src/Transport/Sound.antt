-- ===== src/Transport/Sound.antt =====
-- The sizes of what `SpyTransport` of sw/spyvspy/spy.h and spy.cpp holds, whatever the line brings.
use yamashnik.Prelude.{
  ℕ, ◌+◌, ◌≡◌, ◌∙◌, inl, inr, Bool, true, false, Bool-cases, Option, none, some, Bytes, arith, leb,
  leb→le, length, length-take, take, done, Every, Every->>=,
}
use yamashnik.Serial.{Device, wait_rx}
use yamashnik.Serial.Keeps.{wait_rx-Every, until-Every}
use yamashnik.Request.{Request, consume, needs_data}
use yamashnik.Request.Table.{pattern_of, func_of}
use yamashnik.Request.Sound.{length-pattern_of, IsSound, expect-IsSound, consume-IsSound, Left}
use yamashnik.Sender.Receive.{length-splice}
use yamashnik.Transport.{
  Transport, SpyState, bootstrap, poll, get_func, rx_data, store, consumed, on_read, rx_handler,
  poll_student, receive_data, request_data, receive_request, expecting,
}

-- The receive buffer has its size, and the request is sound.
pub record IsSoundLine (t : Transport) : Type 0 where
  pub whole : length t.rxbuf ≡ 65536
  pub sound : IsSound t.rq

store-IsSoundLine :
    (at : ℕ) (bs : Bytes) (t : Transport) → IsSoundLine t → Every IsSoundLine (store at bs t)
unfolding store
store-IsSoundLine at bs t h = elim (Bool-cases (leb (at + length bs) (length t.rxbuf))) [
  | inl fits ↦ rw fits (record {
    whole = length-splice t.rxbuf bs at (leb→le (at + length bs) (length t.rxbuf) fits) ∙ h.whole;
    sound = h.sound;
  })
  | inr long ↦ rw long tt
]

consumed-IsSoundLine :
    (t : Transport) (r : Option (Bool × Request))
    → IsSoundLine t
    → Left IsSound r
    → Every (λ x. IsSoundLine x.1) (consumed t r)
unfolding consumed
consumed-IsSoundLine t none h k = tt
consumed-IsSoundLine t (some (got, rq)) h k = record { whole = h.whole; sound = k }

on_read-IsSoundLine :
    (state : SpyState) (bs : Bytes) (t : Transport)
    → IsSoundLine t
    → Every (λ x. IsSoundLine x.1) (on_read state bs t)
unfolding on_read
on_read-IsSoundLine bootstrap bs t h =
    Every->>= IsSoundLine (λ x. IsSoundLine x.1) (store 0 bs t) _ (store-IsSoundLine 0 bs t h)
      (λ t' k. k)
on_read-IsSoundLine poll bs t h =
    Every->>= IsSoundLine (λ x. IsSoundLine x.1) (store 0 bs t) _ (store-IsSoundLine 0 bs t h)
      (λ t' k. k)
on_read-IsSoundLine get_func bs t h =
    Every->>= IsSoundLine (λ x. IsSoundLine x.1) (store 0 bs t) _ (store-IsSoundLine 0 bs t h)
      (λ t' k. record { whole = k.whole; sound = k.sound })
on_read-IsSoundLine rx_data bs t h =
    Every->>= IsSoundLine (λ x. IsSoundLine x.1) (store t.rxpos bs t) _
      (store-IsSoundLine t.rxpos bs t h)
      λ t' k.
        consumed-IsSoundLine (record t' { rxpos = t.rxpos + length bs })
          (consume (take (t.rxpos + length bs) t'.rxbuf) t'.rq)
          (record { whole = k.whole; sound = k.sound })
          (consume-IsSound (take (t.rxpos + length bs) t'.rxbuf) t'.rq
            (omega (arith, k.whole, length-take (t.rxpos + length bs) t'.rxbuf)) k.sound)

rx_handler-IsSoundLine :
    (d : Device Transport) → IsSoundLine d.self → Every (λ r. IsSoundLine r.1.self) (rx_handler d)
unfolding rx_handler
rx_handler-IsSoundLine d h =
    Every->>= (λ x. IsSoundLine x.1) (λ r. IsSoundLine r.1.self) (on_read d.self.state _ d.self) _
      (on_read-IsSoundLine d.self.state _ d.self h) (λ x k. k)

pub poll_student-IsSoundLine :
    (student : ℕ) (d : Device Transport)
    → IsSoundLine d.self
    → Every (λ r. IsSoundLine r.1.self) (poll_student student d)
unfolding poll_student
poll_student-IsSoundLine student d h =
    wait_rx-Every IsSoundLine rx_handler rx_handler-IsSoundLine 10 _
      (record { whole = h.whole; sound = h.sound })

request_data-IsSoundLine :
    (fuel : ℕ) (d : Device Transport)
    → IsSoundLine d.self
    → Every (λ r. IsSoundLine r.1.self) (request_data fuel d)
unfolding request_data receive_data
request_data-IsSoundLine fuel d h = elim (Bool-cases (needs_data d.self.rq)) [
  | inl some_data ↦ rw some_data (
      Every->>= (λ d'. IsSoundLine d'.self) (λ r. IsSoundLine r.1.self)
        (receive_data fuel (record d { self = record (d.self) { state = rx_data; rxpos = 0 } })) _
        (until-Every IsSoundLine (wait_rx rx_handler 10)
          (wait_rx-Every IsSoundLine rx_handler rx_handler-IsSoundLine 10) fuel _
          (record { whole = h.whole; sound = h.sound }))
        (λ d' k. k))
  | inr no_data ↦ rw no_data h
]

pub receive_request-IsSoundLine :
    (fuel : ℕ) (d : Device Transport)
    → IsSoundLine d.self
    → Every (λ r. IsSoundLine r.1.self) (receive_request fuel d)
unfolding receive_request
receive_request-IsSoundLine fuel d h =
    Every->>= (λ r. IsSoundLine r.1.self) (λ r. IsSoundLine r.1.self)
      (wait_rx rx_handler 10 (record d { self = record (d.self) { state = get_func } })) _
      (wait_rx-Every IsSoundLine rx_handler rx_handler-IsSoundLine 10 _
        (record { whole = h.whole; sound = h.sound }))
      behind
  where
    behind :
        (r : Bool × Device Transport)
        → IsSoundLine r.1.self
        → Every
            (λ (x : Bool × Device Transport). IsSoundLine x.1.self)
            (elim r.0 [
              | true ↦ request_data fuel (record (r.1) { self = expecting r.1.self })
              | false ↦ done (false, r.1)
            ])
    behind (true, d') k = request_data-IsSoundLine fuel _ (record {
      whole = k.whole;
      sound =
          expect-IsSound d'.self.func (pattern_of (func_of d'.self.func)) d'.self.rq
            (length-pattern_of (func_of d'.self.func)) k.sound;
    })
    behind (false, d') k = k
