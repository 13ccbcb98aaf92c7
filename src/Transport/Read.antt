-- ===== src/Transport/Read.antt =====
-- One call of `RxHandler` of sw/spyvspy/spy.cpp on bytes that fit what it asks for.
use yamashnik.Prelude.{
  ℕ, ◌+◌, ◌≤◌, ◌≡◌, refl, sym, ap, ◌∙◌, Bool, List, ◌∷◌, ◌++◌, some, Bytes, arith, length,
  length-append, length-take, take, drop, take_all, take-append, append_assoc, le→leb, done, ◌>>=◌,
}
use yamashnik.Serial.{Device, Event, arrived, read, read_events}
use yamashnik.Request.{Request, consume}
use yamashnik.Sender.{splice}
use yamashnik.Transport.{rx_data, Transport, on_read, store, consumed, asked, rx_handler}

-- The device after its input has been read.
abbrev pub with_input : List Event → Device Transport → Transport → Device Transport
with_input es d t = record { port = record (d.port) { input = es }; self = t }

pub rx_handler-arrived :
    (d : Device Transport) (bs : Bytes) (es : List Event)
    → d.port.input ≡ arrived bs ∷ es
    → length bs ≤ asked d.self.state
    → rx_handler d ≡ (on_read d.self.state bs d.self >>= λ (got, t). done (got, with_input es d t))
unfolding rx_handler read read_events
rx_handler-arrived d bs es e h =
    rw (e, le→leb (length bs) (asked d.self.state) h, take_all (asked d.self.state) bs h) refl

pub take-splice :
    (buf bs : Bytes) (at : ℕ)
    → at ≤ length buf
    → take (at + length bs) (splice buf at bs) ≡ take at buf ++ bs
take-splice buf bs at h =
    ap (take (at + length bs)) (sym (append_assoc (take at buf) bs (drop (at + length bs) buf)))
    ∙ take-append (at + length bs) (take at buf ++ bs) (drop (at + length bs) buf)
        (omega (arith, length-append (take at buf) bs, length-take at buf))

pub store-fits :
    (at : ℕ) (bs : Bytes) (t : Transport)
    → at + length bs ≤ length t.rxbuf
    → store at bs t ≡ done (record t { rxbuf = splice t.rxbuf at bs })
unfolding store
store-fits at bs t h = rw (le→leb (at + length bs) (length t.rxbuf) h) refl

-- More data for a request, where they fit the buffer.
pub on_read-rx_data :
    (bs got : Bytes) (t : Transport) (done_with : Bool) (rq : Request)
    → t.rxpos + length bs ≤ length t.rxbuf
    → take t.rxpos t.rxbuf ≡ got
    → consume (got ++ bs) t.rq ≡ some (done_with, rq)
    → on_read rx_data bs t
      ≡ done (
        done_with,
        record t { rxbuf = splice t.rxbuf t.rxpos bs; rxpos = t.rxpos + length bs; rq = rq },
      )
unfolding on_read consumed
on_read-rx_data bs got t done_with rq h e k =
    rw (store-fits t.rxpos bs t h, take-splice t.rxbuf bs t.rxpos (omega arith), e, k) refl
