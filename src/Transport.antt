-- ===== src/Transport.antt =====
-- The transport of the Spy protocol and the server's loop: `SpyTransport` and `Serve` of
-- sw/spyvspy/spy.h and spy.cpp. `SendByte`, `SendWord` and `SendChunk` are the lists of bytes of Response.
pub mod Read
pub mod Receive
pub mod Poll
pub mod Sound
use yamashnik.Prelude.{
  ℕ, ◌+◌, Bool, true, false, ◌&&◌, ◌||◌, ◌++◌, Option, none, some, Bytes, leb, ◌==◌, if◌then◌else◌,
  length, get_or, take, Run, done, fault, running, ◌>>=◌,
}
use yamashnik.Serial.{Device, Handler, read, transmit, wait_rx, until}
use yamashnik.Request.{Request, set_func, expect, needs_data, consume}
use yamashnik.Request.Table.{func_of, pattern_of}
use yamashnik.Response.{Response, send_byte, send_word, send_chunk, emit}
use yamashnik.Sender.{splice}

-- `SPY_BOOTSTRAP` and its kin
pub data SpyState : Type 0 where
  bootstrap poll get_func rx_data : SpyState

-- `rq` is the request that `m_rq` points to, the one object of `Serve`; `rxbuf` has 65536 bytes.
pub record Transport : Type 0 where
  pub state : SpyState
  pub func : ℕ
  pub rq : Request
  pub rxbuf : Bytes
  pub rxpos : ℕ

-- `m_serial->read(&m_rxbuf[at], ..)` has read these bytes; behind the buffer lie other objects.
unfoldable pub store : ℕ → Bytes → Transport → Run Transport
store at bs t =
    if leb (at + length bs) (length t.rxbuf)
    then done (record t { rxbuf = splice t.rxbuf at bs })
    else fault

-- `m_rq->consume(m_rxbuf, m_rxpos)`
unfoldable pub consumed : Transport → Option (Bool × Request) → Run (Bool × Transport)
consumed t none = running
consumed t (some (got, rq)) = done (got, record t { rq = rq })

-- The cases of `RxHandler`, given what `read` has read.
unfoldable pub on_read : SpyState → Bytes → Transport → Run (Bool × Transport)
unfolding store consumed
on_read bootstrap bs t = do t' ← store 0 bs t; done (true, t')
on_read poll bs t = do
  t' ← store 0 bs t
  let first = get_or t'.rxbuf 0 0
  done (length bs == 1 && (first == 0xff || first == 0x7f), t')
on_read get_func bs t = do
  t' ← store 0 bs t
  done (length bs == 1, record t' { func = get_or t'.rxbuf 0 0 })
on_read rx_data bs t = do
  t' ← store t.rxpos bs t
  let pos = t.rxpos + length bs
  consumed (record t' { rxpos = pos }) (consume (take pos t'.rxbuf) t'.rq)

-- The second argument of `read`
abbrev asked : SpyState → ℕ
asked bootstrap = 1024
asked poll = 1
asked get_func = 1
asked rx_data = 1024

-- `RxHandler`
unfoldable pub rx_handler : Handler Transport
unfolding on_read
rx_handler d =
    let (bs, port) = read (asked d.self.state) d.port in
    on_read d.self.state bs d.self >>= λ (got, t). done (got, record { port = port; self = t })

-- `Poll(studentNo)`
unfoldable pub poll_student : ℕ → Handler Transport
poll_student student d = wait_rx rx_handler 10 (record {
  port = transmit (send_byte student ++ send_byte 0xF4) d.port;
  self = record (d.self) { state = poll };
})

-- `while (!m_serial->waitRx());`
unfoldable pub receive_data : ℕ → Device Transport → Run (Device Transport)
receive_data fuel d = until fuel (wait_rx rx_handler 10) d

-- `ReceiveRequest` behind the switch
unfoldable pub request_data : ℕ → Handler Transport
request_data fuel d =
    if needs_data d.self.rq
    then (do
      d' ← receive_data fuel (record d { self = record (d.self) { state = rx_data; rxpos = 0 } })
      done (true, d'))
    else done (true, d)

-- `m_rq->setFunc(m_func)` and the switch
abbrev pub expecting : Transport → Transport
expecting t = record t { rq = expect (pattern_of (func_of t.func)) (set_func t.func t.rq) }

-- `ReceiveRequest`
unfoldable pub receive_request : ℕ → Handler Transport
receive_request fuel d = do
  (got, d') ← wait_rx rx_handler 10 (record d { self = record (d.self) { state = get_func } })
  elim got [
    | true ↦ request_data fuel (record d' { self = expecting d'.self })
    | false ↦ done (false, d')
  ]

-- `TransmitResponse`
unfoldable pub transmit_response : Response → Device Transport → Run (Device Transport)
transmit_response r d = do bs ← emit r; done (record d { port = transmit bs d.port })

-- `SendMemory`
unfoldable pub send_memory : Bytes → ℕ → ℕ → Run Bytes
send_memory bytes addr len = do
  chunk ← send_chunk (some bytes) len
  done (send_byte 1 ++ (send_word addr ++ (send_word len ++ chunk)))
