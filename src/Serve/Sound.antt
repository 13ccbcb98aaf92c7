-- ===== src/Serve/Sound.antt =====
-- What the rounds of `Serve` of sw/spyvspy/spy.cpp keep, whatever the line brings.
use yamashnik.Prelude.{
  ℕ, zero, suc, Bool, true, false, Run, Bytes, done, exited, fault, running, ◌>>=◌, Every,
  >>=-Every, Every->>=,
}
use yamashnik.Serial.{Device, transmit}
use yamashnik.Response.{Response, emit}
use yamashnik.Disk.{Host}
use yamashnik.Bdos.State.{World}
use yamashnik.Bdos.Exec.{exec_func}
use yamashnik.Transport.{Transport, poll_student, receive_request, transmit_response}
use yamashnik.Transport.Sound.{IsSoundLine, poll_student-IsSoundLine, receive_request-IsSoundLine}
use yamashnik.Serve.{Server, answer, serve_round, serve}

abbrev pub IsSoundServer : Server → Type 0
IsSoundServer s = IsSoundLine s.line.self

answer-IsSoundServer :
    (host : Host) (s : Server) → IsSoundServer s → Every IsSoundServer (answer host s)
unfolding answer transmit_response
answer-IsSoundServer host s h =
    >>=-Every IsSoundServer (exec_func host s.line.self.rq s.world) _ (λ r. sent r.0 r.1 (emit r.0))
  where
    sent :
        (response : Response) (w : World) (m : Run Bytes)
        → Every IsSoundServer (
            m >>= (λ bs. done (record (s.line) { port = transmit bs s.line.port })) >>= λ line.
            done (record { line = line; world = w }))
    sent response w (done bs) = h
    sent response w exited = tt
    sent response w fault = tt
    sent response w running = tt

serve_round-IsSoundServer :
    (host : Host) (fuel student : ℕ) (s : Server)
    → IsSoundServer s
    → Every IsSoundServer (serve_round host fuel student s)
unfolding serve_round
serve_round-IsSoundServer host fuel student s h =
    Every->>= (λ r. IsSoundLine r.1.self) IsSoundServer (poll_student student s.line) _
      (poll_student-IsSoundLine student s.line h) polled
  where
    got :
        (r : Bool × Device Transport)
        → IsSoundLine r.1.self
        → Every IsSoundServer (elim r.0 [
          | false ↦ done (record s { line = r.1 })
          | true ↦ answer host (record s { line = r.1 })
        ])
    got (false, line) k = k
    got (true, line) k = answer-IsSoundServer host (record s { line = line }) k

    polled :
        (r : Bool × Device Transport)
        → IsSoundLine r.1.self
        → Every IsSoundServer (elim r.0 [
          | false ↦ done (record s { line = r.1 })
          | true ↦ receive_request fuel r.1 >>= λ (got, line'). elim got [
            | false ↦ done (record s { line = line' })
            | true ↦ answer host (record s { line = line' })
          ]
        ])
    polled (false, line) k = k
    polled (true, line) k =
        Every->>= (λ r. IsSoundLine r.1.self) IsSoundServer (receive_request fuel line) _
          (receive_request-IsSoundLine fuel line k) got

-- Whatever the line brings and whoever is served: where rounds of `Serve` come to an end — they go on for
-- ever without the data that a request waits for, and are undefined where data run over the receive
-- buffer —, the cursor of the request's numbers is not in front of that of its pattern, and the pattern has at
-- most eight tokens, so that a number always has one of the eight places; and the receive buffer has its
-- 65536 bytes, the request its eight places, its 65536 bytes for data, and eleven bytes of a name. All this
-- if it was so before.
pub serve-IsSoundServer :
    (host : Host) (fuel student rounds : ℕ) (s : Server)
    → IsSoundServer s
    → Every IsSoundServer (serve host fuel student rounds s)
unfolding serve
serve-IsSoundServer host fuel student zero s h = h
serve-IsSoundServer host fuel student (suc rounds) s h =
    Every->>= IsSoundServer IsSoundServer (serve_round host fuel student s) _
      (serve_round-IsSoundServer host fuel student s h)
      (serve-IsSoundServer host fuel student rounds)
