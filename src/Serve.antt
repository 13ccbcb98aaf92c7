-- ===== src/Serve.antt =====
-- The server's loop: `Serve` of sw/spyvspy/spy.cpp, with the transport, the request that it keeps and
-- the file services put together.
pub mod Session
pub mod Refine
pub mod Spares
pub mod Sound
use yamashnik.Prelude.{ℕ, zero, suc, true, false, Run, done, ◌>>=◌}
use yamashnik.Serial.{Device}
use yamashnik.Disk.{Host}
use yamashnik.Bdos.State.{World}
use yamashnik.Bdos.Exec.{exec_func}
use yamashnik.Transport.{Transport, poll_student, receive_request, transmit_response}

-- What `Serve` holds: the transport on its port, and `NetBDOS` on its directory.
pub record Server : Type 0 where
  pub line : Device Transport
  pub world : World

-- `ExecFunc` and `TransmitResponse`
unfoldable pub answer : Host → Server → Run Server
answer host s = do
  (response, w) ← exec_func host s.line.self.rq s.world
  line ← transmit_response response s.line
  done (record { line = line; world = w })

-- One round of the loop: two `continue`s, then the answer.
unfoldable pub serve_round : Host → ℕ → ℕ → Server → Run Server
serve_round host fuel student s = do
  (polled, line) ← poll_student student s.line
  elim polled [
    | false ↦ done (record s { line = line })
    | true ↦ receive_request fuel line >>= λ (got, line'). elim got [
      | false ↦ done (record s { line = line' })
      | true ↦ answer host (record s { line = line' })
    ]
  ]

-- The loop has no end: this is its state after some rounds. The fuel is for the wait for data.
unfoldable pub serve : Host → ℕ → ℕ → ℕ → Server → Run Server
serve host fuel student zero s = done s
serve host fuel student (suc rounds) s =
    serve_round host fuel student s >>= serve host fuel student rounds
