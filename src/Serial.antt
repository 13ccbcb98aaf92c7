-- ===== src/Serial.antt =====
-- The serial port: sw/spyvspy/serial.h and serial.cpp. The line's far end is the list of what each
-- call of `select` will report. Failures of `select` other than an unplugged device, and failures of
-- `read` and `write` on an open device, are not modelled.
pub mod Wait
pub mod Progress
pub mod Silence
pub mod Keeps
pub mod Setup
use yamashnik.Prelude.{
  ℕ, zero, suc, Bool, true, false, List, [], ◌∷◌, ◌++◌, Bytes, Run, done, exited, fault, running,
  ◌>>=◌, leb, if◌then◌else◌, length, take, drop,
}

-- What one `select` reports: the time-out passed, the device is gone, or these bytes can be read.
pub data Event : Type 0 where
  silence unplugged : Event
  arrived : Bytes → Event

-- `sent` is all that was written so far. Behind the end of `input` the line is silent.
pub record Port : Type 0 where
  pub sent : Bytes
  pub input : List Event

-- `SendByte`, once for each byte
abbrev pub transmit : Bytes → Port → Port
transmit bs p = record p { sent = p.sent ++ bs }

unfoldable pub read_events : ℕ → List Event → Bytes × List Event
read_events n (arrived bs ∷ es) =
    (take n bs, if leb (length bs) n then es else arrived (drop n bs) ∷ es)
read_events n es = ([], es)

-- `read(buf, n)`: at most `n` of the bytes that are waiting; the others stay.
unfoldable pub read : ℕ → Port → Bytes × Port
unfolding read_events
read n p = let (bs, es) = read_events n p.input in (bs, record p { input = es })

-- A port with its listener, the object whose `RxHandler` is called.
pub record Device (L : Type 0) : Type 0 where
  pub port : Port
  pub self : L

-- `RxHandler`
abbrev pub Handler : Type 0 → Type 0
Handler L = Device L → Run (Bool × Device L)

module _ {L : Type 0} where
  -- One round of the loop of `waitRx`, up to the counter.
  unfoldable pub attempt_on : Handler L → List Event → Device L → Run (Bool × Device L)
  attempt_on handler [] d = done (false, d)
  attempt_on handler (silence ∷ es) d =
      done (false, record d { port = record (d.port) { input = es } })
  attempt_on handler (unplugged ∷ es) d = exited
  attempt_on handler (arrived bs ∷ es) d = handler d

  unfoldable pub attempt : Handler L → Handler L
  unfolding attempt_on
  attempt handler d = attempt_on handler d.port.input d

  -- A round with `left` rounds behind it.
  unfoldable pub rounds : Handler L → ℕ → Handler L
  rounds handler zero d = attempt handler d
  rounds handler (suc left) d = attempt handler d >>= λ (got, d'). elim got [
    | true ↦ done (true, d')
    | false ↦ rounds handler left d'
  ]

  -- `waitRx(intents)`. With no intents the counter would run past the largest `int`.
  unfoldable pub wait_rx : Handler L → ℕ → Handler L
  wait_rx handler zero d = fault
  wait_rx handler (suc left) d = rounds handler left d

  -- `while (!body());` on fuel
  unfoldable pub until : ℕ → Handler L → Device L → Run (Device L)
  until zero body d = running
  until (suc fuel) body d =
      body d >>= λ (got, d'). elim got [ true ↦ done d' | false ↦ until fuel body d' ]
