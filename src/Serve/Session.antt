-- ===== src/Serve/Session.antt =====
-- What `Serve` of sw/spyvspy/spy.cpp promises to the workstations: an account of its rounds without the
-- transport, its buffer and the pieces that bytes come in.
use yamashnik.Prelude.{
  ℕ, ◌≤◌, ◌<◌, ◌≡◌, List, [], ◌∷◌, ◌++◌, Bytes, All, map, length, Run, done, exited, fault, running,
  ◌>>=◌, u8,
}
use yamashnik.Serial.{Event, arrived}
use yamashnik.Serial.Silence.{silences}
use yamashnik.Request.{Request, expect, set_func}
use yamashnik.Request.Message.{Field, IsField, message, token, accept_all}
use yamashnik.Request.Table.{func_of, pattern_of}
use yamashnik.Response.{emit}
use yamashnik.Disk.{Host}
use yamashnik.Bdos.State.{World}
use yamashnik.Bdos.Exec.{exec_func}
use yamashnik.Transport.Poll.{IsAnswer, Brings}
use yamashnik.Serve.{Server}

-- A workstation's call: how often it is silent before its answer and before its function code, the
-- answer, the code, and the data with the events that bring them.
pub record Call : Type 0 where
  pub late : ℕ
  pub answer : ℕ
  pub slow : ℕ
  pub code : ℕ
  pub fields : List Field
  pub pieces : List Event

-- What a workstation does in one round of the loop: nothing, an answer to the poll alone, or a call.
pub data Visit : Type 0 where
  absent : Visit
  mute : ℕ → ℕ → Visit
  call : Call → Visit

abbrev pub events : Visit → List Event
events absent = silences 10
events (mute late b) = silences late ++ (arrived (b ∷ []) ∷ silences 10)
events (call c) =
    silences c.late
    ++ (arrived (c.answer ∷ []) ∷ (silences c.slow ++ (arrived (c.code ∷ []) ∷ c.pieces)))

abbrev pub stream : List Visit → List Event
stream [] = []
stream (v ∷ vs) = events v ++ stream vs

-- A call for a function's own data, in time, in fewer events than the fuel.
pub record IsCall (fuel : ℕ) (c : Call) : Type 0 where
  pub in_time : c.late < 10
  pub answers : IsAnswer c.answer
  pub on_time : c.slow < 10
  pub known : pattern_of (func_of c.code) ≡ map token c.fields
  pub valid : All IsField c.fields
  pub small : length (message c.fields) ≤ 65536
  pub enough : length c.pieces < fuel
  pub brought : Brings c.pieces c.fields

abbrev pub IsVisit : ℕ → Visit → Type 0
IsVisit fuel absent = Unit
IsVisit fuel (mute late b) = (late < 10) × IsAnswer b
IsVisit fuel (call c) = IsCall fuel c

-- The request that a call makes of the one before it.
abbrev pub requested : Call → Request → Request
requested c r = accept_all c.fields (expect (map token c.fields) (set_func c.code r))

-- What the rounds send, the request that is kept, and the world.
pub record Account : Type 0 where
  pub out : Bytes
  pub rq : Request
  pub world : World

abbrev pub polling : ℕ → Bytes
polling student = u8 student ∷ 0xF4 ∷ []

module _ (host : Host) (student : ℕ) where
  -- A call is carried out by `ExecFunc`, and its response sent.
  abbrev pub account_of : Visit → Request → World → Run Account
  account_of absent r w = done (record { out = polling student; rq = r; world = w })
  account_of (mute late b) r w = done (record { out = polling student; rq = r; world = w })
  account_of (call c) r w = do
    (response, w') ← exec_func host (requested c r) w
    bs ← emit response
    done (record { out = polling student ++ bs; rq = requested c r; world = w' })

  abbrev pub session : List Visit → Request → World → Run Account
  session [] r w = done (record { out = []; rq = r; world = w })
  session (v ∷ vs) r w = do
    a ← account_of v r w
    b ← session vs a.rq a.world
    done (record { out = a.out ++ b.out; rq = b.rq; world = b.world })

-- The server, which had sent `before`, agrees with the account.
pub record Agrees (before : Bytes) (tail : List Event) (s : Server) (a : Account) : Type 0 where
  pub out : s.line.port.sent ≡ before ++ a.out
  pub input : s.line.port.input ≡ tail
  pub rq : s.line.self.rq ≡ a.rq
  pub world : s.world ≡ a.world
  pub room : length s.line.self.rxbuf ≡ 65536

-- Both end the same way, and where they are done they agree.
abbrev pub Refines : Bytes → List Event → Run Server → Run Account → Type 0
Refines before tail (done s) (done a) = Agrees before tail s a
Refines before tail exited exited = Unit
Refines before tail fault fault = Unit
Refines before tail running running = Unit
Refines before tail m k = ⊥
