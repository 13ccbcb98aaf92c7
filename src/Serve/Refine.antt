-- ===== src/Serve/Refine.antt =====
-- `Serve` of sw/spyvspy/spy.cpp against its account.
use yamashnik.Prelude.{
  ℕ, ◌≡◌, refl, sym, ap, ◌∙◌, List, [], ◌∷◌, ◌++◌, Bytes, All, arith, length, append_assoc,
  append-nil, Run, done, exited, fault, running, ◌>>=◌,
}
use yamashnik.Serial.{Device, Event, arrived}
use yamashnik.Serial.Silence.{silences}
use yamashnik.Request.{Request, set_func}
use yamashnik.Response.{Response, emit}
use yamashnik.Disk.{Host}
use yamashnik.Bdos.State.{World}
use yamashnik.Bdos.Exec.{exec_func}
use yamashnik.Transport.{Transport, transmit_response}
use yamashnik.Transport.Receive.{Whole}
use yamashnik.Transport.Poll.{
  poll_student-answered, poll_student-ignored, receive_request-Whole, receive_request-silent,
  polled,
}
use yamashnik.Sender.Receive.{length-splice}
use yamashnik.Serve.{Server, answer, serve_round, serve}
use yamashnik.Serve.Session.{
  Call, Visit, absent, mute, call, events, stream, IsVisit, requested, Account, account_of, session,
  Agrees, Refines, polling,
}
use mathlib.Core.Path.{subst}

-- The end of a round, and of its account.
module _ (host : Host) (student : ℕ) where
  answer-Refines :
      (before : Bytes) (c : Call) (r : Request) (w : World) (tail : List Event)
      (d : Device Transport)
      → Whole c.fields (set_func c.code r) tail (before ++ polling student) d
      → Refines before tail
          (answer host (record { line = d; world = w }))
          (account_of host student (call c) r w)
  unfolding answer transmit_response
  answer-Refines before c r w tail d h =
      subst
        (λ q.
          Refines before tail
            (exec_func host q w >>= λ (response, w').
              transmit_response response d >>= λ line. done (record { line = line; world = w' }))
            (account_of host student (call c) r w))
        (sym h.rq) (executed (exec_func host (requested c r) w))
    where
      sent :
          (bs : Run Bytes) (w' : World)
          → Refines before tail
              (bs
                >>= (λ b. done (record d { port = record (d.port) { sent = d.port.sent ++ b } }))
                >>= λ line. done (record { line = line; world = w' }))
              (bs >>= λ b.
                done (record { out = polling student ++ b; rq = requested c r; world = w' }))
      sent (done b) w' = record {
        out = ap (λ t. t ++ b) h.written ∙ append_assoc before (polling student) b;
        input = h.input;
        rq = h.rq;
        world = refl;
        room = h.room;
      }
      sent exited w' = tt
      sent fault w' = tt
      sent running w' = tt

      executed :
          (m : Run (Response × World))
          → Refines before tail
              (m >>= λ (response, w').
                transmit_response response d >>= λ line. done (record { line = line; world = w' }))
              (m >>= λ (response, w'). emit response >>= λ bs.
                done (record { out = polling student ++ bs; rq = requested c r; world = w' }))
      executed (done (response, w')) = unfold transmit_response in sent (emit response) w'
      executed exited = tt
      executed fault = tt
      executed running = tt

  round-Refines :
      (fuel : ℕ) (v : Visit) (tail : List Event) (s : Server)
      → IsVisit fuel v
      → length s.line.self.rxbuf ≡ 65536
      → s.line.port.input ≡ events v ++ tail
      → Refines s.line.port.sent tail
          (serve_round host fuel student s)
          (account_of host student v s.line.self.rq s.world)
  unfolding serve_round
  round-Refines fuel absent tail s h room input =
      rw (poll_student-ignored student tail s.line input)
        (record { out = refl; input = refl; rq = refl; world = refl; room = room })
  round-Refines fuel (mute late b) tail s (in_time, answers) room input =
      rw
        (
          poll_student-answered student late b (silences 10 ++ tail) s.line in_time answers
              (omega (arith, room))
              (input ∙ append_assoc (silences late) (arrived (b ∷ []) ∷ silences 10) tail),
          receive_request-silent fuel tail (polled student b (silences 10 ++ tail) s.line) refl,
        )
        (record {
          out = refl;
          input = refl;
          rq = refl;
          world = refl;
          room = length-splice s.line.self.rxbuf (b ∷ []) 0 (omega (arith, room)) ∙ room;
        })
  round-Refines fuel (call c) tail s h room input =
      let behind : List Event = silences c.slow ++ (arrived (c.code ∷ []) ∷ (c.pieces ++ tail)) in
      let order : s.line.port.input ≡ silences c.late ++ (arrived (c.answer ∷ []) ∷ behind) =
        input
        ∙ append_assoc (silences c.late) _ tail
        ∙ ap (λ t. silences c.late ++ (arrived (c.answer ∷ []) ∷ t))
            (append_assoc (silences c.slow) (arrived (c.code ∷ []) ∷ c.pieces) tail) in
      let line = polled student c.answer behind s.line in
      let (d, e, whole) =
        receive_request-Whole fuel c.slow c.code c.fields c.pieces tail line h.on_time h.known
          h.valid h.small h.enough
          (length-splice s.line.self.rxbuf (c.answer ∷ []) 0 (omega (arith, room)) ∙ room) refl
          h.brought in
      rw
        (
          poll_student-answered student c.late c.answer behind s.line h.in_time h.answers
              (omega (arith, room)) order,
          e,
        )
        (answer-Refines s.line.port.sent c s.line.self.rq s.world tail d whole)

-- A round and the rounds behind it.
rounds-Refines :
    (before : Bytes) (tail rest : List Event) (m : Run Server) (k : Run Account)
    (others : Server → Run Server) (accounts : Account → Run Account)
    → ((s : Server) (a : Account)
        → Agrees before rest s a
        → Refines s.line.port.sent tail (others s) (accounts a))
    → Refines before rest m k
    → Refines before tail (m >>= others) (do
      a ← k
      b ← accounts a
      done (record { out = a.out ++ b.out; rq = b.rq; world = b.world }))
rounds-Refines before tail rest (done s) (done a) others accounts ih h =
    joined (others s) (accounts a) (ih s a h)
  where
    joined :
        (m : Run Server) (k : Run Account)
        → Refines s.line.port.sent tail m k
        → Refines before tail m
            (k >>= λ b. done (record { out = a.out ++ b.out; rq = b.rq; world = b.world }))
    joined (done s') (done b) h' = record {
      out = h'.out ∙ ap (λ t. t ++ b.out) h.out ∙ append_assoc before a.out b.out;
      input = h'.input;
      rq = h'.rq;
      world = h'.world;
      room = h'.room;
    }
    joined exited exited h' = tt
    joined fault fault h' = tt
    joined running running h' = tt
    joined m k h' = absurd h'
rounds-Refines before tail rest exited exited others accounts ih h = tt
rounds-Refines before tail rest fault fault others accounts ih h = tt
rounds-Refines before tail rest running running others accounts ih h = tt
rounds-Refines before tail rest m k others accounts ih h = absurd h

-- For visits that keep to the protocol, on a line that brings them one after another, with a receive
-- buffer of 65536 bytes and more fuel than the events of any call: as many rounds of `Serve` as there
-- are visits end as the account of the visits ends. Where the account is done, `Serve` is, and it has sent
-- exactly what the account sends, keeps its request and its world, and has read the visits and no more;
-- where the account ends the program or is undefined, `Serve` does and is too.
pub serve-Refines :
    (host : Host) (student fuel : ℕ) (vs : List Visit) (tail : List Event) (s : Server)
    → All (IsVisit fuel) vs
    → length s.line.self.rxbuf ≡ 65536
    → s.line.port.input ≡ stream vs ++ tail
    → Refines s.line.port.sent tail
        (serve host fuel student (length vs) s)
        (session host student vs s.line.self.rq s.world)
unfolding serve
serve-Refines host student fuel [] tail s h room input = record {
  out = sym (append-nil s.line.port.sent);
  input = input;
  rq = refl;
  world = refl;
  room = room;
}
serve-Refines host student fuel (v ∷ vs) tail s h room input =
    rounds-Refines s.line.port.sent tail (stream vs ++ tail) (serve_round host fuel student s)
      (account_of host student v s.line.self.rq s.world) (serve host fuel student (length vs))
      (λ a. session host student vs a.rq a.world)
      (λ s' a k.
        rw⁻¹ (k.rq, k.world) (serve-Refines host student fuel vs tail s' h.1 k.room k.input))
      (round-Refines host student fuel v (stream vs ++ tail) s h.0 room
        (input ∙ append_assoc (events v) (stream vs) tail))
