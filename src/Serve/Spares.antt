-- ===== src/Serve/Spares.antt =====
-- Which files the rounds of `Serve` of sw/spyvspy/spy.cpp leave alone.
use yamashnik.Prelude.{
  ℕ, ◌≡◌, ◌≢◌, refl, ap, ◌∙◌, List, [], ◌∷◌, ◌++◌, Bytes, All, length, Run, done, exited, fault,
  running, ◌>>=◌,
}
use yamashnik.Serial.{Event}
use yamashnik.Request.{Request}
use yamashnik.Request.Table.{func_of}
use yamashnik.Response.{emit}
use yamashnik.Disk.{Host}
use yamashnik.Bdos.State.{World, Answer}
use yamashnik.Bdos.Exec.{exec_func}
use yamashnik.Bdos.Changed.{changed, Spares}
use yamashnik.Bdos.Spares.{exec_func-Spares}
use yamashnik.Serve.{Server, serve}
use yamashnik.Serve.Session.{
  Visit, absent, mute, call, stream, IsVisit, requested, Account, account_of, session, Refines,
  polling,
}
use yamashnik.Serve.Refine.{serve-Refines}

-- No call asks for a change of the file.
abbrev pub NamesNot : Bytes → List Visit → Request → Type 0
NamesNot name [] r = Unit
NamesNot name (absent ∷ vs) r = NamesNot name vs r
NamesNot name (mute late b ∷ vs) r = NamesNot name vs r
NamesNot name (call c ∷ vs) r =
    All (λ n. name ≢ n) (changed (func_of (requested c r).func) (requested c r))
    × NamesNot name vs (requested c r)

-- A session that is done has left the file as it was.
abbrev pub Keeps : Bytes → World → Run Account → Type 0
Keeps name w (done a) = a.world.files name ≡ w.files name
Keeps name w m = Unit

abbrev pub ServerKeeps : Bytes → World → Run Server → Type 0
ServerKeeps name w (done s) = s.world.files name ≡ w.files name
ServerKeeps name w m = Unit

module _ (host : Host) (student : ℕ) (name : Bytes) where
  -- A round that is done has left the file, and keeps this request.
  abbrev RoundKeeps : World → Request → Run Account → Type 0
  RoundKeeps w rq (done a) = (a.world.files name ≡ w.files name) × (a.rq ≡ rq)
  RoundKeeps w rq m = Unit

  sent-Keeps :
      (out : Bytes) (rq : Request) (bs : Run Bytes) (w w' : World)
      → w'.files name ≡ w.files name
      → RoundKeeps w rq (bs >>= λ b. done (record { out = out ++ b; rq = rq; world = w' }))
  sent-Keeps out rq (done b) w w' h = (h, refl)
  sent-Keeps out rq exited w w' h = tt
  sent-Keeps out rq fault w w' h = tt
  sent-Keeps out rq running w w' h = tt

  answer-Keeps :
      (out : Bytes) (rq : Request) (m : Answer) (w : World)
      → Spares name w m
      → RoundKeeps w rq (
          m >>= λ (response, w').
          emit response >>= λ b. done (record { out = out ++ b; rq = rq; world = w' }))
  answer-Keeps out rq (done (response, w')) w h = sent-Keeps out rq (emit response) w w' h
  answer-Keeps out rq exited w h = tt
  answer-Keeps out rq fault w h = tt
  answer-Keeps out rq running w h = tt

  -- A first round, and the rounds behind it.
  rounds-Keeps :
      (m : Run Account) (vs : List Visit) (w : World) (rq : Request)
      → RoundKeeps w rq m
      → ((w' : World) → Keeps name w' (session host student vs rq w'))
      → Keeps name w (do
        a ← m
        b ← session host student vs a.rq a.world
        done (record { out = a.out ++ b.out; rq = b.rq; world = b.world }))
  rounds-Keeps (done a) vs w rq (h, e) k =
      joined (session host student vs a.rq a.world) (rw e (k a.world))
    where
      joined :
          (m : Run Account)
          → Keeps name a.world m
          → Keeps name w
              (m >>= λ b. done (record { out = a.out ++ b.out; rq = b.rq; world = b.world }))
      joined (done b) h' = h' ∙ h
      joined exited h' = tt
      joined fault h' = tt
      joined running h' = tt
  rounds-Keeps exited vs w rq h k = tt
  rounds-Keeps fault vs w rq h k = tt
  rounds-Keeps running vs w rq h k = tt

  session-Keeps :
      (vs : List Visit) (r : Request) (w : World)
      → NamesNot name vs r
      → Keeps name w (session host student vs r w)
  session-Keeps [] r w h = refl
  session-Keeps (absent ∷ vs) r w h =
      rounds-Keeps (account_of host student absent r w) vs w r (refl, refl)
        (λ w'. session-Keeps vs r w' h)
  session-Keeps (mute late b ∷ vs) r w h =
      rounds-Keeps (account_of host student (mute late b) r w) vs w r (refl, refl)
        (λ w'. session-Keeps vs r w' h)
  session-Keeps (call c ∷ vs) r w (h, hs) =
      rounds-Keeps (account_of host student (call c) r w) vs w (requested c r)
        (answer-Keeps (polling student) (requested c r) (exec_func host (requested c r) w) w
          (exec_func-Spares host name (requested c r) w h))
        (λ w'. session-Keeps vs (requested c r) w' hs)

  server-Keeps :
      (before : Bytes) (tail : List Event) (m : Run Server) (k : Run Account) (w : World)
      → Refines before tail m k
      → Keeps name w k
      → ServerKeeps name w m
  server-Keeps before tail (done s) (done a) w h e = ap (λ v. v.files name) h.world ∙ e
  server-Keeps before tail (done s) exited w h e = absurd h
  server-Keeps before tail (done s) fault w h e = absurd h
  server-Keeps before tail (done s) running w h e = absurd h
  server-Keeps before tail exited k w h e = tt
  server-Keeps before tail fault k w h e = tt
  server-Keeps before tail running k w h e = tt

-- For visits that keep to the protocol, on a line that brings them one after another, with a receive
-- buffer of 65536 bytes and more fuel than the events of any call: a file that no call asks to write, to
-- create, to delete or to rename, neither from nor to its name, is after these rounds of `Serve` as it was
-- before them, if the rounds come to an end.
pub serve-ServerKeeps :
    (host : Host) (student fuel : ℕ) (name : Bytes) (vs : List Visit) (tail : List Event)
    (s : Server)
    → All (IsVisit fuel) vs
    → length s.line.self.rxbuf ≡ 65536
    → s.line.port.input ≡ stream vs ++ tail
    → NamesNot name vs s.line.self.rq
    → ServerKeeps name s.world (serve host fuel student (length vs) s)
serve-ServerKeeps host student fuel name vs tail s h room input others =
    server-Keeps host student name s.line.port.sent tail (serve host fuel student (length vs) s)
      (session host student vs s.line.self.rq s.world) s.world
      (serve-Refines host student fuel vs tail s h room input)
      (session-Keeps host student name vs s.line.self.rq s.world others)
