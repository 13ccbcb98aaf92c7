-- ===== src/Serial/Wait.antt =====
-- Invariants of the loop of `waitRx` in sw/spyvspy/serial.cpp.
use yamashnik.Prelude.{
  ℕ, zero, suc, Bool, true, false, List, [], ◌∷◌, Run, done, exited, fault, running, ◌>>=◌, ◌≡◌,
  Bytes, refl,
}
use yamashnik.Serial.{
  Event, silence, unplugged, arrived, Device, Handler, attempt_on, attempt, rounds, wait_rx,
}

-- Every normal end of the run satisfies `P`, nothing undefined happens, and the fuel is enough.
abbrev pub Safely {ℓ} : {A : Type ℓ} → (A → Type 0) → Run A → Type 0
Safely P (done a) = P a
Safely P exited = Unit
Safely P fault = ⊥
Safely P running = ⊥

pub Safely->>= {ℓ κ} :
    {A : Type ℓ} {B : Type κ} (P : A → Type 0) (Q : B → Type 0) (m : Run A) (f : A → Run B)
    → Safely P m
    → ((a : A) → P a → Safely Q (f a))
    → Safely Q (m >>= f)
Safely->>= P Q (done a) f h k = k a h
Safely->>= P Q exited f h k = tt
Safely->>= P Q fault f h k = absurd h
Safely->>= P Q running f h k = absurd h

-- A weaker postcondition.
pub Safely-map {ℓ} :
    {A : Type ℓ} {P Q : A → Type 0} (m : Run A) → ((a : A) → P a → Q a) → Safely P m → Safely Q m
Safely-map (done a) k h = k a h
Safely-map exited k h = tt
Safely-map fault k h = absurd h
Safely-map running k h = absurd h

module _ {L : Type 0} (I : Device L → Type 0) (handler : Handler L)
    (silent : (es : List Event) (d : Device L)
      → d.port.input ≡ silence ∷ es
      → I d
      → I (record d { port = record (d.port) { input = es } }))
    (keeps : (bs : Bytes) (es : List Event) (d : Device L)
      → d.port.input ≡ arrived bs ∷ es
      → I d
      → Safely (λ r. I r.1) (handler d)) where
  attempt_on_safe :
      (es : List Event) (d : Device L)
      → d.port.input ≡ es
      → I d
      → Safely (λ r. I r.1) (attempt_on handler es d)
  unfolding attempt_on
  attempt_on_safe [] d e h = h
  attempt_on_safe (silence ∷ es) d e h = silent es d e h
  attempt_on_safe (unplugged ∷ es) d e h = tt
  attempt_on_safe (arrived bs ∷ es) d e h = keeps bs es d e h

  attempt_safe : (d : Device L) → I d → Safely (λ r. I r.1) (attempt handler d)
  unfolding attempt
  attempt_safe d h = attempt_on_safe d.port.input d refl h

  rounds_safe : (left : ℕ) (d : Device L) → I d → Safely (λ r. I r.1) (rounds handler left d)
  unfolding rounds
  rounds_safe zero d h = attempt_safe d h
  rounds_safe (suc left) d h =
      Safely->>= (λ r. I r.1) (λ r. I r.1) (attempt handler d) _ (attempt_safe d h)
        λ (got, d') h'. next got d' h' (rounds_safe left d' h')
    where
      next :
          (got : Bool) (d' : Device L)
          → I d'
          → Safely (λ r. I r.1) (rounds handler left d')
          → Safely
              (λ r. I r.1)
              (elim got [ true ↦ done (true, d') | false ↦ rounds handler left d' ])
      next true d' h' k = h'
      next false d' h' k = k

  -- An invariant of the handler is one of `waitRx`, which also never faults.
  pub wait_rx_safe :
      (left : ℕ) (d : Device L) → I d → Safely (λ r. I r.1) (wait_rx handler (suc left) d)
  unfolding wait_rx
  wait_rx_safe left d h = rounds_safe left d h
