-- ===== src/Serial/Keeps.antt =====
-- What a listener keeps through the loops of `waitRx` in sw/spyvspy/serial.cpp, whatever the line brings.
use yamashnik.Prelude.{ℕ, zero, suc, Bool, true, false, List, [], ◌∷◌, done, Every, Every->>=}
use yamashnik.Serial.{
  Event, silence, unplugged, arrived, Device, Handler, attempt_on, attempt, rounds, wait_rx, until,
}

module _ {L : Type 0} (I : L → Type 0) (handler : Handler L)
    (keeps : (d : Device L) → I d.self → Every (λ r. I r.1.self) (handler d)) where
  attempt_on-Every :
      (es : List Event) (d : Device L)
      → I d.self
      → Every (λ r. I r.1.self) (attempt_on handler es d)
  unfolding attempt_on
  attempt_on-Every [] d h = h
  attempt_on-Every (silence ∷ es) d h = h
  attempt_on-Every (unplugged ∷ es) d h = tt
  attempt_on-Every (arrived bs ∷ es) d h = keeps d h

  rounds-Every :
      (left : ℕ) (d : Device L) → I d.self → Every (λ r. I r.1.self) (rounds handler left d)
  unfolding rounds attempt
  rounds-Every zero d h = attempt_on-Every d.port.input d h
  rounds-Every (suc left) d h =
      Every->>= (λ r. I r.1.self) (λ r. I r.1.self) (attempt handler d) _
        (attempt_on-Every d.port.input d h) (behind (rounds-Every left))
    where
      behind :
          ((d' : Device L) → I d'.self → Every (λ r. I r.1.self) (rounds handler left d'))
          → (r : Bool × Device L) → I r.1.self
          → Every
              (λ r. I r.1.self)
              (elim r.0 [ true ↦ done (true, r.1) | false ↦ rounds handler left r.1 ])
      behind ih (true, d') k = k
      behind ih (false, d') k = ih d' k

  pub wait_rx-Every :
      (intents : ℕ) (d : Device L) → I d.self → Every (λ r. I r.1.self) (wait_rx handler intents d)
  unfolding wait_rx
  wait_rx-Every zero d h = tt
  wait_rx-Every (suc left) d h = rounds-Every left d h

  pub until-Every :
      (fuel : ℕ) (d : Device L) → I d.self → Every (λ d'. I d'.self) (until fuel handler d)
  unfolding until
  until-Every zero d h = tt
  until-Every (suc fuel) d h =
      Every->>= (λ r. I r.1.self) (λ d'. I d'.self) (handler d) _ (keeps d h)
        (behind (until-Every fuel))
    where
      behind :
          ((d' : Device L) → I d'.self → Every (λ d2. I d2.self) (until fuel handler d'))
          → (r : Bool × Device L) → I r.1.self
          → Every (λ d2. I d2.self) (elim r.0 [ true ↦ done r.1 | false ↦ until fuel handler r.1 ])
      behind ih (true, d') k = k
      behind ih (false, d') k = ih d' k
