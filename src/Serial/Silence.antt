-- ===== src/Serial/Silence.antt =====
-- `waitRx` of sw/spyvspy/serial.cpp on a line that is silent for some rounds.
use yamashnik.Prelude.{
  ℕ, zero, suc, ◌+◌, ◌≤◌, ◌≡◌, refl, ap, ◌∙◌, true, false, List, ◌∷◌, ◌++◌, done, arith, replicate,
  ◌-◌, ap₂,
}
use yamashnik.Serial.{
  Device, Handler, Event, silence, arrived, attempt, attempt_on, rounds, wait_rx,
}

abbrev pub silences : ℕ → List Event
silences n = replicate n silence

-- The device when its input has been read up to `es`.
abbrev pub heard : {L : Type 0} → List Event → Device L → Device L
heard es d = record d { port = record (d.port) { input = es } }

module _ {L : Type 0} (handler : Handler L) (es : List Event) where
  pub attempt-arrived :
      (d : Device L) (bs : List ℕ) → d.port.input ≡ arrived bs ∷ es → attempt handler d ≡ handler d
  unfolding attempt attempt_on
  attempt-arrived d bs e = ap (λ i. attempt_on handler i d) e

  pub attempt-silence :
      (d : Device L) → d.port.input ≡ silence ∷ es → attempt handler d ≡ done (false, heard es d)
  unfolding attempt attempt_on
  attempt-silence d e = ap (λ i. attempt_on handler i d) e

module _ {L : Type 0} (handler : Handler L) (es : List Event) where
  -- Each silent round takes one off the counter.
  rounds-silences :
      (n left : ℕ) (d : Device L)
      → d.port.input ≡ silences n ++ es
      → rounds handler (n + left) d ≡ rounds handler left (heard es d)
  unfolding rounds
  rounds-silences zero left d e = ap₂ (rounds handler) (omega arith) (ap (λ i. heard i d) e)
  rounds-silences (suc n) left d e =
      ap (λ k. rounds handler k d) count
      ∙ rw (attempt-silence handler (silences n ++ es) d e)
          (rounds-silences n left (heard (silences n ++ es) d) refl)
    where
      count : suc n + left ≡ suc (n + left)
      count = omega arith

module _ {L : Type 0} (handler : Handler L) where
  rounds-true :
      (left : ℕ) (d d' : Device L)
      → attempt handler d ≡ done (true, d')
      → rounds handler left d ≡ done (true, d')
  unfolding rounds
  rounds-true zero d d' e = e
  rounds-true (suc left) d d' e = rw e refl

module _ {L : Type 0} (handler : Handler L) (es : List Event) where
  -- A success after fewer silent rounds than the counter allows.
  pub wait_rx-heard :
      (n left : ℕ) (d d' : Device L)
      → n ≤ left
      → d.port.input ≡ silences n ++ es
      → attempt handler (heard es d) ≡ done (true, d')
      → wait_rx handler (suc left) d ≡ done (true, d')
  unfolding wait_rx
  wait_rx-heard n left d d' le e k =
      ap (λ m. rounds handler m d) count
      ∙ rounds-silences handler es n (left - n) d e
      ∙ rounds-true handler (left - n) (heard es d) d' k
    where
      count : left ≡ n + (left - n)
      count = omega arith

  -- Nothing but silence, for as many rounds as are waited.
  pub wait_rx-silent :
      (left : ℕ) (d : Device L)
      → d.port.input ≡ silences (suc left) ++ es
      → wait_rx handler (suc left) d ≡ done (false, heard es d)
  unfolding wait_rx rounds
  wait_rx-silent left d e =
      ap (λ k. rounds handler k d) count
      ∙ rounds-silences handler (silence ∷ es) left 0 d (e ∙ one_more left)
      ∙ attempt-silence handler es (heard (silence ∷ es) d) refl
    where
      count : left ≡ left + 0
      count = omega arith

      one_more : (n : ℕ) → silences (suc n) ++ es ≡ silences n ++ (silence ∷ es)
      one_more zero = refl
      one_more (suc n) = ap (λ t. silence ∷ t) (one_more n)
