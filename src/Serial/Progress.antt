-- ===== src/Serial/Progress.antt =====
-- Loops of sw/spyvspy/serial.cpp that end because each round comes closer to an end.
use yamashnik.Prelude.{ℕ, zero, suc, ◌<◌, ◌≡◌, refl, Bool, true, false, Run, done, ◌>>=◌, arith}
use yamashnik.Serial.{Device, Handler, attempt, rounds, wait_rx, until}

module _ {L : Type 0} (P : ℕ → Device L → Type 0) (Q : Device L → Type 0) where
  -- A success with `Q`, or a failure that is closer than `n` to one.
  pub data Moves (n : ℕ) (m : Run (Bool × Device L)) : Type 0 where
    ends : (d : Device L) → m ≡ done (true, d) → Q d → Moves n m
    goes_on : (k : ℕ) (d : Device L) → k < n → m ≡ done (false, d) → P k d → Moves n m

  closer : {k n : ℕ} {m : Run (Bool × Device L)} → k < n → Moves k m → Moves n m
  closer lt (ends d e q) = ends d e q
  closer lt (goes_on j d lt' e p) = goes_on j d (omega arith) e p

  another_round :
      (n : ℕ) (m : Run (Bool × Device L)) (others : Handler L)
      → ((k : ℕ) (d : Device L) → P k d → Moves k (others d))
      → Moves n m
      → Moves n (m >>= λ (got, d). elim got [ true ↦ done (true, d) | false ↦ others d ])
  another_round n m others ih (ends d e q) = ends d (rw e refl) q
  another_round n m others ih (goes_on k d lt e p) = rw e (closer lt (ih k d p))

  module _ (handler : Handler L)
      (step : (n : ℕ) (d : Device L) → P n d → Moves n (attempt handler d)) where
    rounds-Moves : (left n : ℕ) (d : Device L) → P n d → Moves n (rounds handler left d)
    unfolding rounds
    rounds-Moves zero n d h = step n d h
    rounds-Moves (suc left) n d h =
        another_round n (attempt handler d) (rounds handler left)
          (λ k d' p. rounds-Moves left k d' p) (step n d h)

    pub wait_rx-Moves : (left n : ℕ) (d : Device L) → P n d → Moves n (wait_rx handler (suc left) d)
    unfolding wait_rx
    wait_rx-Moves left n d h = rounds-Moves left n d h

  -- The run of a loop that comes to an end with `Q`.
  abbrev pub Returns : Run (Device L) → Type 0
  Returns m = (d : Device L) × (m ≡ done d) × Q d

  another_body :
      (n : ℕ) (m : Run (Bool × Device L)) (others : Device L → Run (Device L))
      → ((k : ℕ) (d : Device L) → k < n → P k d → Returns (others d))
      → Moves n m
      → Returns (m >>= λ (got, d). elim got [ true ↦ done d | false ↦ others d ])
  another_body n m others ih (ends d e q) = (d, rw e refl, q)
  another_body n m others ih (goes_on k d lt e p) = rw e (ih k d lt p)

  -- More fuel than the distance is enough.
  pub until-Returns :
      (body : Handler L)
      → ((n : ℕ) (d : Device L) → P n d → Moves n (body d))
      → (fuel n : ℕ) (d : Device L) → n < fuel
      → P n d
      → Returns (until fuel body d)
  unfolding until
  until-Returns body step zero n d lt h = absurd (omega arith)
  until-Returns body step (suc fuel) n d lt h =
      another_body n (body d) (until fuel body)
        (λ k d' lt' p. until-Returns body step fuel k d' (omega arith) p) (step n d h)
