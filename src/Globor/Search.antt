-- ===== src/Globor/Search.antt =====
-- A client's loop over `SearchFirst` and `SearchNext` of sw/spyvspy/dosglob.h.
use yamashnik.Prelude.{
  refl, ℕ, zero, suc, List, [], ◌∷◌, Option, none, some, Bytes, Run, done, ◌>>=◌, if◌then◌else◌,
  length, ◌<◌, ◌≡◌, arith,
}
use yamashnik.Globor.{Globor, match, search_next, search_first, scan, opened, null}

-- The client's loop: ask until there is no answer. `none` is a loop that has run out of fuel.
ask : ℕ → Option Bytes → Globor → Run (Option (List Bytes))
ask fuel none g = done (some [])
ask zero (some name) g = done none
ask (suc fuel) (some name) g = do
  (next, g') ← search_next g
  names ← ask fuel next g'
  done (elim names [ none ↦ none | some ns ↦ some (name ∷ ns) ])

pub session : ℕ → Option (List Bytes) → Bytes → Globor → Run (Option (List Bytes))
session fuel listing pattern g = do (first, g') ← search_first listing pattern g; ask fuel first g'

-- The names that match, in order.
abbrev pub matches : Bytes → List Bytes → List Bytes
matches pattern [] = []
matches pattern (name ∷ names) =
    let rest = matches pattern names in if match pattern name then name ∷ rest else rest

-- What the loop over the directory finds, and what it leaves for the next call.
scan-some :
    (pattern : Bytes) (names : List Bytes) (name : Bytes) (rest : List Bytes)
    → scan pattern names ≡ (some name, rest)
    → (matches pattern names ≡ name ∷ matches pattern rest) × (length rest < length names)
unfolding scan
scan-some pattern [] name rest h = cc
scan-some pattern (n ∷ names) name rest h = ground (arith, scan-some pattern names name rest)

scan-none :
    (pattern : Bytes) (names rest : List Bytes)
    → scan pattern names ≡ (none, rest)
    → matches pattern names ≡ []
unfolding scan
scan-none pattern [] rest h = refl
scan-none pattern (n ∷ names) rest h = ground (arith, scan-none pattern names rest)

abbrev reading : Bytes → List Bytes → Globor
reading pattern names = record { pattern = pattern; dir = opened names }

abbrev Complete : ℕ → Bytes → List Bytes → Type 0
Complete fuel pattern names =
    ask fuel (scan pattern names).0 (reading pattern (scan pattern names).1)
    ≡ done (some (matches pattern names))

ask_step :
    (fuel : ℕ) (pattern : Bytes) (names : List Bytes) (r : Option Bytes × List Bytes)
    → scan pattern names ≡ r
    → length names < suc fuel
    → ((rest : List Bytes) → length rest < fuel → Complete fuel pattern rest)
    → ask (suc fuel) r.0 (reading pattern r.1) ≡ done (some (matches pattern names))
unfolding ask search_next
ask_step fuel pattern names (none, rest) e h ih = rw (scan-none pattern names rest e)
ask_step fuel pattern names (some name, rest) e h ih =
    let (more, fewer) = scan-some pattern names name rest e in rw (ih rest (omega arith), more)

ask_all :
    (fuel : ℕ) (pattern : Bytes) (names : List Bytes)
    → length names < fuel
    → Complete fuel pattern names
ask_all zero pattern names h = absurd (omega arith)
ask_all (suc fuel) pattern names h =
    ask_step fuel pattern names (scan pattern names) refl h
      (λ rest lt. ask_all fuel pattern rest lt)

-- From any earlier state, the loop from `SearchFirst` over `SearchNext` to the first null answer
-- gives the names of an opened directory that match, each once and in the directory's order. A fuel
-- above the number of names is enough, so the loop ends.
pub session_all :
    (fuel : ℕ) (names : List Bytes) (pattern : Bytes) (g : Globor)
    → length names < fuel
    → session fuel (some names) pattern g ≡ done (some (matches pattern names))
unfolding session search_first search_next
session_all fuel names pattern g h = ask_all fuel pattern names h

-- A directory that cannot be opened gives no name.
pub session_unopened :
    (fuel : ℕ) (pattern : Bytes) (g : Globor) → session fuel none pattern g ≡ done (some [])
unfolding session search_first ask
session_unopened fuel pattern g = refl

-- A search can always be started.
pub search_first_done :
    (listing : Option (List Bytes)) (pattern : Bytes) (g : Globor)
    → (r : Option Bytes × Globor) × (search_first listing pattern g ≡ done r)
unfolding search_first search_next
search_first_done none pattern g = ((none, record g { pattern = pattern; dir = null }), refl)
search_first_done (some names) pattern g = (
  ((scan pattern names).0, record g { pattern = pattern; dir = opened (scan pattern names).1 }),
  refl,
)
