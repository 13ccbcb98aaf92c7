-- ===== src/Globor/Marks.antt =====
-- The pattern of eleven question marks in the search of sw/spyvspy/dosglob.h.
use yamashnik.Prelude.{
  ℕ, zero, suc, ◌≡◌, refl, true, false, not, ◌&&◌, Bool, List, [], ◌∷◌, none, some, Bytes,
  if◌then◌else◌, length, replicate, arith, Option-cases, inl, inr,
}
use yamashnik.Util.{dosname}
use yamashnik.Util.Shape.{length-dosname}
use yamashnik.Globor.{equal, matched, match}
use yamashnik.Globor.Search.{matches}

-- A name with an 8.3 form, but for the two dot entries.
abbrev pub is_dos : Bytes → Bool
is_dos name =
    not (equal name (b'.' ∷ []))
    && (not (equal name (b'.' ∷ b'.' ∷ [])) && elim (dosname name) [ none ↦ false | some _ ↦ true ])

abbrev pub dos_names : List Bytes → List Bytes
dos_names [] = []
dos_names (name ∷ names) = let rest = dos_names names in if is_dos name then name ∷ rest else rest

matched-marks : (n : ℕ) (name : Bytes) → length name ≡ n → matched (replicate n b'?') name ≡ n
unfolding matched
matched-marks zero name h = refl
matched-marks (suc n) [] h = absurd (omega arith)
matched-marks (suc n) (c ∷ name) h = ground (arith, matched-marks n name (omega arith))

match-marks : (name : Bytes) → match (replicate 11 b'?') name ≡ is_dos name
unfolding match
match-marks name = elim (Option-cases (dosname name)) [
  | inl refused ↦ ground (arith, refused)
  | inr (form, known) ↦
      ground (arith, known, matched-marks 11 form (length-dosname name form known))
]

pub matches-marks : (names : List Bytes) → matches (replicate 11 b'?') names ≡ dos_names names
matches-marks [] = refl
matches-marks (name ∷ names) = rw (match-marks name, matches-marks names)
