-- ===== src/Globor/Match.antt =====
-- `match` of sw/spyvspy/dosglob.h against a description of what a pattern fits.
use yamashnik.Prelude.{
  ◌≡◌, ◌≢◌, ◌⊎◌, ◌↔◌, inl, inr, refl, sym, ◌∙◌, true, [], ◌∷◌, some, Bytes, arith, length,
  Option-cases,
}
use yamashnik.Util.{dosname}
use yamashnik.Util.Shape.{length-dosname}
use yamashnik.Globor.{equal, matched, match}

-- A place of the pattern is the byte of the name, or a question mark.
abbrev pub Fits : Bytes → Bytes → Type 0
Fits [] [] = Unit
Fits (p ∷ ps) (c ∷ cs) = ((p ≡ c) ⊎ (p ≡ b'?')) × Fits ps cs
Fits ps cs = ⊥

pub equal_iff : (xs ys : Bytes) → (equal xs ys ≡ true) ↔ (xs ≡ ys)
unfolding equal
equal_iff [] [] = (λ h. refl, λ h. refl)
equal_iff [] (y ∷ ys) = (λ h. cc, λ h. cc)
equal_iff (x ∷ xs) [] = (λ h. cc, λ h. cc)
equal_iff (x ∷ xs) (y ∷ ys) = ground (arith, equal_iff xs ys)

matched-length : (ps cs : Bytes) → length ps ≡ length cs → (matched ps cs ≡ length ps) ↔ Fits ps cs
unfolding matched
matched-length [] [] h = (λ e. tt, λ f. refl)
matched-length [] (c ∷ cs) h = absurd (omega arith)
matched-length (p ∷ ps) [] h = absurd (omega arith)
matched-length (p ∷ ps) (c ∷ cs) h = ground (arith, matched-length ps cs (omega arith))

-- Under a pattern of eleven bytes a name matches exactly when it is neither `.` nor `..`, has an
-- 8.3 form, and that form fits the pattern.
pub match_iff :
    (pattern fname : Bytes)
    → length pattern ≡ 11
    → (match pattern fname ≡ true) ↔ (
        (fname ≢ b'.' ∷ [])
        × (fname ≢ b'.' ∷ b'.' ∷ [])
        × ((name : Bytes) × (dosname fname ≡ some name) × Fits pattern name))
unfolding match
match_iff pattern fname h = elim (Option-cases (dosname fname)) [
  | inl refused ↦
      (λ m. ground (arith, refused), λ (one, two, (name, known, fit)). ground (arith, refused))
  | inr (name, known) ↦
      let fits : (matched pattern name ≡ length pattern) ↔ Fits pattern name =
        matched-length pattern name (h ∙ sym (length-dosname fname name known)) in
      (
        λ m. (
          λ e. ground (arith, one, m),
          λ e. ground (arith, two, m),
          (name, known, fits.0 (ground (arith, one, two))),
        ),
        λ (ne, ne2, (other, known', fit)). ground (arith, one, two, fits),
      )
]
  where
    one : (equal fname (b'.' ∷ []) ≡ true) ↔ (fname ≡ b'.' ∷ [])
    one = equal_iff fname (b'.' ∷ [])

    two : (equal fname (b'.' ∷ b'.' ∷ []) ≡ true) ↔ (fname ≡ b'.' ∷ b'.' ∷ [])
    two = equal_iff fname (b'.' ∷ b'.' ∷ [])
