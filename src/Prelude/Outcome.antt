-- ===== src/Prelude/Outcome.antt =====
-- The outcome of running C code: a result, a call of `exit`, undefined behaviour, or none yet.
use mathlib.Core.Path.{◌≡◌, refl}

pub data Run {ℓ} (A : Type ℓ) : Type ℓ where
  done : A → Run A
  -- `eggog` prints a message and calls `exit(1)`.
  exited : Run A
  -- Undefined behaviour: a null or uninitialised pointer is used.
  fault : Run A
  -- A loop has used up its fuel.
  running : Run A

infixl 5 ◌>>=◌
abbrev pub ◌>>=◌ {ℓ κ} : {A : Type ℓ} {B : Type κ} → Run A → (A → Run B) → Run B
done a >>= f = f a
exited >>= f = exited
fault >>= f = fault
running >>= f = running

-- Inversion of a successful step.
pub >>=-eq-done {ℓ κ} :
    {A : Type ℓ} {B : Type κ} (m : Run A) (f : A → Run B) {b : B}
    → (m >>= f) ≡ done b
    → (a : A) × (m ≡ done a) × (f a ≡ done b)
>>=-eq-done (done a) f h = (a, refl, h)
>>=-eq-done exited f h = cc
>>=-eq-done fault f h = cc
>>=-eq-done running f h = cc

-- Every result that there is has the property.
abbrev pub Every {ℓ κ} : {A : Type ℓ} → (A → Type κ) → Run A → Type κ
Every P (done a) = P a
Every P exited = Unit
Every P fault = Unit
Every P running = Unit

pub >>=-Every {ℓ κ ι} :
    {A : Type ℓ} {B : Type κ} (P : B → Type ι) (m : Run A) (f : A → Run B)
    → ((a : A) → Every P (f a))
    → Every P (m >>= f)
>>=-Every P (done a) f h = h a
>>=-Every P exited f h = tt
>>=-Every P fault f h = tt
>>=-Every P running f h = tt

-- What follows a step matters only at its results.
pub >>=-ext {ℓ κ ι} :
    {A : Type ℓ} {B : Type κ} (P : A → Type ι) (m : Run A) (f g : A → Run B)
    → Every P m
    → ((a : A) → P a → f a ≡ g a)
    → (m >>= f) ≡ (m >>= g)
>>=-ext P (done a) f g e h = h a e
>>=-ext P exited f g e h = refl
>>=-ext P fault f g e h = refl
>>=-ext P running f g e h = refl

-- A property of the results of a step, used in what follows.
pub Every->>= {ℓ κ ι υ} :
    {A : Type ℓ} {B : Type κ} (P : A → Type ι) (Q : B → Type υ) (m : Run A) (f : A → Run B)
    → Every P m
    → ((a : A) → P a → Every Q (f a))
    → Every Q (m >>= f)
Every->>= P Q (done a) f e h = h a e
Every->>= P Q exited f e h = tt
Every->>= P Q fault f e h = tt
Every->>= P Q running f e h = tt
