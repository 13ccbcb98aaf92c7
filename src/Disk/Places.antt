-- ===== src/Disk/Places.antt =====
-- A file's bytes, in the model of the C library, place by place, with zeros behind its end.
use yamashnik.Prelude.{
  ℕ, zero, suc, ◌+◌, ◌-◌, ◌<◌, ◌≤◌, ◌≡◌, refl, ap₂, ◌∙◌, inl, inr, [], ◌∷◌, ◌++◌, Bytes, arith,
  length, take, drop, replicate, get_or, length-append, length-take, length-replicate, ◌⊎◌,
}
use yamashnik.Disk.{write_at}

-- The byte at a place.
abbrev pub at : Bytes → ℕ → ℕ
at bs i = get_or bs i 0

pub at-past : (bs : Bytes) (i : ℕ) → length bs ≤ i → at bs i ≡ 0
at-past [] i h = refl
at-past (b ∷ bs) zero h = absurd (omega arith)
at-past (b ∷ bs) (suc i) h = at-past bs i (omega arith)

at-replicate : (n i : ℕ) → at (replicate n 0) i ≡ 0
at-replicate zero i = refl
at-replicate (suc n) zero = refl
at-replicate (suc n) (suc i) = at-replicate n i

pub at-append_front : (xs ys : Bytes) (i : ℕ) → i < length xs → at (xs ++ ys) i ≡ at xs i
at-append_front [] ys i h = absurd (omega arith)
at-append_front (x ∷ xs) ys zero h = refl
at-append_front (x ∷ xs) ys (suc i) h = at-append_front xs ys i (omega arith)

pub at-append_back :
    (xs ys : Bytes) (i : ℕ) → length xs ≤ i → at (xs ++ ys) i ≡ at ys (i - length xs)
at-append_back [] ys i h = let e : i - 0 ≡ i = omega arith in rw e
at-append_back (x ∷ xs) ys zero h = absurd (omega arith)
at-append_back (x ∷ xs) ys (suc i) h =
    let e : suc i - suc (length xs) ≡ i - length xs = omega arith in
    rw e (at-append_back xs ys i (omega arith))

-- Zeros at the end make no difference.
pub at-zeros : (xs : Bytes) (n i : ℕ) → at (xs ++ replicate n 0) i ≡ at xs i
at-zeros [] n i = at-replicate n i
at-zeros (x ∷ xs) n zero = refl
at-zeros (x ∷ xs) n (suc i) = at-zeros xs n i

pub at-drop : (k i : ℕ) (xs : Bytes) → at (drop k xs) i ≡ at xs (k + i)
at-drop zero i xs = let e : 0 + i ≡ i = omega arith in rw e
at-drop (suc k) i [] = refl
at-drop (suc k) i (x ∷ xs) = let e : suc k + i ≡ suc (k + i) = omega arith in rw e (at-drop k i xs)

pub at-take : (k i : ℕ) (xs : Bytes) → i < k → at (take k xs) i ≡ at xs i
at-take zero i xs h = absurd (omega arith)
at-take (suc k) i [] h = refl
at-take (suc k) zero (x ∷ xs) h = refl
at-take (suc k) (suc i) (x ∷ xs) h = at-take k i xs (omega arith)

-- Lists of one length with the same bytes are equal.
pub same_bytes :
    (xs ys : Bytes)
    → length xs ≡ length ys
    → ((i : ℕ) → i < length xs → at xs i ≡ at ys i)
    → xs ≡ ys
same_bytes [] [] h k = refl
same_bytes [] (y ∷ ys) h k = absurd (omega arith)
same_bytes (x ∷ xs) [] h k = absurd (omega arith)
same_bytes (x ∷ xs) (y ∷ ys) h k =
    ap₂ ◌∷◌ (k 0 (omega arith)) (same_bytes xs ys (omega arith) (λ i lt. k (suc i) (omega arith)))

front_size :
    (offset : ℕ) (content : Bytes)
    → length (take offset (content ++ replicate (offset - length content) 0)) ≡ offset
front_size offset content = omega (
  arith,
  length-take offset (content ++ replicate (offset - length content) 0),
  length-append content (replicate (offset - length content) 0),
  length-replicate {A = ℕ} (offset - length content) 0,
)

-- A write changes the places that it covers, and no other.
pub at-write_at_inside :
    (offset i : ℕ) (bs content : Bytes)
    → offset ≤ i
    → i < offset + length bs
    → at (write_at offset bs content) i ≡ at bs (i - offset)
unfolding write_at
at-write_at_inside offset i bs content lo hi =
    let front = take offset (content ++ replicate (offset - length content) 0) in
    let size : length front ≡ offset = front_size offset content in
    let place : i - length front ≡ i - offset = omega arith in
    at-append_back front _ i (omega arith)
    ∙ rw place (at-append_front bs (drop (offset + length bs) content) (i - offset) (omega arith))

pub at-write_at_outside :
    (offset i : ℕ) (bs content : Bytes)
    → (i < offset) ⊎ (offset + length bs ≤ i)
    → at (write_at offset bs content) i ≡ at content i
unfolding write_at
at-write_at_outside offset i bs content (inl lo) =
    at-append_front (take offset (content ++ replicate (offset - length content) 0)) _ i
      (omega (arith, front_size offset content))
    ∙ at-take offset i (content ++ replicate (offset - length content) 0) lo
    ∙ at-zeros content (offset - length content) i
at-write_at_outside offset i bs content (inr hi) =
    let front = take offset (content ++ replicate (offset - length content) 0) in
    let size : length front ≡ offset = front_size offset content in
    let back : offset + length bs + (i - length front - length bs) ≡ i = omega arith in
    at-append_back front _ i (omega arith)
    ∙ at-append_back bs (drop (offset + length bs) content) (i - length front) (omega arith)
    ∙ at-drop (offset + length bs) (i - length front - length bs) content
    ∙ rw back
