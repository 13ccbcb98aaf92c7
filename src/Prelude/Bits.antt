-- ===== src/Prelude/Bits.antt =====
-- The masks and joins of bits that the program uses, as arithmetic: tables checked by evaluation.
use Prim.Native.Nat.{ℕ, zero, suc, ◌+◌, ◌*◌, ◌/◌, ◌%◌, ◌^◌, ◌<◌, bit_and, bit_or}
use mathlib.Core.Path.{◌≡◌, refl, ◌∙◌, ap₂}
use mathlib.Core.Bool.{Bool, true, false}
use mathlib.Core.Logic.{ite}
use native.Mathlib.Decide.{ℕ_discrete}
use native.Mathlib.Omega.{arith}

module _ (f g : ℕ → ℕ) where
  unfoldable pub agree_below : ℕ → Bool
  unfolding ℕ_discrete
  agree_below zero = true
  agree_below (suc n) = ite (ℕ_discrete (f n) (g n)) (agree_below n) false

  pub agree_below→eq : (n : ℕ) → agree_below n ≡ true → (i : ℕ) → i < n → f i ≡ g i
  unfolding agree_below
  agree_below→eq zero e i h = absurd (omega arith)
  agree_below→eq (suc n) e i h = ground (arith, agree_below→eq n (ground arith) i)

pub top_bit : (b : ℕ) → b < 256 → bit_and b 128 / 2 ^ 7 ≡ b / 128
unfolding agree_below
top_bit = agree_below→eq _ _ 256 refl

pub low_bits : (b : ℕ) → b < 256 → bit_and b 127 ≡ b % 128
unfolding agree_below
low_bits = agree_below→eq _ _ 256 refl

pub low_byte : (w : ℕ) → w < 2 ^ 16 → bit_and w 255 ≡ w % 256
unfolding agree_below
low_byte = agree_below→eq _ _ (2 ^ 16) refl

-- `hi << 8 | lo` for two bytes.
pub or_bytes : (hi lo : ℕ) → hi < 256 → lo < 256 → bit_or (hi * 2 ^ 8) lo ≡ hi * 256 + lo
unfolding agree_below
or_bytes hi lo h l =
    let hi_of : hi * 2 ^ 8 ≡ (hi * 256 + lo) / 256 * 2 ^ 8 = omega arith in
    let lo_of : lo ≡ (hi * 256 + lo) % 256 = omega arith in
    ap₂ bit_or hi_of lo_of
    ∙ agree_below→eq (λ n. bit_or (n / 256 * 2 ^ 8) (n % 256)) (λ n. n) (2 ^ 16) refl
        (hi * 256 + lo) (omega arith)

-- `lo | hi << 8`, the other way round.
pub or_bytes_low : (hi lo : ℕ) → hi < 256 → lo < 256 → bit_or lo (hi * 2 ^ 8) ≡ hi * 256 + lo
unfolding agree_below
or_bytes_low hi lo h l =
    let hi_of : hi * 2 ^ 8 ≡ (hi * 256 + lo) / 256 * 2 ^ 8 = omega arith in
    let lo_of : lo ≡ (hi * 256 + lo) % 256 = omega arith in
    ap₂ bit_or lo_of hi_of
    ∙ agree_below→eq (λ n. bit_or (n % 256) (n / 256 * 2 ^ 8)) (λ n. n) (2 ^ 16) refl
        (hi * 256 + lo) (omega arith)
