-- ===== src/Dirent/Dates.antt =====
-- The packed date and time of `DIRENT` in sw/spyvspy/spydata.h, as MSX-DOS reads them.
use Prim.Native.Nat.{bit_or}
use yamashnik.Prelude.{
  ℕ, ◌+◌, ◌-◌, ◌*◌, ◌/◌, ◌%◌, ◌^◌, ◌<◌, ◌≤◌, ◌≡◌, ◌⊎◌, refl, ap, ap₂, ◌∙◌, some, arith, u16,
  agree_below, agree_below→eq,
}
use yamashnik.Dirent.{Dirent, Tm, pack_date, pack_time, set_date_time}

-- A number above five free bits and a number in them, below 2^16.
or_low5 : (n : ℕ) → n < 2 ^ 16 → bit_or (n / 32 * 32) (n % 32) ≡ n
unfolding agree_below
or_low5 n h = agree_below→eq (λ k. bit_or (k / 32 * 32) (k % 32)) (λ k. k) (2 ^ 16) refl n h

-- The same above nine and above eleven free bits, over the numbers below 2^16.
or_low9 : (n : ℕ) → n < 2 ^ 16 → bit_or (n / 512 * 512) (n % 512) ≡ n
unfolding agree_below
or_low9 n h = agree_below→eq (λ k. bit_or (k / 512 * 512) (k % 512)) (λ k. k) (2 ^ 16) refl n h

or_low11 : (n : ℕ) → n < 2 ^ 16 → bit_or (n / 2048 * 2048) (n % 2048) ≡ n
unfolding agree_below
or_low11 n h = agree_below→eq (λ k. bit_or (k / 2048 * 2048) (k % 2048)) (λ k. k) (2 ^ 16) refl n h

or_fields5 : (q r : ℕ) → q < 2048 → r < 32 → bit_or (q * 32) r ≡ q * 32 + r
or_fields5 q r hq hr =
    let a : q * 32 ≡ (q * 32 + r) / 32 * 32 = omega arith in
    let b : r ≡ (q * 32 + r) % 32 = omega arith in
    ap₂ bit_or a b ∙ or_low5 (q * 32 + r) (omega arith)

or_fields9 : (q r : ℕ) → q < 128 → r < 512 → bit_or (q * 512) r ≡ q * 512 + r
or_fields9 q r hq hr =
    let a : q * 512 ≡ (q * 512 + r) / 512 * 512 = omega arith in
    let b : r ≡ (q * 512 + r) % 512 = omega arith in
    ap₂ bit_or a b ∙ or_low9 (q * 512 + r) (omega arith)

or_fields11 : (q r : ℕ) → q < 32 → r < 2048 → bit_or (q * 2048) r ≡ q * 2048 + r
or_fields11 q r hq hr =
    let a : q * 2048 ≡ (q * 2048 + r) / 2048 * 2048 = omega arith in
    let b : r ≡ (q * 2048 + r) % 2048 = omega arith in
    ap₂ bit_or a b ∙ or_low11 (q * 2048 + r) (omega arith)

pack_date_lem : (y m d : ℕ) → y < 128 → m < 16 → d < 32 → pack_date y m d ≡ y * 512 + m * 32 + d
unfolding pack_date
pack_date_lem y m d hy hm hd =
    let upper : y * 512 + m * 32 ≡ (y * 16 + m) * 32 = omega arith in
    ap u16 (
      ap (λ k. bit_or k d) (or_fields9 y (m * 32) hy (omega arith) ∙ upper)
      ∙ or_fields5 (y * 16 + m) d (omega arith) hd)
    ∙ omega arith

pack_time_lem : (h m s : ℕ) → h < 32 → m < 64 → s < 32 → pack_time h m s ≡ h * 2048 + m * 32 + s
unfolding pack_time
pack_time_lem h m s hh hm hs =
    let upper : h * 2048 + m * 32 ≡ (h * 64 + m) * 32 = omega arith in
    ap u16 (
      ap (λ k. bit_or k s) (or_fields11 h (m * 32) hh (omega arith) ∙ upper)
      ∙ or_fields5 (h * 64 + m) s (omega arith) hs)
    ∙ omega arith

-- A broken-down time as `localtime_r` gives it; a leap second may be 60.
pub record IsTm (t : Tm) : Type 0 where
  pub mon : t.tm_mon < 12
  pub mday : (1 ≤ t.tm_mday) × (t.tm_mday ≤ 31)
  pub hour : t.tm_hour < 24
  pub min : t.tm_min < 60
  pub sec : t.tm_sec ≤ 60

-- For a broken-down time whose fields are in range, of the years 1980 to 2079, the three fields of
-- the packed date are those of the time, and those of the packed time are its hour, minute and half
-- its seconds, except that midnight is stored as one unit past midnight; the packed time is never 0.
pub set_date_time_fields :
    (t : Tm) (d : Dirent)
    → IsTm t
    → 80 ≤ t.tm_year
    → t.tm_year ≤ 179
    → let e = set_date_time (some t) d in
      (e.date / 512 + 1980 ≡ t.tm_year + 1900)
      × (e.date / 32 % 16 ≡ t.tm_mon + 1)
      × (e.date % 32 ≡ t.tm_mday)
      × (e.time / 2048 ≡ t.tm_hour)
      × (e.time / 32 % 64 ≡ t.tm_min)
      × (((e.time % 32 ≡ t.tm_sec / 2) × (1 ≤ e.time))
          ⊎ ((t.tm_hour + t.tm_min + t.tm_sec / 2 ≡ 0) × (e.time ≡ 1)))
unfolding set_date_time
set_date_time_fields t d v lo hi = ground (
  arith,
  pack_date_lem (t.tm_year + 1900 - 1980) (t.tm_mon + 1) t.tm_mday,
  pack_time_lem t.tm_hour t.tm_min (t.tm_sec / 2),
)
