-- ===== src/Fcb/Extent.antt =====
-- Extents and record sizes of `FCB` in sw/spyvspy/spydata.h as numbers.
use yamashnik.Prelude.{
  or_bytes, low_byte, ℕ, ◌+◌, ◌*◌, ◌/◌, ◌%◌, ◌^◌, ◌<◌, ◌≡◌, arith, u16, ◌∙◌, ap,
}
use yamashnik.Fcb.{Fcb, record_size, get_extent, set_extent}

pub get_extent_lem :
    (f : Fcb)
    → f.extent_lo < 256
    → f.extent_hi < 256
    → get_extent f ≡ f.extent_hi * 256 + f.extent_lo
unfolding get_extent
get_extent_lem f l h = or_bytes f.extent_hi f.extent_lo h l

pub record_size_lem :
    (f : Fcb)
    → f.record_size_lo < 256
    → f.record_size_hi < 256
    → record_size f ≡ f.record_size_hi * 256 + f.record_size_lo
unfolding record_size
record_size_lem f l h = or_bytes f.record_size_hi f.record_size_lo h l

pub set_extent_lem :
    (e : ℕ) (f : Fcb)
    → e < 65536
    → set_extent e f ≡ record f { extent_lo = e % 256; extent_hi = e / 256 }
unfolding set_extent
set_extent_lem e f h =
    let small : u16 e ≡ e = omega arith in
    let high : e / 2 ^ 8 % 256 ≡ e / 256 = omega arith in
    rw (small, low_byte e h, low_byte (e / 2 ^ 8) (omega arith))
      (ap (λ k. record f { extent_lo = e % 256; extent_hi = k }) high)

-- An extent below 65536 that was set in a block is read back from it.
pub get_extent-set_extent : (e : ℕ) (f : Fcb) → e < 65536 → get_extent (set_extent e f) ≡ e
get_extent-set_extent e f h =
    rw (set_extent_lem e f h) (get_extent_lem _ (omega arith) (omega arith) ∙ omega arith)
