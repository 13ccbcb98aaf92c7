-- ===== src/Bdos/Position.antt =====
-- The sequential position of a block in sw/spyvspy/spybdos.h as one number: the record counted from
-- the start of the file.
use yamashnik.Prelude.{
  ℕ, ◌+◌, ◌*◌, ◌/◌, ◌%◌, ◌<◌, ◌≡◌, refl, ap, ◌∙◌, arith, u8, ◌==◌, Bool-cases, inl, inr, ==_iff,
}
use yamashnik.Fcb.{Fcb, get_extent, set_extent}
use yamashnik.Fcb.Extent.{get_extent_lem, set_extent_lem}
use yamashnik.Bdos.State.{sequential_offset, advance}

-- The extent's bytes are bytes and the record lies in its extent, which holds 128.
pub record IsPlaced (f : Fcb) : Type 0 where
  pub lo : f.extent_lo < 256
  pub hi : f.extent_hi < 256
  pub current : f.current_record < 128

abbrev pub position : Fcb → ℕ
position f = (f.extent_hi * 256 + f.extent_lo) * 128 + f.current_record

pub sequential_offset_lem : (f : Fcb) → IsPlaced f → sequential_offset f ≡ 128 * position f
unfolding sequential_offset
sequential_offset_lem f h = omega (arith, h, get_extent_lem f h.lo h.hi)

-- What `advance` does to a block in terms of its position.
pub record IsNext (f g : Fcb) : Type 0 where
  pub placed : IsPlaced g
  pub moved : position g ≡ position f + 1
  pub size : g.file_size ≡ f.file_size
  pub name : g.name_ext ≡ f.name_ext

next_record : Fcb → Fcb
next_record f = record f { current_record = u8 (f.current_record + 1) }

advance_inside : (f : Fcb) → f.current_record < 127 → advance f ≡ next_record f
unfolding advance next_record
advance_inside f h = ground arith

advance_wrap :
    (f : Fcb)
    → f.current_record ≡ 127
    → advance f ≡ set_extent (get_extent (next_record f) + 1) (record f { current_record = 0 })
unfolding advance next_record
advance_wrap f h = ground arith

advance_wrap_extent :
    (f : Fcb)
    → IsPlaced f
    → f.extent_hi * 256 + f.extent_lo < 65535
    → f.current_record ≡ 127
    → advance f ≡ record f {
      extent_lo = (f.extent_hi * 256 + f.extent_lo + 1) % 256;
      extent_hi = (f.extent_hi * 256 + f.extent_lo + 1) / 256;
      current_record = 0;
    }
unfolding next_record
advance_wrap_extent f h room e =
    advance_wrap f e
    ∙ ap (λ k. set_extent (k + 1) (record f { current_record = 0 }))
        (get_extent_lem (next_record f) h.lo h.hi)
    ∙ set_extent_lem (f.extent_hi * 256 + f.extent_lo + 1) (record f { current_record = 0 })
        (omega arith)

-- For a block whose extent bytes are bytes and whose record is below 128, below the last record of
-- the last extent, `advance` gives such a block again, at the next position, with the same size and
-- name.
pub advance-IsNext : (f : Fcb) → IsPlaced f → position f + 1 < 65536 * 128 → IsNext f (advance f)
unfolding next_record
advance-IsNext f h room = elim (Bool-cases (f.current_record == 127)) [
  | inl e ↦
      let last : f.current_record ≡ 127 = (==_iff f.current_record 127).0 e in
      rw (advance_wrap_extent f h (omega arith) last) (record {
        placed = record { lo = omega arith; hi = omega arith; current = omega arith };
        moved = omega arith;
        size = refl;
        name = refl;
      })
  | inr e ↦
      let inside : f.current_record < 127 = ground (arith, h.current) in
      rw (advance_inside f inside) (record {
        placed = record { lo = h.lo; hi = h.hi; current = omega arith };
        moved = omega arith;
        size = refl;
        name = refl;
      })
]
