-- ===== src/Fcb/Layout.antt =====
-- `FCB` of sw/spyvspy/spydata.h as a record and as memory.
use yamashnik.Prelude.{
  ℕ, ◌+◌, ◌*◌, ◌/◌, ◌%◌, ◌<◌, ◌≡◌, ap, ap₂, ◌∙◌, ◌++◌, Bytes, IsByte, All, arith, length,
  length-append, take, drop, take-append, drop-append, append_assoc,
}
use yamashnik.Fcb.{Fcb, fcb_size, fields_bytes, to_bytes, fields_of, from_bytes}

-- Every field is in the range of its C type, and the arrays have their sizes.
pub record IsFcb (f : Fcb) : Type 0 where
  pub drive : f.drive < 256
  pub name_ext : length f.name_ext ≡ 11
  pub name_bytes : All IsByte f.name_ext
  pub extent_lo : f.extent_lo < 256
  pub extent_hi : f.extent_hi < 256
  pub record_size_lo : f.record_size_lo < 256
  pub record_size_hi : f.record_size_hi < 256
  pub file_size : f.file_size < 4294967296
  pub date : f.date < 65536
  pub time : f.time < 65536
  pub device_id : f.device_id < 256
  pub directory_location : f.directory_location < 256
  pub top_cluster : f.top_cluster < 65536
  pub last_cluster : f.last_cluster < 65536
  pub relative_location : f.relative_location < 65536
  pub current_record : f.current_record < 256
  pub random_record : f.random_record < 4294967296
  pub padding : f.padding < 4294967296
  pub padding2 : length f.padding2 ≡ 3
  pub padding2_bytes : All IsByte f.padding2

word16_at-le16 : (v : ℕ) → v < 65536 → v % 256 + v / 256 % 256 * 256 ≡ v
word16_at-le16 v h = omega arith

word32_at-le32 :
    (v : ℕ)
    → v < 4294967296
    → v % 256 + v / 256 % 256 * 256 + (v / 65536 % 256 + v / 16777216 % 256 * 256) * 65536 ≡ v
word32_at-le32 v h = omega arith

pub length-to_bytes : (f : Fcb) → IsFcb f → length (to_bytes f) ≡ fcb_size
unfolding to_bytes
length-to_bytes f h =
    omega (arith, length-append f.name_ext (fields_bytes f), h.name_ext, h.padding2)

fields_of_lem :
    (f : Fcb) (rest : Bytes) → IsFcb f → fields_of f.drive f.name_ext (fields_bytes f ++ rest) ≡ f
unfolding fields_of
fields_of_lem f rest h = λ i. record {
  drive = f.drive;
  name_ext = f.name_ext;
  extent_lo = f.extent_lo;
  extent_hi = f.extent_hi;
  record_size_lo = f.record_size_lo;
  record_size_hi = f.record_size_hi;
  file_size = word32_at-le32 f.file_size h.file_size i;
  date = word16_at-le16 f.date h.date i;
  time = word16_at-le16 f.time h.time i;
  device_id = f.device_id;
  directory_location = f.directory_location;
  top_cluster = word16_at-le16 f.top_cluster h.top_cluster i;
  last_cluster = word16_at-le16 f.last_cluster h.last_cluster i;
  relative_location = word16_at-le16 f.relative_location h.relative_location i;
  current_record = f.current_record;
  random_record = word32_at-le32 f.random_record h.random_record i;
  padding = word32_at-le32 f.padding h.padding i;
  padding2 = take-append 3 f.padding2 rest h.padding2 i;
}

-- A block whose fields are in the ranges of their C types is, when its memory is copied into another
-- block, the same block, whatever stands behind the memory.
pub from_bytes-to_bytes : (f : Fcb) (rest : Bytes) → IsFcb f → from_bytes (to_bytes f ++ rest) ≡ f
unfolding from_bytes to_bytes
from_bytes-to_bytes f rest h =
    ap₂ (fields_of f.drive)
      (ap (take 11) (append_assoc f.name_ext (fields_bytes f) rest)
        ∙ take-append 11 f.name_ext _ h.name_ext)
      (ap (drop 11) (append_assoc f.name_ext (fields_bytes f) rest)
        ∙ drop-append 11 f.name_ext _ h.name_ext)
    ∙ fields_of_lem f rest h
