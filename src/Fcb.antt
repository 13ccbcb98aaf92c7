-- ===== src/Fcb.antt =====
-- The file control block: `struct FCB` of sw/spyvspy/spydata.h, field by field and as the 44 bytes
-- that the packed structure is in memory (a little-endian host).
pub mod Layout
pub mod Names
pub mod Extent
use Prim.Native.Nat.{bit_and, bit_or}
use yamashnik.Prelude.{
  ℕ, zero, suc, ◌+◌, ◌-◌, ◌*◌, ◌/◌, ◌%◌, ◌^◌, ◌<◌, Bool, List, [], ◌∷◌, ◌++◌, Option, none, some,
  Bytes, u8, u16, ◌==◌, if◌then◌else◌, get_or, take, drop, replicate, length,
}
use yamashnik.Util.{dosname_of}

pub record Fcb : Type 0 where
  pub drive : ℕ
  pub name_ext : Bytes
  pub extent_lo : ℕ
  pub extent_hi : ℕ
  pub record_size_lo : ℕ
  pub record_size_hi : ℕ
  pub file_size : ℕ
  pub date : ℕ
  pub time : ℕ
  pub device_id : ℕ
  pub directory_location : ℕ
  pub top_cluster : ℕ
  pub last_cluster : ℕ
  pub relative_location : ℕ
  pub current_record : ℕ
  pub random_record : ℕ
  pub padding : ℕ
  pub padding2 : Bytes

-- `sizeof(FCB)`
abbrev pub fcb_size : ℕ
fcb_size = 44

-- `FCB()` clears the memory.
abbrev pub blank_fcb : Fcb
blank_fcb = record {
  drive = 0;
  name_ext = replicate 11 0;
  extent_lo = 0;
  extent_hi = 0;
  record_size_lo = 0;
  record_size_hi = 0;
  file_size = 0;
  date = 0;
  time = 0;
  device_id = 0;
  directory_location = 0;
  top_cluster = 0;
  last_cluster = 0;
  relative_location = 0;
  current_record = 0;
  random_record = 0;
  padding = 0;
  padding2 = replicate 3 0;
}

-- `uint16_t` and `uint32_t` in memory.
abbrev pub le16 : ℕ → Bytes
le16 v = v % 256 ∷ v / 256 % 256 ∷ []

abbrev pub le32 : ℕ → Bytes
le32 v = v % 256 ∷ v / 256 % 256 ∷ v / 65536 % 256 ∷ v / 16777216 % 256 ∷ []

abbrev pub word16_at : Bytes → ℕ → ℕ
word16_at bs i = get_or bs i 0 + get_or bs (i + 1) 0 * 256

abbrev pub word32_at : Bytes → ℕ → ℕ
word32_at bs i = word16_at bs i + word16_at bs (i + 2) * 65536

-- The fields behind the name, from offset 12 on.
abbrev pub fields_bytes : Fcb → Bytes
fields_bytes f =
    f.extent_lo
    ∷ f.extent_hi
    ∷ f.record_size_lo
    ∷ f.record_size_hi
    ∷ (le32 f.file_size
        ++ (le16 f.date
            ++ (le16 f.time
                ++ (f.device_id
                    ∷ f.directory_location
                    ∷ (le16 f.top_cluster
                        ++ (le16 f.last_cluster
                            ++ (le16 f.relative_location
                                ++ (f.current_record
                                    ∷ (le32 f.random_record
                                        ++ (le32 f.padding ++ f.padding2))))))))))

-- The structure as memory.
unfoldable pub to_bytes : Fcb → Bytes
to_bytes f = f.drive ∷ (f.name_ext ++ fields_bytes f)

fields_of : ℕ → Bytes → Bytes → Fcb
fields_of drive name t = record {
  drive = drive;
  name_ext = name;
  extent_lo = get_or t 0 0;
  extent_hi = get_or t 1 0;
  record_size_lo = get_or t 2 0;
  record_size_hi = get_or t 3 0;
  file_size = word32_at t 4;
  date = word16_at t 8;
  time = word16_at t 10;
  device_id = get_or t 12 0;
  directory_location = get_or t 13 0;
  top_cluster = word16_at t 14;
  last_cluster = word16_at t 16;
  relative_location = word16_at t 18;
  current_record = get_or t 20 0;
  random_record = word32_at t 21;
  padding = word32_at t 25;
  padding2 = take 3 (drop 29 t);
}

-- `memcpy(&fcb, bs, sizeof(FCB))`
unfoldable pub from_bytes : Bytes → Fcb
unfolding fields_of
from_bytes bs = fields_of (get_or bs 0 0) (take 11 (drop 1 bs)) (drop 12 bs)

unfoldable pub record_size : Fcb → ℕ
record_size f = bit_or (f.record_size_hi * 2 ^ 8) f.record_size_lo

unfoldable pub get_extent : Fcb → ℕ
get_extent f = bit_or (f.extent_hi * 2 ^ 8) f.extent_lo

-- The parameter is a `uint16_t`.
unfoldable pub set_extent : ℕ → Fcb → Fcb
set_extent extent f =
    let e = u16 extent in
    record f { extent_lo = bit_and e 0xff; extent_hi = bit_and (e / 2 ^ 8) 0xff }

-- `SetNameExt`: where `dosname` refuses the name, the field stays.
unfoldable pub set_name_ext : Option Bytes → Fcb → Fcb
set_name_ext fname f = elim (dosname_of fname) [
  | none ↦ f
  | some name ↦ record f { name_ext = name }
]

-- A loop of `extractFileName`: bytes from `src` on, until a space or the end of the field.
unfoldable pub until_space : Bytes → Bytes
until_space [] = []
until_space (c ∷ cs) = let rest = until_space cs in if c == b' ' then [] else c ∷ rest

-- `extractFileName(namext, …)`, the eleven bytes given
unfoldable pub extract_file_name : Bytes → Bytes
extract_file_name namext =
    until_space (take 8 namext) ++ b'.' ∷ until_space (take 3 (drop 8 namext))

-- The C string in a buffer: the bytes before its first NUL.
unfoldable pub c_string : Bytes → Bytes
c_string [] = []
c_string (b ∷ bs) = let rest = c_string bs in if b == 0 then [] else b ∷ rest

-- The name, as `fopen` and the like read it: a NUL among its characters ends it.
unfoldable pub get_file_name : Fcb → Bytes
unfolding extract_file_name
get_file_name f = c_string (extract_file_name f.name_ext)

-- The second name, of a rename request: eleven bytes from offset 17 of the structure.
unfoldable pub get_file_name2 : Fcb → Bytes
unfolding extract_file_name to_bytes
get_file_name2 f = c_string (extract_file_name (take 11 (drop 17 (to_bytes f))))
