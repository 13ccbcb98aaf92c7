-- ===== src/Dirent.antt =====
-- The directory entry that a search answers with: `struct DIRENT` of sw/spyvspy/spydata.h.
pub mod Dates
use Prim.Native.Nat.{bit_or}
use yamashnik.Prelude.{
  ℕ, ◌+◌, ◌-◌, ◌*◌, ◌/◌, ◌%◌, ◌^◌, List, [], ◌∷◌, ◌++◌, Bool, ◌||◌, Option, none, some, Bytes, u16,
  ltb, ◌==◌, if◌then◌else◌, set, get_or, replicate,
}
use yamashnik.Fcb.{Fcb, le16, le32}

pub record Dirent : Type 0 where
  pub always_ff : ℕ
  pub name_ext : Bytes
  pub attrib : ℕ
  pub space : Bytes
  pub time : ℕ
  pub date : ℕ
  pub cluster : ℕ
  pub file_size : ℕ

-- What `stat` and `localtime_r` give for a file: `tm_mon` counts from 0, `tm_year` from 1900.
-- Years before 1900 are not modelled.
pub record Tm : Type 0 where
  pub tm_year : ℕ
  pub tm_mon : ℕ
  pub tm_mday : ℕ
  pub tm_hour : ℕ
  pub tm_min : ℕ
  pub tm_sec : ℕ

-- `DIRENT()`
abbrev pub blank_dirent : Dirent
blank_dirent = record {
  always_ff = 1;
  name_ext = replicate 11 0;
  attrib = 0;
  space = replicate 10 0;
  time = 0;
  date = 0;
  cluster = 0;
  file_size = 0;
}

-- The structure as memory, 33 bytes.
unfoldable pub dirent_bytes : Dirent → Bytes
dirent_bytes d =
    d.always_ff
    ∷ (d.name_ext
        ++ (d.attrib
            ∷ (d.space ++ (le16 d.time ++ (le16 d.date ++ (le16 d.cluster ++ le32 d.file_size))))))

-- `InitFromFCB`. The casts to `FCB *` write offsets 12 to 19, which are the attribute byte and the
-- first seven bytes of `Space`: the extent, the record size, and the size in records.
unfoldable pub init_from_fcb : Fcb → Dirent → Dirent
init_from_fcb f d =
    let records = f.file_size / 128 in
    let extent = set d.space 0 0 in
    let sized = set (set extent 1 1) 2 0 in
    let counted =
      set
        (set (set (set sized 3 (records % 256)) 4 (records / 256 % 256)) 5 (records / 65536 % 256))
        6 (records / 16777216 % 256) in
    record d { name_ext = f.name_ext; attrib = 0; space = counted; file_size = f.file_size }

pack_date : ℕ → ℕ → ℕ → ℕ
pack_date year month day = u16 (bit_or (bit_or (year * 2 ^ 9) (month * 2 ^ 5)) day)

pack_time : ℕ → ℕ → ℕ → ℕ
pack_time hour minute sec = u16 (bit_or (bit_or (hour * 2 ^ 11) (minute * 2 ^ 5)) sec)

-- `SetDateTime`, given what `stat` says of the file; `none` where it fails.
unfoldable pub set_date_time : Option Tm → Dirent → Dirent
unfolding pack_date pack_time
set_date_time none d = d
set_date_time (some tm) d =
    let year = tm.tm_year + 1900 in
    let time = pack_time tm.tm_hour tm.tm_min (tm.tm_sec / 2) in
    if ltb year 1980 then d else if ltb 2079 year then d else record d {
      date = pack_date (year - 1980) (tm.tm_mon + 1) tm.tm_mday;
      time = if time == 0 then 1 else time;
    }
