-- ===== src/Tests/Names.antt =====
-- Runs of the file names, the control block, the dates and the directory search.
use yamashnik.Dirent.{Dirent, Tm, set_date_time, blank_dirent}
use yamashnik.Prelude.{
  Bytes, some, ◌∷◌, ◌≡◌, List, [], arith, done, map, replicate, ◌++◌, refl, true, ◌≢◌, ◌↔◌, ◌/◌,
  ◌+◌, ◌%◌, ◌≤◌, ◌⊎◌,
}
use yamashnik.Dirent.Dates.{set_date_time_fields}
use yamashnik.Util.{dosname, to_upper, base_name}
use yamashnik.Util.Shape.{padded, dosname_dot, base_name-append}
use yamashnik.Fcb.{blank_fcb, get_file_name, set_name_ext}
use yamashnik.Fcb.Names.{get_file_name-dot, get_file_name-plain}
use yamashnik.Globor.{Globor, unset, match, equal}
use yamashnik.Globor.Match.{Fits, match_iff}
use yamashnik.Globor.Search.{session, matches, session_all}

-- `ab`, `bas`, `a.c`
abbrev ab : Bytes
ab = b'a' ∷ b'b' ∷ []

abbrev bas : Bytes
bas = b'b' ∷ b'a' ∷ b's' ∷ []

dosname_dot_example : dosname (b'/' ∷ (ab ++ b'.' ∷ bas)) ≡ some (padded 8 ab ++ padded 3 bas)
dosname_dot_example =
    dosname_dot (b'/' ∷ (ab ++ b'.' ∷ bas)) ab bas
      (base_name-append [] (ab ++ b'.' ∷ bas) (omega arith)) (omega arith) (omega arith)
      (omega arith)

get_file_name-dot_example :
    get_file_name (set_name_ext (some (ab ++ b'.' ∷ bas)) blank_fcb)
    ≡ map to_upper (ab ++ b'.' ∷ bas)
get_file_name-dot_example =
    get_file_name-dot blank_fcb ab bas (omega arith) (omega arith) (omega arith) (omega arith)
      (omega arith) (omega arith) (omega arith)

get_file_name-plain_example :
    (get_file_name (set_name_ext (some ab) blank_fcb) ≡ map to_upper ab ++ b'.' ∷ [])
    × (get_file_name (set_name_ext (some ab) blank_fcb) ≢ map to_upper ab)
    × (get_file_name (set_name_ext (some ab) blank_fcb) ≢ ab)
get_file_name-plain_example =
    get_file_name-plain blank_fcb ab (omega arith) (omega arith) (omega arith) (omega arith)
      (omega arith)

-- Noon and a second on the 31st of December 1999.
abbrev noon : Tm
noon = record { tm_year = 99; tm_mon = 11; tm_mday = 31; tm_hour = 12; tm_min = 0; tm_sec = 1 }

abbrev stamped : Dirent
stamped = set_date_time (some noon) blank_dirent

set_date_time_fields_example :
    (stamped.date / 512 + 1980 ≡ 1999)
    × (stamped.date / 32 % 16 ≡ 12)
    × (stamped.date % 32 ≡ 31)
    × (stamped.time / 2048 ≡ 12)
    × (stamped.time / 32 % 64 ≡ 0)
    × (((stamped.time % 32 ≡ 0) × (1 ≤ stamped.time))
        ⊎ ((noon.tm_hour + noon.tm_min + noon.tm_sec / 2 ≡ 0) × (stamped.time ≡ 1)))
set_date_time_fields_example =
    set_date_time_fields noon blank_dirent
      (record {
        mon = omega arith;
        mday = (omega arith, omega arith);
        hour = omega arith;
        min = omega arith;
        sec = omega arith;
      })
      (omega arith) (omega arith)

-- `*.BAS` as the workstation writes it.
abbrev any_bas : Bytes
any_bas = replicate 8 b'?' ++ b'B' ∷ b'A' ∷ b'S' ∷ []

match_iff_example : (match any_bas (ab ++ b'.' ∷ bas) ≡ true) ↔ (
    (ab ++ b'.' ∷ bas ≢ b'.' ∷ [])
    × (ab ++ b'.' ∷ bas ≢ b'.' ∷ b'.' ∷ [])
    × ((name : Bytes) × (dosname (ab ++ b'.' ∷ bas) ≡ some name) × Fits any_bas name))
match_iff_example = match_iff any_bas (ab ++ b'.' ∷ bas) refl

abbrev names : List Bytes
names = (b'.' ∷ []) ∷ (ab ++ b'.' ∷ bas) ∷ ab ∷ []

abbrev fresh_globor : Globor
fresh_globor = record { pattern = []; dir = unset }

session_all_example :
    session 4 (some names) any_bas fresh_globor ≡ done (some (matches any_bas names))
session_all_example = session_all 4 names any_bas fresh_globor (omega arith)

-- One of the three names matches.
matches_test : matches any_bas names ≡ (ab ++ b'.' ∷ bas) ∷ []
unfolding match equal dosname yamashnik.Util.name_length base_name yamashnik.Util.write_upper
    to_upper
matches_test = refl
