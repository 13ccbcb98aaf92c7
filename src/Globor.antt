-- ===== src/Globor.antt =====
-- The file name matcher and the search over a directory: `Globor` of sw/spyvspy/dosglob.h.
-- `opendir` and `readdir` give the names of the directory as it is when it is opened.
pub mod Match
pub mod Search
pub mod Marks
use yamashnik.Prelude.{
  ℕ, suc, Bool, true, false, ◌&&◌, ◌||◌, List, [], ◌∷◌, Option, none, some, Bytes, ◌==◌, Run, done,
  fault, if◌then◌else◌,
}
use yamashnik.Util.{dosname}

-- `m_dir`: the constructor leaves it uninitialised; `opendir` may give a null pointer.
pub data Dir : Type 0 where
  unset null : Dir
  opened : List Bytes → Dir

pub record Globor : Type 0 where
  pub pattern : Bytes
  pub dir : Dir

-- `SetPattern`
unfoldable pub set_pattern : Bytes → Globor → Globor
set_pattern pattern g = record g { pattern = pattern }

-- `strcmp(a, b) == 0`
unfoldable pub equal : Bytes → Bytes → Bool
equal [] [] = true
equal (x ∷ xs) (y ∷ ys) = x == y && equal xs ys
equal xs ys = false

-- The loop of `match`: how far it comes.
matched : Bytes → Bytes → ℕ
matched (p ∷ ps) (c ∷ cs) = let rest = matched ps cs in if p == c || p == b'?' then suc rest else 0
matched ps cs = 0

-- `match(fname)` under the pattern given. Where `dosname` fails `i` stays -1.
unfoldable pub match : Bytes → Bytes → Bool
unfolding matched
match pattern fname =
    if equal fname (b'.' ∷ []) || equal fname (b'.' ∷ b'.' ∷ [])
    then false
    else elim (dosname fname) [ none ↦ false | some name ↦ matched pattern name == 11 ]

-- The loop of `SearchNext` over what `readdir` has left.
scan : Bytes → List Bytes → Option Bytes × List Bytes
scan pattern [] = (none, [])
scan pattern (name ∷ names) =
    let rest = scan pattern names in if match pattern name then (some name, names) else rest

search_next_in : Dir → Globor → Run (Option Bytes × Globor)
search_next_in unset g = fault
search_next_in null g = done (none, g)
search_next_in (opened names) g =
    let (found, rest) = scan g.pattern names in done (found, record g { dir = opened rest })

-- `SearchNext`
unfoldable pub search_next : Globor → Run (Option Bytes × Globor)
unfolding search_next_in scan
search_next g = search_next_in g.dir g

-- `SearchFirst`, given what `opendir` has to offer; `none` where it fails.
unfoldable pub search_first : Option (List Bytes) → Bytes → Globor → Run (Option Bytes × Globor)
search_first none pattern g = done (none, record g { pattern = pattern; dir = null })
search_first (some names) pattern g =
    search_next (record g { pattern = pattern; dir = opened names })
