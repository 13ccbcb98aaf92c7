-- ===== src/Bdos/Changed.antt =====
-- Files that the changes of sw/spyvspy/spybdos.h leave alone.
use yamashnik.Prelude.{
  ◌≡◌, ◌≢◌, refl, ◌∙◌, Bool, true, false, List, [], ◌∷◌, Option, none, some, Bytes, arith, done,
  if◌then◌else◌,
}
use yamashnik.Fcb.{get_file_name, get_file_name2}
use yamashnik.Request.{Request}
use yamashnik.Request.Table.{Func, delete_file, creat, rename_file, seq_write, random_write}
use yamashnik.Disk.{Host, Files, put, fopen, fopen_write, unlink, rename}
use yamashnik.Globor.Match.{equal_iff}
use yamashnik.Bdos.State.{World, Answer, on_open}
use yamashnik.Bdos.Write

-- The files that a function is asked to change.
abbrev pub changed : Func → Request → List Bytes
changed delete_file req = get_file_name req.block ∷ []
changed seq_write req = get_file_name req.block ∷ []
changed random_write req = get_file_name req.block ∷ []
changed creat req = get_file_name req.block ∷ []
changed rename_file req = get_file_name req.block ∷ get_file_name2 req.block ∷ []
changed f req = []

-- The answer, if there is one, leaves the file as it was.
abbrev pub Spares : Bytes → World → Answer → Type 0
Spares name w (done (r, w')) = w'.files name ≡ w.files name
Spares name w m = Unit

module _ (host : Host) (name : Bytes) where
  pub put_spares :
      (other : Bytes) (v : Option Bytes) (files : Files)
      → name ≢ other
      → put other v files name ≡ files name
  unfolding put
  put_spares other v files h = ground (arith, equal_iff name other)

  pub on_open-Spares :
      (o : Option Bytes) (work : Bytes → Answer) (w : World)
      → ((c : Bytes) → Spares name w (work c))
      → Spares name w (on_open o work)
  on_open-Spares none work w k = tt
  on_open-Spares (some c) work w k = k c

  -- New files, if there are any, with the file as it was.
  abbrev SparesNew : Files → Option Files → Type 0
  SparesNew files none = Unit
  SparesNew files (some f) = f name ≡ files name

  pub settle-spares :
      (new : Option Files) (files : Files)
      → SparesNew files new
      → (Write.settle 0xff new files).1 name ≡ files name
  unfolding Write.settle
  settle-spares none files k = refl
  settle-spares (some f) files k = k

  pub unlink-spares :
      (other : Bytes) (files : Files) → name ≢ other → SparesNew files (unlink host other files)
  unfolding unlink
  unlink-spares other files h = by_content (fopen host other files)
    where
      by_content :
          (o : Option Bytes)
          → SparesNew files (elim o [ none ↦ none | some content ↦ some (put other none files) ])
      by_content none = tt
      by_content (some content) = put_spares other none files h

  pub rename-spares :
      (from to : Bytes) (files : Files)
      → name ≢ from
      → name ≢ to
      → SparesNew files (rename host from to files)
  unfolding rename
  rename-spares from to files h k = by_content (fopen host from files) (host.allowed to)
    where
      by_content :
          (o : Option Bytes) (may : Bool)
          → SparesNew files (elim o [
            | none ↦ none
            | some content ↦
                if may then some (put to (some content) (put from none files)) else none
          ])
      by_content none may = tt
      by_content (some content) true =
          put_spares to (some content) (put from none files) k ∙ put_spares from none files h
      by_content (some content) false = tt

  pub create-spares :
      (other : Bytes) (first : Bool) (files : Files)
      → name ≢ other
      → SparesNew files (if first then fopen_write host other files else none)
  unfolding fopen_write
  create-spares other first files h = by_tests first (host.allowed other)
    where
      by_tests :
          (first may : Bool)
          → SparesNew files
              (if first then (if may then some (put other (some []) files) else none) else none)
      by_tests false may = tt
      by_tests true false = tt
      by_tests true true = put_spares other (some []) files h
