-- ===== src/Bdos/Change.antt =====
-- The files after `deleteFile`, `renameFile` and `createFile` of sw/spyvspy/spybdos.h.
use yamashnik.Prelude.{
  ◌∷◌, if◌then◌else◌, ℕ, ◌≡◌, ◌≢◌, refl, ap, ◌∙◌, some, none, Option, [], Bytes, arith, true, done,
  get_elem?, ◌==◌,
}
use yamashnik.Fcb.{get_file_name, get_file_name2, get_extent, set_extent}
use yamashnik.Request.{Request, byte, fcb}
use yamashnik.Response.{fresh_response, Response, set_aux_data, respond, assign_fcb}
use yamashnik.Disk.{Host, Files, put, fopen, fopen_write, unlink, rename}
use yamashnik.Disk.Names.{fopen-allowed, fopen-put_same, fopen-put_other}
use yamashnik.Bdos.State.{World, Answer, newline}
use yamashnik.Bdos.Write.{settle, delete_file, rename_file, create_file}

-- An answer with the result given, after which the files satisfy `P`.
abbrev pub Results : ℕ → (Files → Type 0) → Answer → Type 0
Results result P m =
    (r : Response) × (w' : World) × (m ≡ done (r, w'))
    × (get_elem? r.aux 0 ≡ some (some result))
    × P w'.files

-- The names other than one, or than two, are as before.
abbrev pub SameBut : Host → Bytes → Bytes → Files → Files → Type 0
SameBut host a b old new =
    (other : Bytes) → other ≢ a → other ≢ b → fopen host other new ≡ fopen host other old

-- The answer once it is known what the host made of the call.
deleted : ℕ × Files → Request → World → Answer
deleted (result, files) req w = done (
  respond (byte ∷ []) (set_aux_data 0 result fresh_response),
  record (newline req w) { files = files },
)

created : ℕ × Files → Request → World → Answer
created (result, files) req w = done (
  respond (fcb ∷ byte ∷ []) (
      set_aux_data 0 result
        (assign_fcb (set_extent (get_extent req.block) req.block) fresh_response)),
  record (newline req w) { files = files },
)

delete_file-unlink :
    (host : Host) (req : Request) (w : World) (u : Option Files)
    → unlink host (get_file_name req.block) w.files ≡ u
    → delete_file host req w ≡ deleted (settle 0xff u w.files) req w
unfolding delete_file deleted
delete_file-unlink host req w u e = ap (λ v. deleted (settle 0xff v w.files) req w) e

rename_file-rename :
    (host : Host) (req : Request) (w : World) (u : Option Files)
    → rename host (get_file_name req.block) (get_file_name2 req.block) w.files ≡ u
    → rename_file host req w ≡ deleted (settle 0xff u w.files) req w
unfolding rename_file deleted
rename_file-rename host req w u e = ap (λ v. deleted (settle 0xff v w.files) req w) e

create_file-new :
    (host : Host) (req : Request) (w : World) (u : Option Files)
    → (if get_extent req.block == 0
        then fopen_write host (get_file_name req.block) w.files
        else none)
      ≡ u
    → create_file host req w ≡ created (settle 0xff u w.files) req w
unfolding create_file created
create_file-new host req w u e = ap (λ v. created (settle 0xff v w.files) req w) e

unlink-some :
    (host : Host) (name content : Bytes) (files : Files)
    → fopen host name files ≡ some content
    → unlink host name files ≡ some (put name none files)
unfolding unlink
unlink-some host name content files e = ground (arith, e)

rename-some :
    (host : Host) (from to content : Bytes) (files : Files)
    → fopen host from files ≡ some content
    → host.allowed to ≡ true
    → rename host from to files ≡ some (put to (some content) (put from none files))
unfolding rename
rename-some host from to content files e may = ground (arith, e)

-- Deleting a file that can be opened answers 0; the file is gone and all others stay.
pub delete_file-Results :
    (host : Host) (req : Request) (w : World) (content : Bytes)
    → fopen host (get_file_name req.block) w.files ≡ some content
    → Results 0
        (λ new.
          (fopen host (get_file_name req.block) new ≡ none)
          × SameBut host (get_file_name req.block) (get_file_name req.block) w.files new)
        (delete_file host req w)
unfolding settle deleted set_aux_data respond
delete_file-Results host req w content e = (
  _,
  _,
  delete_file-unlink host req w _ (unlink-some host (get_file_name req.block) content w.files e),
  refl,
  (
    fopen-put_same host (get_file_name req.block) none w.files
        (fopen-allowed host (get_file_name req.block) content w.files e),
    λ other ne _. fopen-put_other host (get_file_name req.block) other none w.files ne,
  ),
)

-- Renaming a file that can be opened, to another name that the host allows, answers 0; the bytes are under
-- the new name, none under the old, and all other files stay.
pub rename_file-Results :
    (host : Host) (req : Request) (w : World) (content : Bytes)
    → fopen host (get_file_name req.block) w.files ≡ some content
    → host.allowed (get_file_name2 req.block) ≡ true
    → get_file_name req.block ≢ get_file_name2 req.block
    → Results 0
        (λ new.
          (fopen host (get_file_name2 req.block) new ≡ some content)
          × (fopen host (get_file_name req.block) new ≡ none)
          × SameBut host (get_file_name req.block) (get_file_name2 req.block) w.files new)
        (rename_file host req w)
unfolding settle deleted set_aux_data respond
rename_file-Results host req w content e may apart =
    let from = get_file_name req.block in
    let to = get_file_name2 req.block in
    let gone = put from none w.files in
    (
      _,
      _,
      rename_file-rename host req w _ (rename-some host from to content w.files e may),
      refl,
      (
        fopen-put_same host to (some content) gone may,
        fopen-put_other host to from (some content) gone apart
            ∙ fopen-put_same host from none w.files (fopen-allowed host from content w.files e),
        λ other ne ne2.
            fopen-put_other host to other (some content) gone ne2
            ∙ fopen-put_other host from other none w.files ne,
      ),
    )

-- Creating a file with an allowed name at extent 0 answers 0; there is an empty file of that name, whatever
-- there was before, and all other files stay.
pub create_file-Results :
    (host : Host) (req : Request) (w : World)
    → host.allowed (get_file_name req.block) ≡ true
    → get_extent req.block ≡ 0
    → Results 0
        (λ new.
          (fopen host (get_file_name req.block) new ≡ some [])
          × SameBut host (get_file_name req.block) (get_file_name req.block) w.files new)
        (create_file host req w)
unfolding settle created set_aux_data respond assign_fcb
create_file-Results host req w may first =
    let name = get_file_name req.block in
    (
      _,
      _,
      create_file-new host req w (some (put name (some []) w.files))
          (unfold fopen_write in ground arith),
      refl,
      (
        fopen-put_same host name (some []) w.files may,
        λ other ne _. fopen-put_other host name other (some []) w.files ne,
      ),
    )
