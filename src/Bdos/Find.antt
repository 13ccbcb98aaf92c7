-- ===== src/Bdos/Find.antt =====
-- `searchFirst` and `searchNext` of sw/spyvspy/spybdos.h.
use yamashnik.Prelude.{[], ◌∷◌, Option, none, some, Bytes, ℕ, done, ◌>>=◌}
use yamashnik.Fcb.{blank_fcb, set_name_ext}
use yamashnik.Dirent.{Dirent, Tm, blank_dirent, dirent_bytes, init_from_fcb, set_date_time}
use yamashnik.Globor.{Globor, search_first, search_next}
use yamashnik.Request.{Request, byte, dma}
use yamashnik.Response.{fresh_response, respond, assign_dma, set_aux_data}
use yamashnik.Disk.{Files, Host}
use yamashnik.Bdos.State.{World, Answer, newline, file_size_of, stored_size}

-- `stat` of a null name fails, as the GNU C library has it.
time_of : Host → Files → Option Bytes → Option Tm
time_of host files none = none
time_of host files (some name) = host.modified files name

-- The entry for a name that was found, or for a null pointer.
unfoldable pub entry_for : Host → Files → Option Bytes → Dirent
unfolding time_of
entry_for host files found =
    let block = record (set_name_ext found blank_fcb) {
      file_size = stored_size (file_size_of host files found);
    } in
    set_date_time (time_of host files found) (init_from_fcb block blank_dirent)

unfoldable pub found_answer : Host → Option Bytes → Globor → Request → World → Answer
found_answer host found g req w =
    let result : ℕ = elim found [ none ↦ 0xff | some _ ↦ 0 ] in
    let w' = newline req w in
    done (
      respond (dma ∷ byte ∷ []) (
          set_aux_data 0 result
            (assign_dma (dirent_bytes (entry_for host w.files found)) fresh_response)),
      record w' { bdos = record (w'.bdos) { globor = g } },
    )

-- The pattern is the name of the request's block.
unfoldable pub find_first : Host → Request → World → Answer
unfolding found_answer
find_first host req w = do
  (found, g) ← search_first (host.listing w.files) req.block.name_ext w.bdos.globor
  found_answer host found g req w

unfoldable pub find_next : Host → Request → World → Answer
unfolding found_answer
find_next host req w = do (found, g) ← search_next w.bdos.globor; found_answer host found g req w
