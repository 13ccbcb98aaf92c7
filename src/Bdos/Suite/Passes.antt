-- ===== src/Bdos/Suite/Passes.antt =====
-- The run of the test suite of `NetBDOS` in sw/spyvspy/spybdos.h, on any directory.
use yamashnik.Fcb.{get_file_name, extract_file_name, until_space, c_string}
use yamashnik.Util.{dosname, to_upper, base_name, name_length, write_upper}
use yamashnik.Prelude.{
  ℕ, ◌<◌, ◌≡◌, refl, sym, ap, ◌∙◌, true, false, List, [], ◌∷◌, Option, none, some, Bytes, length,
  replicate, done, arith, codes, le→leb,
}
use yamashnik.Globor.{Globor, match, equal, set_pattern}
use yamashnik.Globor.Search.{session, session_all, session_unopened, search_first_done}
use yamashnik.Globor.Marks.{dos_names, matches-marks}
use yamashnik.Response.{Response, assign_dma, respond, set_aux_data}
use yamashnik.Disk.{Host, Files}
use yamashnik.Bdos.State.{World, newline}
use yamashnik.Bdos.Find.{find_first, found_answer}
use yamashnik.Bdos.Suite.{
  test_file_name_from_pcb, test_fcb_from_file_name, test_search_first_dirent, test_search_first,
  test_dosglob, test_suite, dump_sized, request_for,
}
use yamashnik.Diags.{dump}
use mathlib.Core.Path.{subst}

-- What a listing offers; a directory that cannot be opened has nothing.
abbrev pub offered : Option (List Bytes) → List Bytes
offered none = []
offered (some names) = names

-- The session of `test_dosglob` lists what has an 8.3 form.
session_marks :
    (fuel : ℕ) (listing : Option (List Bytes)) (g : Globor)
    → length (offered listing) < fuel
    → session fuel listing (replicate 11 b'?') g ≡ done (some (dos_names (offered listing)))
session_marks fuel none g h = session_unopened fuel (replicate 11 b'?') g
session_marks fuel (some names) g h =
    session_all fuel names (replicate 11 b'?') g h ∙ ap (λ ns. done (some ns)) (matches-marks names)

-- With fuel above the number of names in the directory `test_dosglob` comes to its end with 1. Under
-- eleven question marks each of its names matches, under the second pattern exactly the two that end in
-- `.com`, and it lists the names of the directory that have an 8.3 form, in order, but for `.` and `..`.
pub test_dosglob_lem :
    (fuel : ℕ) (host : Host) (files : Files)
    → length (offered (host.listing files)) < fuel
    → test_dosglob fuel host files
      ≡ done (
        true,
        replicate 6 true,
        false ∷ true ∷ true ∷ false ∷ false ∷ [],
        dos_names (offered (host.listing files)),
      )
unfolding test_dosglob match equal dosname to_upper base_name name_length write_upper set_pattern
test_dosglob_lem fuel host files h = rw (session_marks fuel (host.listing files) _ h)

-- What a search of the suite leaves, whatever it finds.
abbrev Searched : World → Response → World → Type 0
Searched w r w' =
    (w'.files ≡ w.files)
    × (w'.bdos.disk ≡ w.bdos.disk)
    × (w'.bdos.last_request ≡ some 14)
    × ((bs : Bytes) × (r.dma_buf ≡ some bs) × (r.dmasize ≡ some (length bs)))

found_answer_done :
    (host : Host) (found : Option Bytes) (g : Globor) (name : Bytes) (w : World)
    → (r : Response) × (w' : World) × (found_answer host found g (request_for name) w
        ≡ done (r, w'))
      × Searched w r w'
unfolding found_answer newline assign_dma respond set_aux_data
found_answer_done host found g name w = (_, _, refl, (refl, refl, refl, (_, refl, refl)))

find_first_done :
    (host : Host) (name : Bytes) (w : World)
    → (r : Response) × (w' : World) × (find_first host (request_for name) w ≡ done (r, w'))
      × Searched w r w'
unfolding find_first
find_first_done host name w =
    let ((found, g), e) =
      search_first_done (host.listing w.files) ((request_for name).block.name_ext) w.bdos.globor in
    let (r, w', f, s) = found_answer_done host found g name w in (r, w', rw e f, s)

pcb_passes : test_file_name_from_pcb ≡ true
unfolding test_file_name_from_pcb equal get_file_name extract_file_name c_string until_space
pcb_passes = refl

dump_sized_done :
    (bs : Bytes) → dump_sized (some bs) (some (length bs)) ≡ done (dump bs (length bs))
unfolding dump_sized
dump_sized_done bs = rw (le→leb (length bs) (length bs) (omega arith))

-- On every host and every directory that has fewer names than there is fuel, the test suite of `NetBDOS`
-- returns 1. It leaves the files as they are and the same disk, and the code 14 as the last request.
pub test_suite_passes :
    (fuel : ℕ) (host : Host) (w : World)
    → length (offered (host.listing w.files)) < fuel
    → (w' : World) × (test_suite fuel host w ≡ done (true, w'))
      × (w'.files ≡ w.files)
      × (w'.bdos.disk ≡ w.bdos.disk)
      × (w'.bdos.last_request ≡ some 14)
unfolding test_suite test_search_first_dirent test_search_first test_fcb_from_file_name
test_suite_passes fuel host w h =
    let (r1, w1, e1, (f1, d1, l1, (bs, b1, n1))) = find_first_done host (codes "A.???") w in
    let (r2, w2, e2, (f2, d2, l2, k2)) = find_first_done host (codes "AUTOEXEC.???") w1 in
    let (r3, w3, e3, (f3, d3, l3, k3)) = find_first_done host (codes "NOSUCH.FIL") w2 in
    let same : w3.files ≡ w.files = f3 ∙ f2 ∙ f1 in
    let more : length (offered (host.listing w3.files)) < fuel =
      subst (λ fs. length (offered (host.listing fs)) < fuel) (sym same) h in
    (
      w3,
      rw (
        pcb_passes,
        e1,
        b1,
        n1,
        dump_sized_done bs,
        e2,
        e3,
        test_dosglob_lem fuel host w3.files more,
      ),
      same,
      d3 ∙ d2 ∙ d1,
      l3,
    )
