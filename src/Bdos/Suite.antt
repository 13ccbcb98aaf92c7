-- ===== src/Bdos/Suite.antt =====
-- The test suite of `NetBDOS` in sw/spyvspy/spybdos.h, with what its constructor sets. What the tests
-- print is kept where it shows their results: the dumps, the verdicts of `match`, the names listed.
pub mod Passes
use yamashnik.Prelude.{
  ℕ, Bool, true, false, ◌&&◌, List, [], ◌∷◌, ◌++◌, Option, none, some, Bytes, if◌then◌else◌, leb,
  length, map, take, replicate, Run, done, fault, running, ◌>>=◌, codes,
}
use yamashnik.Diags.{dump}
use yamashnik.Fcb.{Fcb, fcb_size, blank_fcb, to_bytes, set_name_ext, get_file_name}
use yamashnik.Globor.{Globor, unset, equal, match, set_pattern}
use yamashnik.Globor.Search.{session}
use yamashnik.Request.{Request}
use yamashnik.Disk.{Host, Files}
use yamashnik.Bdos.State.{Bdos, World}
use yamashnik.Bdos.Find.{find_first}

-- `Globor(path)`: nothing reads the pattern before it is set.
abbrev pub fresh_globor : Globor
fresh_globor = record { pattern = []; dir = unset }

-- `NetBDOS()`
abbrev pub fresh_bdos : Bdos
fresh_bdos = record { disk = 0; globor = fresh_globor; last_request = none }

-- `new SpyRequest()` clears the whole object.
abbrev pub zero_request : Request
zero_request = record {
  block = blank_fcb;
  dma_buf = replicate 65536 0;
  dmasize = 0;
  aux = replicate 8 0;
  func = 0;
  rxpattern = [];
  rxcursor = 0;
  datacursor = 0;
  bufoffset = 0;
}

-- A case of `test_fileNameFromPCB`: the eleven bytes and the name expected.
named_as : Bytes → Bytes → Bool
named_as bytes expect = equal expect (get_file_name (record blank_fcb { name_ext = bytes }))

unfoldable pub test_file_name_from_pcb : Bool
unfolding named_as
test_file_name_from_pcb =
    named_as (codes "AUTOEXECBAT") (codes "AUTOEXEC.BAT")
    && (named_as (codes "FOO     BAR") (codes "FOO.BAR")
        && named_as (codes "FUUU    SO ") (codes "FUUU.SO"))

-- A name set in the one block of `test_FCBFromFileName` after another, each with a dump.
dumps : List Bytes → Fcb → Bytes
dumps [] f = []
dumps (name ∷ names) f =
    let g = set_name_ext (some name) f in dump (to_bytes g) fcb_size ++ dumps names g

abbrev pub fcb_names : List Bytes
fcb_names =
    codes "foo.bar"
    ∷ codes "foo.b"
    ∷ codes "foo."
    ∷ codes "foo"
    ∷ codes ".e"
    ∷ codes ".err"
    ∷ codes "autoexec.bat"
    ∷ codes "/home/babor/autoexec.bat"
    ∷ codes "/home/babor/longnameislong.bat"
    ∷ codes "/home/babor/okname.longext"
    ∷ codes "okname.longext"
    ∷ []

unfoldable pub test_fcb_from_file_name : Bool × Bytes
unfolding dumps
test_fcb_from_file_name = (true, dumps fcb_names blank_fcb)

-- `m_req`, with a name set in its block
abbrev pub request_for : Bytes → Request
request_for name = record zero_request { block = set_name_ext (some name) blank_fcb }

-- `dump(info, m_res->GetDMA(), m_res->GetDMASize())`
dump_sized : Option Bytes → Option ℕ → Run Bytes
dump_sized (some bs) (some n) = if leb n (length bs) then done (dump bs n) else fault
dump_sized bs size = fault

-- `test_searchFirstDirent`: its result and what it dumps
unfoldable pub test_search_first_dirent : Host → World → Run (Bool × Bytes × World)
unfolding dump_sized
test_search_first_dirent host w = do
  (res, w1) ← find_first host (request_for (codes "A.???")) w
  text ← dump_sized res.dma_buf res.dmasize
  done (true, text, w1)

-- `test_searchFirst`; the response of the first call is used again.
unfoldable pub test_search_first : Host → World → Run (Bool × World)
test_search_first host w = do
  (res, w1) ← find_first host (request_for (codes "AUTOEXEC.???")) w
  (res2, w2) ← find_first host (request_for (codes "NOSUCH.FIL")) w1
  done (true, w2)

-- The names that `test_dosglob` matches under its two patterns.
abbrev pub any_names : List Bytes
any_names =
    codes "a.b"
    ∷ codes "autoexec.com"
    ∷ codes "turbo.com"
    ∷ codes "noext."
    ∷ codes ".ext"
    ∷ codes ""
    ∷ []

abbrev pub com_names : List Bytes
com_names = take 5 any_names

-- `test_dosglob`: its result, the verdicts under the first and the second pattern, and the names of the
-- directory listed. Of the twelve characters given to `SearchFirst` eleven are copied.
unfoldable pub test_dosglob : ℕ → Host → Files → Run (Bool × List Bool × List Bool × List Bytes)
test_dosglob fuel host files = do
  let any = set_pattern (codes "???????????") fresh_globor
  let ending = set_pattern (codes "????????COM") any
  listed ← session fuel (host.listing files) (take 11 (codes "????????????")) ending
  elim listed [
    | none ↦ running
    | some names ↦
        done (true, map (match any.pattern) any_names, map (match ending.pattern) com_names, names)
  ]

-- `testSuite`
unfoldable pub test_suite : ℕ → Host → World → Run (Bool × World)
test_suite fuel host w =
    if test_file_name_from_pcb && test_fcb_from_file_name.0
    then (do
      (dirent, text, w1) ← test_search_first_dirent host w
      (first, w2) ← (if dirent then test_search_first host w1 else done (false, w1))
      (glob, any, ending, names) ←
          (if first then test_dosglob fuel host w2.files else done (false, [], [], []))
      done (glob, w2))
    else done (false, w)
