-- ===== src/Tests/Changes.antt =====
-- Runs of the file services that change files, of random reads, and of what goes wrong.
use yamashnik.Bdos.Read.{record_at, sequential_read}
use yamashnik.Globor.{equal}
use yamashnik.Bdos.Sequential.{record_answer, next_block}
use yamashnik.Prelude.{
  ◌≡◌, done, none, refl, some, take, true, ◌≢◌, [], arith, ℕ, ◌++◌, ◌∷◌, ap, replicate, get_or,
}
use yamashnik.Disk.{fopen, put}
use yamashnik.Bdos.Exec.{exec_func, exec}
use yamashnik.Request.{Request, word}
use yamashnik.Response.{Response, respond, set_aux_data, fresh_response}
use yamashnik.Bdos.State.{World, newline}
use yamashnik.Fcb.{
  Fcb, get_extent, get_file_name, extract_file_name, from_bytes, get_file_name2, to_bytes,
}
use yamashnik.Request.Table.{func_of, unknown}
use yamashnik.Bdos.Write.{delete_file, rename_file, create_file, random_write}
use yamashnik.Bdos.Read.{random_read}
use yamashnik.Bdos.Drive.{get_login_vector}
use yamashnik.Tests.Data.{long_file, test_host, test_world, test_block, test_request}
use yamashnik.Bdos.Store.{Stored, random_write-Stored}
use yamashnik.Bdos.Change.{
  Results, SameBut, delete_file-Results, rename_file-Results, create_file-Results,
}
use yamashnik.Bdos.WriteRead.{read_back, random_write-sequential_read}
use yamashnik.Bdos.Random.{random_read_record}
use yamashnik.Bdos.Emit.{Emits, exec_func-Emits}

file_opens : fopen test_host (get_file_name test_block) test_world.files ≡ some long_file
unfolding fopen get_file_name extract_file_name yamashnik.Fcb.c_string put equal
    yamashnik.Fcb.until_space
file_opens = refl

random_write-Stored_example :
    (r : Response) × (w' : World) × (random_write true test_host test_request test_world
      ≡ done (r, w'))
    × Stored test_host true test_request long_file test_world.files w'.files
random_write-Stored_example =
    random_write-Stored true test_host test_request test_world long_file file_opens (omega arith)
      (record { lo = omega arith; hi = omega arith; current = omega arith })

delete_file-Results_example :
    Results 0
      (λ new.
        (fopen test_host (get_file_name test_block) new ≡ none)
        × SameBut test_host
            (get_file_name test_block)
            (get_file_name test_block)
            test_world.files
            new)
      (delete_file test_host test_request test_world)
delete_file-Results_example =
    delete_file-Results test_host test_request test_world long_file file_opens

-- The request to rename `A.C` to `B.C`: the second name stands from the size's second byte on.
abbrev renaming : Request
renaming = record test_request {
  block = from_bytes (
      take 17 (to_bytes test_block)
      ++ (b'B' ∷ replicate 7 b' ' ++ b'C' ∷ replicate 2 b' ')
      ++ replicate 16 0);
}

renaming_opens : fopen test_host (get_file_name renaming.block) test_world.files ≡ some long_file
unfolding fopen get_file_name extract_file_name yamashnik.Fcb.c_string put equal
    yamashnik.Fcb.until_space from_bytes to_bytes
renaming_opens = refl

renaming_apart : get_file_name renaming.block ≢ get_file_name2 renaming.block
unfolding get_file_name get_file_name2 extract_file_name yamashnik.Fcb.c_string
    yamashnik.Fcb.until_space from_bytes to_bytes
renaming_apart e = let first : ◌≡◌ {A = ℕ} 65 66 = ap (λ n. get_or n 0 0) e in absurd (omega arith)

rename_file-Results_example :
    Results 0
      (λ new.
        (fopen test_host (get_file_name2 renaming.block) new ≡ some long_file)
        × (fopen test_host (get_file_name renaming.block) new ≡ none)
        × SameBut test_host
            (get_file_name renaming.block)
            (get_file_name2 renaming.block)
            test_world.files
            new)
      (rename_file test_host renaming test_world)
rename_file-Results_example =
    rename_file-Results test_host renaming test_world long_file renaming_opens refl renaming_apart

first_extent : get_extent test_block ≡ 0
unfolding get_extent
first_extent = refl

create_file-Results_example :
    Results 0
      (λ new.
        (fopen test_host (get_file_name test_block) new ≡ some [])
        × SameBut test_host
            (get_file_name test_block)
            (get_file_name test_block)
            test_world.files
            new)
      (create_file test_host test_request test_world)
create_file-Results_example =
    create_file-Results test_host test_request test_world refl first_extent

-- The second record of the file.
abbrev second : Request
second = record test_request { block = record test_block { random_record = 1 } }

random_read_record_example :
    (f : Fcb) × (random_read test_host second test_world
      ≡ done (record_answer (record_at 128 long_file) f 0, newline second test_world))
    × (get_extent f ≡ 0)
    × (f.current_record ≡ 128)
unfolding get_file_name
random_read_record_example =
    random_read_record test_host second test_world long_file file_opens (omega arith) (omega arith)
      (omega arith)

-- The login vector.
abbrev login : Request
login = record test_request { func = 0x0a }

abbrev login_answer : Response
login_answer = respond (word ∷ []) (set_aux_data 0 1 fresh_response)

login_known : func_of login.func ≢ unknown
unfolding func_of
login_known e = cc e

login_done : exec_func test_host login test_world ≡ done (login_answer, newline login test_world)
unfolding exec_func func_of exec get_login_vector
login_done = refl

exec_func-Emits_example : Emits login_answer
exec_func-Emits_example =
    exec_func-Emits test_host login test_world (newline login test_world) login_answer login_known
      login_done

random_write-sequential_read_example :
    (r : Response) × (w' : World) × (g : Fcb) × (random_write true test_host test_request test_world
      ≡ done (r, w'))
    × (r.block ≡ some g)
    × (sequential_read test_host (read_back test_request g) w'
        ≡ done (
          record_answer
              (take 128 test_request.dma_buf)
              (next_block (read_back test_request g).block)
              0,
          newline (read_back test_request g) w',
        ))
random_write-sequential_read_example =
    random_write-sequential_read test_host test_request test_world long_file file_opens
      (record { lo = omega arith; hi = omega arith; current = omega arith }) (omega arith) refl
      (omega arith)
