-- ===== src/Tests/Reads.antt =====
-- Runs of the file services on a file of 130 bytes.
use yamashnik.Globor.{equal}
use yamashnik.Disk.{fopen, put}
use yamashnik.Fcb.{Fcb, get_file_name, extract_file_name}
use yamashnik.Bdos.Read.{sequential_read, record_at}
use yamashnik.Bdos.State.{advance, newline}
use yamashnik.Prelude.{arith, ◌≡◌, done, some, ◌*◌, if◌then◌else◌, ltb, refl, length}
use yamashnik.Tests.Data.{long_file, test_host, test_world, test_block, test_request}
use yamashnik.Bdos.Position.{IsPlaced, position, IsNext, advance-IsNext}
use yamashnik.Bdos.Sequential.{record_answer, next_block, sequential_read_record}
use yamashnik.Bdos.Scan.{read_all, whole_records, read_all-whole}

test_open : fopen test_host (get_file_name test_block) test_world.files ≡ some long_file
unfolding fopen get_file_name extract_file_name yamashnik.Fcb.c_string put equal
    yamashnik.Fcb.until_space
test_open = refl

test-IsPlaced : IsPlaced test_block
test-IsPlaced = record { lo = omega arith; hi = omega arith; current = omega arith }

-- The last record of an extent.
abbrev last_block : Fcb
last_block = record test_block { current_record = 127 }

advance-IsNext_example : IsNext last_block (advance last_block)
advance-IsNext_example =
    advance-IsNext last_block (record { lo = omega arith; hi = omega arith; current = omega arith })
      (omega arith)

sequential_read_record_example :
    sequential_read test_host test_request test_world
    ≡ done (
      record_answer
          (record_at (128 * position test_block) long_file)
          (next_block test_block)
          (if ltb (128 * position test_block) (length long_file) then 0 else 1),
      newline test_request test_world,
    )
sequential_read_record_example =
    sequential_read_record test_host test_request test_world long_file test_open test-IsPlaced refl

read_all-whole_example :
    read_all 3 test_host test_request test_world ≡ done (some (whole_records long_file))
read_all-whole_example =
    read_all-whole 3 test_host test_request test_world long_file test_open test-IsPlaced refl refl
      (omega arith) (omega arith)
