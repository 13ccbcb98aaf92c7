-- ===== src/Tests/Data.antt =====
-- A small served directory and a server, for the runs.
use yamashnik.Globor.{Globor, unset}
use yamashnik.Bdos.State.{World}
use yamashnik.Request.{Request}
use yamashnik.Fcb.{Fcb, blank_fcb}
use yamashnik.Disk.{Files, Host, put}
use yamashnik.Prelude.{some, [], ◌∷◌, Bytes, replicate, none, true, ◌++◌}

-- `A.C`, 130 bytes long.
abbrev pub a_c : Bytes
a_c = b'A' ∷ b'.' ∷ b'C' ∷ []

abbrev pub long_file : Bytes
long_file = replicate 130 7

-- Every name may be used; the directory lists the one file, and `stat` fails.
abbrev pub test_host : Host
test_host = record {
  allowed = λ name. true;
  listing = λ files. some (a_c ∷ []);
  modified = λ files name. none;
}

abbrev pub no_files : Files
no_files = λ name. none

abbrev pub test_files : Files
test_files = put a_c (some long_file) no_files

abbrev pub test_globor : Globor
test_globor = record { pattern = []; dir = unset }

abbrev pub test_world : World
test_world = record {
  bdos = record { disk = 0; globor = test_globor; last_request = none };
  files = test_files;
}

-- The block of `A.C`.
abbrev pub test_block : Fcb
test_block = record blank_fcb {
  name_ext = b'A' ∷ replicate 7 b' ' ++ b'C' ∷ replicate 2 b' ';
  file_size = 130;
}

abbrev pub test_request : Request
test_request = record {
  block = test_block;
  dma_buf = replicate 128 9;
  dmasize = 128;
  aux = replicate 8 0;
  func = 0x06;
  rxpattern = [];
  rxcursor = 0;
  datacursor = 0;
  bufoffset = 0;
}
