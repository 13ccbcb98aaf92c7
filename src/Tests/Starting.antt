-- ===== src/Tests/Starting.antt =====
-- Runs of the commands from the opening of the port on, and of the test suites.
use yamashnik.Prelude.{
  ℕ, ◌≡◌, refl, true, [], ◌∷◌, ◌++◌, Option, none, some, Bytes, replicate, length-replicate, arith,
  inl, Run, done, ◌>>=◌, codes, if◌then◌else◌,
}
use yamashnik.Serial.{silence}
use yamashnik.Serial.Setup.{Terminal, serial_port}
use yamashnik.BasicSend.Exchange.{script, command_frame}
use yamashnik.Tests.Answering.{prompt, prompts-All, new_sender, bin_file-IsBin}
use yamashnik.Tests.Data.{test_host, test_files}
use yamashnik.Tests.Sending.{images, images-start, bin_file}
use yamashnik.Tests.Serving.{visits, read_call-IsCall, test_server}
use yamashnik.Serve.Session.{stream, session, Refines}
use yamashnik.Serve.{Server}
use yamashnik.Globor.{equal}
use yamashnik.Spy.{Machine, Spy, spy_command, serving, new_transport, new_world}
use yamashnik.Spy.Session.{spy_command-Refines}
use yamashnik.Bootstrap.{
  in_directory, strap_on, init_data, extract_exe_path, before_slash, load_file, load_content,
  loaded, path_of, width_command,
}
use yamashnik.Bootstrap.Remote.{Memory, remote, for_command, launched}
use yamashnik.Bootstrap.Upload.{uploaded}
use yamashnik.Bootstrap.Launch.{programmed}
use yamashnik.BasicSend.BinSent.{IsBinSent, bin_memory}

-- A terminal that opens every device and has nothing to flush, and one that opens none.
abbrev open_terminal : Terminal
open_terminal = record {
  open_device = λ device. some 3;
  cs8 = 0x30;
  parenb = 0x100;
  clocal = 0x800;
  cread = 0x80;
  flushed = λ events. events;
}

abbrev no_terminal : Terminal
no_terminal = record open_terminal { open_device = λ device. none }

-- The files beside the program `./m`
abbrev paths : Bytes → Option Bytes
paths name =
    if equal name (codes "./memory.ram")
    then some images.ram
    else if equal name (codes "./spy_bdos_e900.ram")
    then some images.bdos
    else if equal name (codes "./spy_bootstrap.bin")
    then some (0xfe ∷ bin_file)
    else none

abbrev machine : Machine
machine = record {
  sys = open_terminal;
  host = test_host;
  served = test_files;
  paths = paths;
  argv0_found = true;
  which = none;
  transport_memory = test_server.line.self;
  sender_memory = new_sender;
  bin_buf = replicate 100 0;
}

abbrev spy : Spy
spy = record {
  serial = record {
    fd = some 3;
    settings = none;
    port = record {
      sent = [];
      input = script (replicate 6 prompt) (stream visits ++ silence ∷ []);
    };
  };
  argv0 = codes "./m";
  student = 3;
  names = [];
}

abbrev no_machine : Machine
no_machine = record machine { sys = no_terminal }

abbrev no_spy : Spy
no_spy = record spy { serial = serial_port no_terminal (codes "/dev/none") [] }

strap_on_found : paths (in_directory (codes ".") strap_on) ≡ some (0xfe ∷ bin_file)
unfolding equal
strap_on_found = refl

located : extract_exe_path (codes "./m") true none ≡ done (codes ".")
unfolding extract_exe_path before_slash
located = refl

images_found : init_data (codes ".") paths ≡ done (some images)
unfolding init_data load_file load_content loaded equal path_of
images_found = refl

spy_command-Refines_example :
    (boot : Bytes) × (memory : Bytes) × (run : Run Server) × IsBinSent 3 bin_file
      (bin_memory bin_file machine.bin_buf)
      boot
    × ((mem : Memory)
        → remote memory for_command mem
          ≡ (launched, programmed (codes ".") paths [] (uploaded images 0x100 0x110 mem)))
    × (spy_command machine 4 3 spy ≡ (run >>= λ s. done (serving s)))
    × Refines
        ([] ++ ((command_frame 3 width_command ++ boot) ++ memory))
        (silence ∷ [])
        run
        (session test_host 3 visits (new_transport test_server.line.self).rq (new_world machine))
spy_command-Refines_example =
    spy_command-Refines machine 4 3 (codes ".") bin_file images spy (replicate 6 prompt)
      (stream visits ++ silence ∷ []) visits (silence ∷ []) located images_found refl strap_on_found
      bin_file-IsBin (omega arith) (omega arith) (length-replicate {A = ℕ} 65536 0) (omega arith)
      (omega arith) (omega (arith, images-start)) (omega arith) (length-replicate {A = ℕ} 1024 0)
      (length-replicate {A = ℕ} 65536 0) refl refl (prompts-All 6) refl
      (tt, ((omega arith, inl refl), (read_call-IsCall, tt)))
