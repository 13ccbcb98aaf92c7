-- ===== src/Msxnet.antt =====
-- The command line: sw/spyvspy/msxnet.cpp. `getopt_long_only` is not modelled: its answers, one after
-- another, are an argument, and so is `atoi`. What is called is listed, in order, with its arguments.
pub mod Settle
pub mod Commands
use yamashnik.Prelude.{
  ℕ, zero, suc, Bool, true, false, List, [], ◌∷◌, ◌++◌, Bytes, codes, ◌==◌, if◌then◌else◌, Run,
  done, ◌>>=◌,
}
use yamashnik.Diags.{info, LogLevel, log_info, log_verbose, log_morbose}
use yamashnik.Serial.{Device}
use yamashnik.Packet.{sndcmd_packet}
use yamashnik.Sender.{Sender}
use yamashnik.Ncopy.{ping_pong}
use yamashnik.BasicSend.{answered}
use yamashnik.Util.{test_suite as file_name_tests}
use yamashnik.Disk.{Host, Files}
use yamashnik.Bdos.State.{World}
use yamashnik.Bdos.Suite.{test_suite, fresh_bdos}

-- The endless loop of `ping`, after some rounds
unfoldable pub ping : ℕ → ℕ → ℕ → Device Sender → Run (Device Sender)
ping fuel student zero d = done d
ping fuel student (suc rounds) d = ping_pong fuel student d >>= ping fuel student rounds

-- `sendCommand`, whose last answer is not looked at
unfoldable pub send_command : ℕ → ℕ → Bytes → Device Sender → Run (Device Sender)
send_command fuel student command d = do
  (got, d1) ← ping_pong fuel student d >>= answered (sndcmd_packet 0 student command)
  done d1

-- The lines of `halp`, each with its end
abbrev help_lines : List Bytes
help_lines =
    codes "Usage: msxnet [options] [command] file1 file2 ..."
    ∷ codes "  options:"
    ∷ codes "      --verbose|--morbose be verbose | be morbidly verbose"
    ∷ codes "      --port=path         path to serial port"
    ∷ codes "      --dst=number        target workstation address, 0 = broadcast (default 0)"
    ∷ codes "  commands:"
    ∷ codes "      --ping              ping workstation endlessly"
    ∷ codes "      --cpm               issue _CPM command at workstation"
    ∷ codes "      --ncopy             copy files to CP/M ramdisk"
    ∷ codes "      --send              send BIN, ROM or BASIC files"
    ∷ codes "      --spy <file>        bootstrap and run network MSX-DOS on the target"
    ∷ codes "      --serve             serve already bootstrapped target"
    ∷ []

-- What lines print, given the global `LogLevel`
print_lines : LogLevel → List Bytes → Bytes
print_lines level [] = []
print_lines level (l ∷ ls) = info level (l ++ 10 ∷ []) ++ print_lines level ls

-- `halp`
unfoldable pub halp : LogLevel → Bytes
unfolding print_lines
halp level = print_lines level help_lines

-- What `--test` does: a new `NetBDOS`, and its test suite behind that of the file names.
unfoldable pub run_tests : ℕ → Host → Files → Run (Bool × World)
run_tests fuel host files =
    let w : World = record { bdos = fresh_bdos; files = files } in
    if file_name_tests then test_suite fuel host w else done (false, w)

-- The option that `getopt_long_only` has found, with its argument; `other` is an error.
pub data Arg : Type 0 where
  verbose morbose cpm ping_it copy send spy test serve_it other : Arg
  port dst : Bytes → Arg

pub record Settings : Type 0 where
  pub level : LogLevel
  pub port_name : Bytes
  pub student : ℕ
  pub workdone : Bool

-- What `main` calls, as long as the calls return, with the port and the number of the workstation; the
-- files are what stands in `argv` behind the option when it is found.
pub data Call : Type 0 where
  help test_suites : Call
  boot_cpm ping_ever : Bytes → ℕ → Call
  copy_files send_files spy_on : Bytes → ℕ → List Bytes → Call
  serve_only : Bytes → ℕ → Call

-- How `main` ends: it falls off its end, it exits, or a call does not return.
pub data Ending : Type 0 where
  falls_off exits_well exits_badly stays : Ending

pub record Outcome : Type 0 where
  pub calls : List Call
  pub ending : Ending

abbrev call_then : Call → Outcome → Outcome
call_then c o = record o { calls = c ∷ o.calls }

abbrev ends_with : Call → Ending → Outcome
ends_with c e = record { calls = c ∷ []; ending = e }

-- A command over files ends the program; without files it is an error.
over_files : List Bytes → Call → Outcome
over_files [] c = record { calls = []; ending = exits_badly }
over_files (f ∷ fs) c = ends_with c exits_well

-- `studentNo`, where 0 is for all
unfoldable pub student_of : (Bytes → ℕ) → Bytes → ℕ
student_of atoi arg = if atoi arg == 0 then 127 else atoi arg

-- What a call of `getopt_long_only` gives: the option, and `argv` from the place on at which `optind` then
-- stands.
abbrev pub Found : Type 0
Found = Arg × List Bytes

-- The loop of `main`
unfoldable pub main_loop : (Bytes → ℕ) → List Found → Settings → Outcome
unfolding over_files
main_loop atoi [] s = record { calls = if s.workdone then [] else help ∷ []; ending = falls_off }
main_loop atoi ((verbose, files) ∷ args) s = main_loop atoi args (record s { level = log_verbose })
main_loop atoi ((morbose, files) ∷ args) s = main_loop atoi args (record s { level = log_morbose })
main_loop atoi ((port p, files) ∷ args) s = main_loop atoi args (record s { port_name = p })
main_loop atoi ((dst n, files) ∷ args) s =
    main_loop atoi args (record s { student = student_of atoi n })
main_loop atoi ((cpm, files) ∷ args) s =
    call_then (boot_cpm s.port_name s.student) (main_loop atoi args (record s { workdone = true }))
main_loop atoi ((ping_it, files) ∷ args) s = ends_with (ping_ever s.port_name s.student) stays
main_loop atoi ((copy, files) ∷ args) s = over_files files (copy_files s.port_name s.student files)
main_loop atoi ((send, files) ∷ args) s = over_files files (send_files s.port_name s.student files)
main_loop atoi ((spy, files) ∷ args) s =
    call_then (spy_on s.port_name s.student files) (main_loop atoi args s)
main_loop atoi ((serve_it, files) ∷ args) s =
    call_then (serve_only s.port_name s.student) (main_loop atoi args s)
main_loop atoi ((test, files) ∷ args) s =
    call_then test_suites (main_loop atoi args (record s { workdone = true }))
main_loop atoi ((other, files) ∷ args) s = record { calls = []; ending = exits_badly }

-- `/dev/ttyS0`
abbrev pub ioport : Bytes
ioport = b'/' ∷ b'd' ∷ b'e' ∷ b'v' ∷ b'/' ∷ b't' ∷ b't' ∷ b'y' ∷ b'S' ∷ b'0' ∷ []

-- `main`, from its first settings on
unfoldable pub main : (Bytes → ℕ) → List Found → Outcome
main atoi args =
    main_loop atoi args
      (record { level = log_info; port_name = ioport; student = 127; workdone = false })
