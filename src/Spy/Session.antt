-- ===== src/Spy/Session.antt =====
-- A workstation that is started and then served: `Bootstrap` of sw/spyvspy/spy.cpp with the `Serve` behind
-- it.
use yamashnik.Prelude.{
  ℕ, ◌+◌, ◌-◌, ◌≤◌, ◌<◌, ◌≡◌, ◌^◌, refl, ap, ◌∙◌, true, List, ◌∷◌, ◌++◌, some, Bytes, All, length,
  Run, done, ◌>>=◌, append_assoc,
}
use mathlib.Core.Path.{subst}
use yamashnik.Serial.{Event, transmit}
use yamashnik.Serial.Setup.{opened_port, setup_opened}
use yamashnik.BasicSend.{Basic}
use yamashnik.BasicSend.Files.{word_at}
use yamashnik.BasicSend.Exchange.{Turn, IsTurn, script, command_frame}
use yamashnik.BasicSend.Sections.{on_line}
use yamashnik.Bootstrap.{
  extract_exe_path, init_data, Images, bdos_start, in_directory, strap_on, width_command, bootstrap,
}
use yamashnik.Bootstrap.Remote.{Memory, remote, for_command, launched}
use yamashnik.Bootstrap.Upload.{uploaded}
use yamashnik.Bootstrap.Launch.{programmed, after_boot, bootstrap-launched}
use yamashnik.Bootstrap.Phase.{send_bootstrap-Exchange}
use yamashnik.BasicSend.BinSent.{IsBin, IsBinSent, bin_memory, bin_turns, bin_buffer}
use yamashnik.Serve.{Server, serve}
use yamashnik.Serve.Session.{Visit, IsVisit, stream, session, Refines, Account}
use yamashnik.Serve.Refine.{serve-Refines}
use yamashnik.Spy.{
  Machine, Spy, serving, new_transport, new_server, new_world, new_basic, run_serve, run_bootstrap,
  spy_command,
}

run_serve_opened :
    (m : Machine) (fuel rounds : ℕ) (spy : Spy) (fd : ℕ)
    → spy.serial.fd ≡ some fd
    → run_serve m fuel rounds spy ≡ (
        serve m.host fuel spy.student rounds (new_server m (opened_port m.sys spy.serial)) >>= λ s.
        done (serving s))
unfolding run_serve
run_serve_opened m fuel rounds spy fd h = rw (setup_opened m.sys spy.serial fd h) refl

-- `Bootstrap`, where its first two phases are known to end well.
run_bootstrap_opened :
    (m : Machine) (fuel rounds : ℕ) (dir : Bytes) (images : Images) (spy : Spy) (fd : ℕ) (s : Basic)
    → spy.serial.fd ≡ some fd
    → bootstrap fuel spy.student dir m.paths spy.names images
        (new_basic m (opened_port m.sys spy.serial))
      ≡ done (true, s)
    → run_bootstrap m fuel rounds dir images spy ≡ (
        serve m.host fuel spy.student rounds (
          new_server m
            (opened_port m.sys (record (opened_port m.sys spy.serial) { port = s.line.port })))
        >>= λ s. done (serving s))
unfolding run_bootstrap
run_bootstrap_opened m fuel rounds dir images spy fd s h e =
    rw (setup_opened m.sys spy.serial fd h, e)
      (run_serve_opened m fuel rounds
        (record spy { serial = record (opened_port m.sys spy.serial) { port = s.line.port } }) fd h)

-- For a program that finds its directory and both images, a port that can be opened, a BIN file of the
-- bootstrap code whose addresses are in order, fit `binBuf` and lie below 0xf380, images that fit, and
-- a line that brings, behind the first `Setup`, an answer in time to each packet, and behind the second one
-- visits that keep to the protocol: `--spy` sends the command for the screen, the code in its blocks, filled up
-- to the end address with what `binBuf` held where the file is shorter, and the command that runs it, and then bytes with which the workstation's loop launches with exactly the memory
-- that is meant; then it serves these visits, and ends as their account tells, from a new server on the
-- directory.
pub spy_command-Refines :
    (m : Machine) (fuel fd : ℕ) (dir code : Bytes) (images : Images) (spy : Spy) (ts : List Turn)
    (es : List Event) (vs : List Visit) (tail : List Event)
    → extract_exe_path spy.argv0 m.argv0_found m.which ≡ done dir
    → init_data dir m.paths ≡ done (some images)
    → spy.serial.fd ≡ some fd
    → m.paths (in_directory dir strap_on) ≡ some (0xfe ∷ code)
    → IsBin code (length m.bin_buf)
    → word_at code 0 < 0xf380
    → word_at code 2 < 0xf380
    → length images.ram ≡ 2 ^ 16
    → 0 < length images.bdos
    → length images.bdos ≤ 2 ^ 16 - 0xe900
    → bdos_start images.ram < 0xf380
    → 0 < fuel
    → length m.sender_memory.buf ≡ 1024
    → length m.transport_memory.rxbuf ≡ 65536
    → m.sys.flushed spy.serial.port.input ≡ script ts es
    → length ts ≡ 1 + bin_turns code
    → All IsTurn ts
    → m.sys.flushed es ≡ stream vs ++ tail
    → All (IsVisit fuel) vs
    → (boot : Bytes) × (memory : Bytes) × (run : Run Server) × IsBinSent spy.student code
        (bin_memory code m.bin_buf)
        boot
      × ((mem : Memory)
          → remote memory for_command mem ≡ (
            launched,
            programmed dir m.paths spy.names
                (uploaded images (word_at code 0) (word_at code 2) mem),
          ))
      × (spy_command m fuel (length vs) spy ≡ (run >>= λ s. done (serving s)))
      × Refines
          (spy.serial.port.sent ++ ((command_frame spy.student width_command ++ boot) ++ memory))
          tail
          run
          (session m.host spy.student vs (new_transport m.transport_memory).rq (new_world m))
unfolding spy_command
spy_command-Refines m fuel fd dir code images spy ts es vs tail located found opens there bin low
      high size some_bdos fits start enough buf room script_in count turns visits_in visits =
    let (boot, is_boot, exchange) =
      send_bootstrap-Exchange fuel spy.student enough code m.bin_buf bin in
    let (memory, two_phases, launch) =
      bootstrap-launched fuel spy.student dir m.paths spy.names images code
        (new_basic m (opened_port m.sys spy.serial)) there low high size some_bdos fits start in
    let (d, first, replied) =
      exchange ts es (new_basic m (opened_port m.sys spy.serial)).line count turns script_in buf in
    let port' = transmit memory d.port in
    let server : Server =
      new_server m (opened_port m.sys (record (opened_port m.sys spy.serial) { port = port' })) in
    let account : Run Account =
      session m.host spy.student vs (new_transport m.transport_memory).rq (new_world m) in
    (
      boot,
      memory,
      serve m.host fuel spy.student (length vs) server,
      is_boot,
      launch,
      rw (located, found)
          (run_bootstrap_opened m fuel (length vs) dir images spy fd
            (after_boot memory
              (some (word_at code 0, word_at code 2), on_line (bin_buffer code m.bin_buf) d)).1
            opens (two_phases ∙ ap (λ r. r >>= λ x. done (after_boot memory x)) first)),
      subst (λ t. Refines t tail (serve m.host fuel spy.student (length vs) server) account)
          (ap (λ t. t ++ memory) replied.written ∙ append_assoc spy.serial.port.sent _ memory)
          (serve-Refines m.host spy.student fuel vs tail server visits room
            (ap m.sys.flushed replied.input ∙ visits_in)),
    )
