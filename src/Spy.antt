-- ===== src/Spy.antt =====
-- The commands `--spy` and `--serve`: the class `Spy` of sw/spyvspy/spy.h and spy.cpp from its constructor
-- on, with `Bootstrap` and `Serve` behind `Setup` of the port.
pub mod Session
use yamashnik.Prelude.{
  ℕ, Bool, true, false, List, Option, none, some, Bytes, Run, done, ◌>>=◌, if◌then◌else◌,
}
use yamashnik.Fcb.{blank_fcb}
use yamashnik.Serial.Setup.{Terminal, SerialPort, setup, if_set_up}
use yamashnik.Sender.{Sender}
use yamashnik.BasicSend.{Basic}
use yamashnik.Disk.{Host, Files}
use yamashnik.Bdos.State.{World}
use yamashnik.Bdos.Suite.{fresh_bdos}
use yamashnik.Transport.{Transport, bootstrap}
use yamashnik.Bootstrap.{Images, extract_exe_path, init_data, bootstrap as boot_up}
use yamashnik.Serve.{Server, serve}

-- What the program runs on: the terminal, the directory that it serves, the files by their paths, and
-- whether `stat` finds `m_argv0` and `which` a path; and what the memory holds where the constructors
-- leave members, or the global buffer, as they are.
pub record Machine : Type 0 where
  pub sys : Terminal
  pub host : Host
  pub served : Files
  pub paths : Bytes → Option Bytes
  pub argv0_found : Bool
  pub which : Option Bytes
  pub transport_memory : Transport
  pub sender_memory : Sender
  pub bin_buf : Bytes

pub record Spy : Type 0 where
  pub serial : SerialPort
  pub argv0 : Bytes
  pub student : ℕ
  pub names : List Bytes

-- How `Bootstrap` or `Serve` goes on: it has returned 0, or the loop of `Serve` is in this state.
pub data Stage : Type 0 where
  returned : SerialPort → Stage
  serving : Server → Stage

-- `SpyTransport(&m_serial)`, and the request that `Serve` declares: of both only some members are set.
abbrev pub new_transport : Transport → Transport
new_transport t = record t { state = bootstrap; rq = record (t.rq) { block = blank_fcb } }

abbrev pub new_world : Machine → World
new_world m = record { bdos = fresh_bdos; files = m.served }

abbrev pub new_server : Machine → SerialPort → Server
new_server m sp = record {
  line = record { port = sp.port; self = new_transport m.transport_memory };
  world = new_world m;
}

-- `Serve`, after some rounds of its loop
unfoldable pub run_serve : Machine → ℕ → ℕ → Spy → Run Stage
run_serve m fuel rounds spy =
    if_set_up (setup m.sys spy.serial)
      (λ sp. serve m.host fuel spy.student rounds (new_server m sp) >>= λ s. done (serving s))
      (λ sp. done (returned sp))

-- The packet sender of the first phase, on the port of `Spy`
abbrev pub new_basic : Machine → SerialPort → Basic
new_basic m sp = record {
  line = record { port = sp.port; self = m.sender_memory };
  bin_buf = m.bin_buf;
}

-- `Bootstrap`, with the `Serve` that it ends in
unfoldable pub run_bootstrap : Machine → ℕ → ℕ → Bytes → Images → Spy → Run Stage
unfolding run_serve
run_bootstrap m fuel rounds dir images spy =
    if_set_up (setup m.sys spy.serial)
      (λ sp. boot_up fuel spy.student dir m.paths spy.names images (new_basic m sp) >>= λ (ok, s).
        let sp' : SerialPort = record sp { port = s.line.port } in
        if ok then run_serve m fuel rounds (record spy { serial = sp' }) else done (returned sp'))
      (λ sp. done (returned sp))

-- `initData`, and `work` where it returns 1, with the directory of the program and the images
unfoldable pub with_data : Machine → (Bytes → Images → Spy → Run Stage) → Spy → Run Stage
with_data m work spy = do
  dir ← extract_exe_path spy.argv0 m.argv0_found m.which
  found ← init_data dir m.paths
  elim found [ none ↦ done (returned spy.serial) | some images ↦ work dir images spy ]

-- `--spy`
unfoldable pub spy_command : Machine → ℕ → ℕ → Spy → Run Stage
unfolding with_data run_bootstrap
spy_command m fuel rounds = with_data m (run_bootstrap m fuel rounds)

-- `--serve`
unfoldable pub serve_command : Machine → ℕ → ℕ → Spy → Run Stage
unfolding with_data run_serve
serve_command m fuel rounds = with_data m (λ dir images. run_serve m fuel rounds)
