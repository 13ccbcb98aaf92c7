-- ===== src/Msxnet/Commands.antt =====
-- The commands that open a port of their own: `ping` and `sendCommand` of sw/spyvspy/msxnet.cpp, `ncopy` of
-- ncopy.cpp, and the constructor of `BasicSender` of basicsend.h.
use yamashnik.Prelude.{ℕ, List, Option, Bytes, Run, done, exited, ◌>>=◌}
use yamashnik.Serial.{Device}
use yamashnik.Serial.Setup.{Terminal, SerialPort, setup, if_set_up}
use yamashnik.Sender.{Sender}
use yamashnik.Ncopy.{ncopy}
use yamashnik.BasicSend.Files.{net_send}
use yamashnik.Msxnet.{ping, send_command}

-- Packets on an open port, by a sender whose members the constructor leaves as the memory holds them
unfoldable pub with_sender :
    Sender → (Device Sender → Run (Device Sender)) → SerialPort → Run SerialPort
with_sender memory work sp = do
  d ← work (record { port = sp.port; self = memory })
  done (record sp { port = d.port })

-- `Setup`, and `eggog` where it fails
unfoldable pub open_or_exit : Terminal → (SerialPort → Run SerialPort) → SerialPort → Run SerialPort
open_or_exit sys work sp = if_set_up (setup sys sp) work (λ sp1. exited)

-- `ping(port, studentNo)`, after some rounds of its loop
unfoldable pub ping_command : Terminal → Sender → ℕ → ℕ → ℕ → SerialPort → Run SerialPort
unfolding open_or_exit with_sender
ping_command sys memory fuel student rounds =
    open_or_exit sys (with_sender memory (ping fuel student rounds))

-- `sendCommand(port, studentNo, command)`
unfoldable pub command_command : Terminal → Sender → ℕ → ℕ → Bytes → SerialPort → Run SerialPort
unfolding open_or_exit with_sender
command_command sys memory fuel student command =
    open_or_exit sys (with_sender memory (send_command fuel student command))

-- `ncopy(port, studentNo, nfiles, file)`
unfoldable pub ncopy_command :
    Terminal → Sender → ℕ → (Bytes → Option Bytes) → ℕ → List Bytes → SerialPort → Run SerialPort
unfolding open_or_exit with_sender
ncopy_command sys memory fuel files student names =
    open_or_exit sys (with_sender memory (ncopy fuel files student names))

-- `BasicSender(port, studentNo, nfiles, file)`, with what the global buffer holds
unfoldable pub basic_sender :
    Terminal
    → Sender
    → Bytes
    → ℕ
    → (Bytes → Option Bytes)
    → ℕ
    → List Bytes
    → SerialPort
    → Run SerialPort
basic_sender sys memory buf fuel files student names sp =
    if_set_up (setup sys sp)
      (λ sp1.
        net_send fuel files student names
          (record { line = record { port = sp1.port; self = memory }; bin_buf = buf })
        >>= λ s. done (record sp1 { port = s.line.port }))
      (λ sp1. done sp1)
