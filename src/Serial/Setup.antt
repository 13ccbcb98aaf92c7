-- ===== src/Serial/Setup.antt =====
-- The opening of a port: the constructor and `Setup` of sw/spyvspy/serial.h and serial.cpp. What belongs
-- to the operating system is a parameter: what `open` answers, the bits of the flags, and what of the
-- input `tcflush` leaves.
use Prim.Native.Nat.{bit_or}
use yamashnik.Prelude.{ℕ, List, [], Option, none, some, Bytes, ◌≡◌, ap}
use yamashnik.Serial.{Event, Port}

-- `_SIO_ERR`
pub data SioErr : Type 0 where
  err_none err_nofile err_wtf : SioErr

pub record Terminal : Type 0 where
  -- The descriptor, or `none` for -1.
  pub open_device : Bytes → Option ℕ
  pub cs8 : ℕ
  pub parenb : ℕ
  pub clocal : ℕ
  pub cread : ℕ
  pub flushed : List Event → List Event

-- `BAUDRATE`
abbrev pub baudrate : ℕ
baudrate = 38400

-- `newtio`, with `VTIME` and `VMIN` of `c_cc`, and the two speeds
pub record Termios : Type 0 where
  pub cflag : ℕ
  pub iflag : ℕ
  pub oflag : ℕ
  pub lflag : ℕ
  pub vtime : ℕ
  pub vmin : ℕ
  pub ispeed : ℕ
  pub ospeed : ℕ

-- `m_fd`, the attributes that `tcsetattr` has set, if any, and the line behind the descriptor
pub record SerialPort : Type 0 where
  pub fd : Option ℕ
  pub settings : Option Termios
  pub port : Port

-- `SerialPort(device)`, given what the line will bring
unfoldable pub serial_port : Terminal → Bytes → List Event → SerialPort
serial_port sys device input = record {
  fd = sys.open_device device;
  settings = none;
  port = record { sent = []; input = input };
}

abbrev pub raw_settings : Terminal → Termios
raw_settings sys = record {
  cflag = bit_or (bit_or (bit_or (bit_or baudrate sys.cs8) sys.parenb) sys.clocal) sys.cread;
  iflag = 0;
  oflag = 0;
  lflag = 0;
  vtime = 0;
  vmin = 1;
  ispeed = baudrate;
  ospeed = baudrate;
}

-- The port when it is set up
abbrev pub opened_port : Terminal → SerialPort → SerialPort
opened_port sys sp = record sp {
  settings = some (raw_settings sys);
  port = record (sp.port) { input = sys.flushed sp.port.input };
}

setup_on : Terminal → Option ℕ → SerialPort → SioErr × SerialPort
setup_on sys none sp = (err_nofile, sp)
setup_on sys (some fd) sp = (err_none, opened_port sys sp)

-- `Setup`
unfoldable pub setup : Terminal → SerialPort → SioErr × SerialPort
unfolding setup_on
setup sys sp = setup_on sys sp.fd sp

-- `if (Setup() != ERR_NONE)`: what follows on the port, and what is done where it is not set up.
abbrev pub if_set_up {ℓ} :
    {A : Type ℓ} → SioErr × SerialPort → (SerialPort → A) → (SerialPort → A) → A
if_set_up (err_none, sp) work refuse = work sp
if_set_up (err_nofile, sp) work refuse = refuse sp
if_set_up (err_wtf, sp) work refuse = refuse sp

-- On a port that could not be opened nothing is set.
pub setup_refused :
    (sys : Terminal) (sp : SerialPort) → sp.fd ≡ none → setup sys sp ≡ (err_nofile, sp)
unfolding setup
setup_refused sys sp e = ap (λ o. setup_on sys o sp) e

pub setup_opened :
    (sys : Terminal) (sp : SerialPort) (fd : ℕ)
    → sp.fd ≡ some fd
    → setup sys sp ≡ (err_none, opened_port sys sp)
unfolding setup
setup_opened sys sp fd e = ap (λ o. setup_on sys o sp) e
