-- ===== src/Tests/Sending.antt =====
-- Runs of the senders of files and programs.
use yamashnik.Prelude.{
  ℕ, ◌+◌, ◌*◌, ◌-◌, ◌≡◌, refl, [], ◌∷◌, ◌++◌, Bytes, some, replicate, length-replicate, arith, inl,
  take, fault, done,
}
use yamashnik.Serial.{Device, arrived}
use yamashnik.Serial.Silence.{silences}
use yamashnik.Serial.Wait.{Safely}
use yamashnik.Sender.{Sender}
use yamashnik.Ncopy.{ping_pong, send_file}
use yamashnik.Sender.Answered.{IsReply, Replied}
use yamashnik.Ncopy.Ping.{ping_pong-Replied, pings}
use yamashnik.Ncopy.Sent.{ContentSent}
use yamashnik.Ncopy.File.{send_file-Sent}
use yamashnik.BasicSend.{Basic, send_blocks}
use yamashnik.BasicSend.Files.{send_bin}
use yamashnik.BasicSend.Blocks.{BlocksSent, send_blocks-Sent}
use yamashnik.BasicSend.Bin.{send_bin-overrun}
use yamashnik.Bootstrap.{Images, bdos_start}

-- A short answer of the workstation.
abbrev pub pong : Bytes
pong = 0xf0 ∷ 0 ∷ 1 ∷ 8 ∷ 0x83 ∷ []

pub pong-IsReply : IsReply pong
pong-IsReply = record { some_bytes = omega arith; short = omega arith; marked = inl refl }

-- A workstation that answers the second ping.
abbrev pinged : Device Sender
pinged = record {
  port = record { sent = []; input = silences (1 * 50 + 3) ++ (arrived pong ∷ []) };
  self = record {
    buf = replicate 1024 0;
    pos = 0;
    rx_data = record { h = 0; f = 0; a = 0; fcb = replicate 37 0 };
  };
}

ping_pong-Replied_example :
    (d' : Device Sender) × (ping_pong 2 5 pinged ≡ done d') × Replied ([] ++ pings 5 2) [] d'
ping_pong-Replied_example =
    ping_pong-Replied 2 1 3 5 pong [] pinged (omega arith) (omega arith) refl pong-IsReply
      (length-replicate {A = ℕ} 1024 0)

send_file-Sent_example :
    Safely
      (ContentSent 5 (b'A' ∷ []) (replicate 130 7) ([] ++ pings 5 2))
      (send_file 2 (b'A' ∷ []) (some (replicate 130 7)) 5 pinged)
send_file-Sent_example =
    send_file-Sent 2 1 3 5 (b'A' ∷ []) (replicate 130 7) pong [] pinged (omega arith) (omega arith)
      refl pong-IsReply (length-replicate {A = ℕ} 1024 0) tt

send_blocks-Sent_example : Safely (BlocksSent 5 (take (0x146 + 1 - 0x100) (replicate 100 1)) []) (
    send_blocks 5 0x100 0x146
      (replicate 100 1)
      (record pinged { port = record { sent = []; input = [] } }))
send_blocks-Sent_example =
    send_blocks-Sent 5 0x100 0x146 (replicate 100 1)
      (record pinged { port = record { sent = []; input = [] } }) (omega arith) (omega arith)
      (omega (arith, length-replicate {A = ℕ} 100 1)) (length-replicate {A = ℕ} 1024 0) tt

abbrev idle : Basic
idle = record { line = pinged; bin_buf = replicate 10 0 }

-- A BIN file for 0x100 to 0x110, and a `binBuf` of ten bytes.
abbrev pub bin_file : Bytes
bin_file = 0 ∷ 1 ∷ 0x10 ∷ 1 ∷ 0 ∷ 1 ∷ replicate 16 5

send_bin-overrun_example : send_bin 2 5 bin_file idle ≡ fault
send_bin-overrun_example = send_bin-overrun 2 5 bin_file idle (omega arith) (omega arith)

abbrev pub images : Images
images = record { ram = replicate 65536 0; bdos = 0xc3 ∷ 0 ∷ 0xe9 ∷ [] }

pub images-start : bdos_start images.ram ≡ 0
unfolding bdos_start
images-start = refl
