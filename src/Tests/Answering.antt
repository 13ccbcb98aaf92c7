-- ===== src/Tests/Answering.antt =====
-- Programs and files that are sent to a workstation that answers each packet.
use yamashnik.Prelude.{
  ℕ, zero, suc, ◌≡◌, refl, [], ◌∷◌, ◌++◌, Option, some, Bytes, replicate, length-replicate, arith,
  All, done, codes, if◌then◌else◌, length, true, inl,
}
use yamashnik.Serial.{silence}
use yamashnik.Sender.{Sender}
use yamashnik.Sender.Answered.{Replied}
use yamashnik.BasicSend.{Basic}
use yamashnik.BasicSend.Files.{send_rom, net_send}
use yamashnik.BasicSend.Exchange.{Turn, IsTurn, script}
use yamashnik.BasicSend.RomSent.{IsRom, send_rom-IsRom}
use yamashnik.Serial.{Device, arrived}
use yamashnik.Serial.Silence.{silences}
use yamashnik.Ncopy.{send_file, ncopy}
use yamashnik.Ncopy.Copied.{Copies, copy, no_copy, copy_turns, CopiesSent, ncopy-CopiesSent}
use yamashnik.Ncopy.Ping.{pings}
use yamashnik.Ncopy.Sent.{ContentSent}
use yamashnik.Ncopy.Heard.{IsPrompt}
use yamashnik.Ncopy.File.{send_file-ContentSent}
use yamashnik.Tests.Sending.{pong, pong-IsReply, bin_file}
use yamashnik.Globor.{equal}
use yamashnik.BasicSend.BinSent.{IsBin}
use yamashnik.BasicSend.BasicSent.{IsBasic}
use yamashnik.BasicSend.NetSent.{
  Programs, program, no_program, bin, basic, AllSent, all_turns, net_send-AllSent,
}

abbrev pub prompt : Turn
prompt = record { silent = 0; reply = pong }

prompt-IsTurn : IsTurn prompt
prompt-IsTurn = record { few = omega arith; is_reply = pong-IsReply }

pub prompts-All : (n : ℕ) → All IsTurn (replicate n prompt)
prompts-All zero = tt
prompts-All (suc n) = (prompt-IsTurn, prompts-All n)

abbrev pub new_sender : Sender
new_sender = record {
  buf = replicate 1024 0;
  pos = 0;
  rx_data = record { h = 0; f = 0; a = 0; fcb = replicate 37 0 };
}

abbrev rom_file : Bytes
rom_file = replicate 8192 0x41

abbrev rom_line : Basic
rom_line = record {
  line = record {
    port = record { sent = []; input = script (replicate 152 prompt) (silence ∷ []) };
    self = new_sender;
  };
  bin_buf = replicate 16500 0;
}

send_rom-IsRom_example :
    (s' : Basic) × (send_rom 1 5 rom_file rom_line ≡ done (true, s'))
    × ((bs : Bytes) × IsRom 5 rom_file bs × Replied ([] ++ bs) (silence ∷ []) s'.line)
send_rom-IsRom_example =
    send_rom-IsRom 1 5 rom_file (replicate 152 prompt) (silence ∷ []) rom_line (omega arith)
      (inl (length-replicate {A = ℕ} 8192 0x41)) (omega (arith, length-replicate {A = ℕ} 16500 0))
      refl (prompts-All 152) refl (length-replicate {A = ℕ} 1024 0)

-- A workstation that lets one ping pass.
prompt-IsPrompt : (n : ℕ) → All IsPrompt (replicate n prompt)
prompt-IsPrompt zero = tt
prompt-IsPrompt (suc n) = (record { few = omega arith; is_reply = pong-IsReply }, prompt-IsPrompt n)

abbrev copying : Device Sender
copying = record {
  port = record {
    sent = [];
    input = silences 53 ++ (arrived pong ∷ script (replicate 6 prompt) (silence ∷ []));
  };
  self = new_sender;
}

send_file-ContentSent_example :
    (d' : Device Sender) × (send_file 2 (codes "A") (some (replicate 130 7)) 5 copying ≡ done d')
    × ContentSent 5 (codes "A") (replicate 130 7) ([] ++ pings 5 2) d'
    × (d'.port.input ≡ silence ∷ [])
send_file-ContentSent_example =
    send_file-ContentSent 2 1 3 5 (codes "A") (replicate 130 7) pong (replicate 6 prompt)
      (silence ∷ []) copying (omega arith) (omega arith) refl pong-IsReply refl (prompt-IsPrompt 6)
      (length-replicate {A = ℕ} 1024 0) (tt, tt)

abbrev texts : Bytes → Option Bytes
texts name = if equal name (codes "A") then some (replicate 130 7) else some []

texts-Copies : Copies texts (codes "A" ∷ codes "B" ∷ [])
unfolding equal
texts-Copies =
    copy (codes "A") (replicate 130 7) (codes "B" ∷ []) refl (copy (codes "B") [] [] refl no_copy)

texts-copy_turns : 10 ≡ copy_turns texts-Copies
unfolding copy_turns texts-Copies
texts-copy_turns = refl

abbrev copying_both : Device Sender
copying_both = record {
  port = record { sent = []; input = script (replicate 10 prompt) (silence ∷ []) };
  self = new_sender;
}

ncopy-CopiesSent_example :
    (d' : Device Sender) × (ncopy 1 texts 5 (codes "A" ∷ codes "B" ∷ []) copying_both ≡ done d')
    × CopiesSent 5 texts-Copies [] d'.port.sent
    × (d'.port.input ≡ silence ∷ [])
ncopy-CopiesSent_example =
    ncopy-CopiesSent 1 5 (omega arith) texts (codes "A" ∷ codes "B" ∷ []) texts-Copies
      (replicate 10 prompt) (silence ∷ []) copying_both texts-copy_turns (prompt-IsPrompt 10) refl
      (length-replicate {A = ℕ} 1024 0) (tt, tt)

pub bin_file-IsBin : IsBin bin_file 100
bin_file-IsBin = record {
  in_order = omega arith;
  below = omega arith;
  header = omega arith;
  room = omega arith;
}

-- A BIN file and a BASIC program
abbrev basic_file : Bytes
basic_file = 0xff ∷ replicate 20 7

basic_file-IsBasic : IsBasic basic_file 100
basic_file-IsBasic = record { some_bytes = omega arith; below = omega arith; room = omega arith }

abbrev programs : Bytes → Option Bytes
programs name = if equal name (codes "A") then some (0xfe ∷ bin_file) else some basic_file

programs-Programs : Programs programs 100 (codes "A" ∷ codes "B" ∷ [])
unfolding equal
programs-Programs =
    program (codes "A") (0xfe ∷ bin_file) (codes "B" ∷ []) refl (bin bin_file refl bin_file-IsBin) (
      program (codes "B") basic_file [] refl (basic (replicate 20 7) refl basic_file-IsBasic)
        no_program)

abbrev program_line : Basic
program_line = record {
  line = record {
    port = record { sent = []; input = script (replicate 10 prompt) (silence ∷ []) };
    self = new_sender;
  };
  bin_buf = replicate 100 0;
}

programs-all_turns : 10 ≡ all_turns programs-Programs
unfolding all_turns programs-Programs
programs-all_turns = refl

net_send-AllSent_example :
    (s' : Basic) × (net_send 1 programs 5 (codes "A" ∷ codes "B" ∷ []) program_line ≡ done s')
    × (length s'.bin_buf ≡ 100)
    × ((bs : Bytes) × AllSent 5 programs-Programs program_line.bin_buf bs
        × Replied ([] ++ bs) (silence ∷ []) s'.line)
net_send-AllSent_example =
    net_send-AllSent 1 5 programs (codes "A" ∷ codes "B" ∷ []) program_line programs-Programs
      (replicate 10 prompt) (silence ∷ []) (omega arith) programs-all_turns (prompts-All 10) refl
      (length-replicate {A = ℕ} 1024 0)
