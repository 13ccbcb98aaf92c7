-- ===== src/Tests/Lines.antt =====
-- Runs of the packet sender.
use yamashnik.Serial.{Device, silence, arrived}
use yamashnik.Prelude.{Bytes, arith, List, [], replicate, ◌≡◌, ◌++◌, refl, ◌∷◌, inl, true, some}
use yamashnik.Sender.{Sender, check_packet, block_frame, send_packet_val}
use yamashnik.Packet.{NetFcb, net_fcb_bytes, master_data_packet}
use yamashnik.Wire.{header, send_header, send_escaped_byte, send_escaped_word}
use yamashnik.Wire.Cmd
use yamashnik.Sender.Pieces.{data_frames, IsCut}
use yamashnik.Sender.Master.{send_packet_val-master_data}
use yamashnik.Sender.Frame.{Framed, frame-Framed}
use yamashnik.Sender.{frame}
use yamashnik.Sender.Reply.{IsNetFcb, check_packet-block_frame}
use yamashnik.Serial.Wait.{Safely}

abbrev reply_block : NetFcb
reply_block = record { h = 1; f = 2; a = 3; fcb = replicate 37 0x20 }

abbrev idle : Sender
idle = record { buf = replicate 1024 0; pos = 0; rx_data = reply_block }

-- Silence, and then a terminator.
abbrev line : Device Sender
line = record {
  port = record { sent = []; input = silence ∷ arrived (0x83 ∷ []) ∷ [] };
  self = idle;
}

abbrev sixty : Bytes
sixty = replicate 60 5

send_packet_val-master_data_example :
    Safely
      (λ d'.
        (ps : List Bytes) × (d'.port.sent
          ≡ [] ++ data_frames (header 0 3 Cmd.base) Cmd.master_data ps)
        × IsCut sixty ps)
      (send_packet_val (master_data_packet 0 3 sixty 60) line)
send_packet_val-master_data_example =
    send_packet_val-master_data 0 3 sixty line (omega arith) refl (omega arith)

reply_block-IsNetFcb : IsNetFcb reply_block
reply_block-IsNetFcb = record {
  h = omega arith;
  f = omega arith;
  a = omega arith;
  size = refl;
  bytes = omega arith;
}

abbrev answered : Sender
answered = record idle {
  buf =
      block_frame (header 3 0 Cmd.base) Cmd.re_create_file (net_fcb_bytes reply_block) 40 0x83
      ++ 0 ∷ [];
}

check_packet-block_frame_example : (check_packet answered).rx_data ≡ reply_block
check_packet-block_frame_example =
    check_packet-block_frame 3 0 Cmd.re_create_file 0x83 (0 ∷ []) reply_block answered (inl refl)
      reply_block-IsNetFcb refl

abbrev poke_frame : Bytes
poke_frame =
    0xf0 ∷ 0x00 ∷ 0x07 ∷ 0x01 ∷ 0x00 ∷ 0x00 ∷ 0x5c ∷ 0x01 ∷ 0x40 ∷ 0x00 ∷ 0x00 ∷ 0x01 ∷ 0x7f ∷ 0x83
    ∷ []

poke_frame_lem : frame 0 7 Cmd.poke [] 0 0xc000 0xff true ≡ some poke_frame
unfolding frame send_header header send_escaped_byte send_escaped_word
poke_frame_lem = refl

frame-Framed_example : Framed poke_frame
frame-Framed_example =
    frame-Framed 0 7 Cmd.poke [] poke_frame 0 0xc000 0xff true (omega arith) (omega arith)
      (omega arith) (omega arith) tt poke_frame_lem
