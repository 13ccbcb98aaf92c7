-- ===== src/Ncopy/Copy.antt =====
-- What `sendFile` of sw/spyvspy/ncopy.cpp sends.
use yamashnik.Prelude.{
  ℕ, ◌<◌, ◌≡◌, refl, ap, Bool, true, false, List, [], ◌∷◌, ◌++◌, Bytes, arith, length, take, done,
  exited, ◌>>=◌,
}
use yamashnik.Wire.{header, last_mark}
use yamashnik.Wire.Cmd
use yamashnik.Serial.{Device, transmit}
use yamashnik.Serial.Wait.{Safely, Safely-map, Safely->>=}
use yamashnik.Packet.{
  NetFcb, net_fcb, net_fcb_bytes, Packet, create_file_packet, write_file_packet, close_file_packet,
  master_data_packet, net_fcb_packet,
}
use yamashnik.Sender.{
  Sender, send_packet_val, receive_packet, send_packet, block_frame, frame, send_frame,
}
use yamashnik.Sender.Master.{master_data_frames, send_packet_val-InBuffer}
use yamashnik.Sender.Ready.{
  Ready, InBuffer-Ready, Ready-assoc, Takes, sent-Ready, receive_packet-Ready,
}
use mathlib.Core.Path.{subst}
use yamashnik.Ncopy.{acknowledged}

-- The frame of a packet that carries a control block.
abbrev pub fcb_frame : ℕ → ℕ → NetFcb → Bytes
fcb_frame student cmd x =
    block_frame (header 0 student Cmd.base) cmd (take 40 (net_fcb_bytes x)) 40 last_mark

pub create-Takes :
    (student : ℕ) (name : Bytes)
    → Takes
        (create_file_packet 0 student name)
        (fcb_frame student Cmd.create_file (net_fcb 0 0 0 name))
unfolding send_packet_val send_packet frame send_frame net_fcb_packet create_file_packet
create-Takes student name d = refl

pub write-Takes :
    (student : ℕ) (x : NetFcb)
    → Takes (write_file_packet 0 student x) (fcb_frame student Cmd.write_file x)
unfolding send_packet_val send_packet frame send_frame net_fcb_packet write_file_packet
write-Takes student x d = refl

pub close-Takes :
    (student : ℕ) (x : NetFcb)
    → Takes (close_file_packet 0 student x) (fcb_frame student Cmd.close_file x)
unfolding send_packet_val send_packet frame send_frame net_fcb_packet close_file_packet
close-Takes student x d = refl

pub acknowledged-Ready :
    (p : Packet) (bs sent : Bytes) (d : Device Sender)
    → Takes p bs
    → Ready sent d
    → Safely (Ready (sent ++ bs)) (acknowledged p d)
unfolding acknowledged
acknowledged-Ready p bs sent d takes h =
    let d1 : Device Sender = record d { port = transmit bs d.port } in
    rw (takes d) (
      Safely->>= (λ r. Ready (sent ++ bs) r.1) (Ready (sent ++ bs)) (receive_packet d1) _
        (receive_packet-Ready (sent ++ bs) d1 (sent-Ready bs sent d h))
        λ (got, d2) k. answered got d2 k)
  where
    answered :
        (got : Bool) (d2 : Device Sender)
        → Ready (sent ++ bs) d2
        → Safely (Ready (sent ++ bs)) (elim got [ true ↦ done d2 | false ↦ exited ])
    answered true d2 k = k
    answered false d2 k = tt

-- The packets of the sectors, each with the block in which the workstation has last answered.
abbrev pub sector_frames : ℕ → List (Bytes × NetFcb) → Bytes
sector_frames student [] = []
sector_frames student ((sector, x) ∷ rest) =
    (master_data_frames 0 student sector ++ fcb_frame student Cmd.write_file x)
    ++ sector_frames student rest

-- Whole sectors that together are the content, but for less than a sector at its end.
abbrev pub Sectors : Bytes → List (Bytes × NetFcb) → Type 0
Sectors content [] = length content < 128
Sectors content ((sector, x) ∷ rest) =
    (length sector ≡ 128) × ((others : Bytes) × (content ≡ sector ++ others) × Sectors others rest)

pub record SectorsSent (student : ℕ) (content sent : Bytes) (d : Device Sender) : Type 0 where
  pub sectors : List (Bytes × NetFcb)
  pub cut : Sectors content sectors
  pub ready : Ready (sent ++ sector_frames student sectors) d

pub sector-Ready :
    (student : ℕ) (sector sent : Bytes) (d : Device Sender)
    → length sector ≡ 128
    → Ready sent d
    → Safely
        (λ d2.
          (x : NetFcb) × Ready
            (sent ++ (master_data_frames 0 student sector ++ fcb_frame student Cmd.write_file x))
            d2)
        (send_packet_val (master_data_packet 0 student sector 128) d >>= λ d1.
          acknowledged (write_file_packet 0 student d1.self.rx_data) d1)
sector-Ready student sector sent d len h =
    Safely->>= (Ready (sent ++ master_data_frames 0 student sector)) _
      (send_packet_val (master_data_packet 0 student sector 128) d) _
      (ap_length (
        Safely-map (send_packet_val (master_data_packet 0 student sector (length sector)) d)
          (λ d1 k.
            InBuffer-Ready (sent ++ master_data_frames 0 student sector) d1 k
              (ap (λ t. t ++ master_data_frames 0 student sector) h.written))
          (send_packet_val-InBuffer 0 student sector d (omega (arith, len)) h.whole h.events)))
      λ d1 k.
        Safely-map (acknowledged (write_file_packet 0 student d1.self.rx_data) d1)
          (λ d2 k2. (
            d1.self.rx_data,
            Ready-assoc sent (master_data_frames 0 student sector)
                (fcb_frame student Cmd.write_file d1.self.rx_data) d2 k2,
          ))
          (acknowledged-Ready (write_file_packet 0 student d1.self.rx_data)
            (fcb_frame student Cmd.write_file d1.self.rx_data)
            (sent ++ master_data_frames 0 student sector) d1 (write-Takes student d1.self.rx_data)
            k)
  where
    ap_length :
        Safely
          (Ready (sent ++ master_data_frames 0 student sector))
          (send_packet_val (master_data_packet 0 student sector (length sector)) d)
        → Safely
            (Ready (sent ++ master_data_frames 0 student sector))
            (send_packet_val (master_data_packet 0 student sector 128) d)
    ap_length k =
        subst
          (λ n.
            Safely (Ready (sent ++ master_data_frames 0 student sector))
              (send_packet_val (master_data_packet 0 student sector n) d))
          len k
