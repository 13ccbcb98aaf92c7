-- ===== src/Ncopy/Sent.antt =====
-- The whole of what `sendFile` of sw/spyvspy/ncopy.cpp sends for a file.
use yamashnik.Prelude.{
  ℕ, zero, suc, ◌≤◌, ◌<◌, ◌≡◌, sym, ◌∙◌, inl, inr, Bool-cases, List, [], ◌∷◌, ◌++◌, Bytes, arith,
  leb, leb→le, length, length-take, length-drop, take, drop, append-nil, ◌>>=◌, take-append-drop,
}
use yamashnik.Wire.Cmd
use yamashnik.Serial.{Device}
use yamashnik.Serial.Wait.{Safely, Safely-map, Safely->>=}
use yamashnik.Packet.{
  NetFcb, net_fcb, create_file_packet, write_file_packet, close_file_packet, master_data_packet,
}
use yamashnik.Sender.{Sender, send_packet_val}
use yamashnik.Sender.Master.{master_data_frames}
use yamashnik.Sender.Ready.{Ready, Ready-assoc}
use yamashnik.Ncopy.{acknowledged, send_sectors, send_contents}
use yamashnik.Ncopy.Copy.{
  fcb_frame, create-Takes, close-Takes, acknowledged-Ready, sector_frames, Sectors, SectorsSent,
  sector-Ready,
}

-- Fuel for one round more than there are bytes is enough for the sectors.
send_sectors-Sent :
    (fuel student : ℕ) (content sent : Bytes) (d : Device Sender)
    → length content < fuel
    → Ready sent d
    → Safely (SectorsSent student content sent) (send_sectors fuel student content d)
unfolding send_sectors
send_sectors-Sent zero student content sent d lt h = absurd (omega arith)
send_sectors-Sent (suc fuel) student content sent d lt h =
    elim (Bool-cases (leb 128 (length content))) [
      | inl whole ↦
          let long : 128 ≤ length content = leb→le 128 (length content) whole in
          rw (whole, Safely)
            (Safely->>= _ (SectorsSent student content sent)
              (send_packet_val (master_data_packet 0 student (take 128 content) 128) d >>= λ d1.
                acknowledged (write_file_packet 0 student d1.self.rx_data) d1)
              (send_sectors fuel student (drop 128 content))
              (sector-Ready student (take 128 content) sent d
                (omega (arith, length-take 128 content)) h)
              λ d2 (x, k).
                Safely-map (send_sectors fuel student (drop 128 content) d2)
                  (λ d3 r. one_more content x d3 long r)
                  (send_sectors-Sent fuel student (drop 128 content) _ d2
                    (omega (arith, length-drop 128 content)) k))
      | inr short ↦
          rw (short, Safely)
            (record {
              sectors = [];
              cut = ground arith;
              ready = record {
                whole = h.whole;
                events = h.events;
                written = h.written ∙ sym (append-nil sent);
              };
            })
    ]
  where
    one_more :
        (content : Bytes) (x : NetFcb) (d : Device Sender)
        → 128 ≤ length content
        → SectorsSent student
            (drop 128 content)
            (sent
              ++ (master_data_frames 0 student (take 128 content)
                  ++ fcb_frame student Cmd.write_file x))
            d
        → SectorsSent student content sent d
    one_more content x d long r = record {
      sectors = (take 128 content, x) ∷ r.sectors;
      cut = (
        omega (arith, length-take 128 content),
        (drop 128 content, sym (take-append-drop 128 content), r.cut),
      );
      ready = Ready-assoc sent _ (sector_frames student r.sectors) d r.ready;
    }

-- What is sent for a file's content behind the ping.
pub record ContentSent (student : ℕ) (name content sent : Bytes) (d : Device Sender) : Type 0 where
  pub sectors : List (Bytes × NetFcb)
  pub last : NetFcb
  pub cut : Sectors content sectors
  pub written :
      d.port.sent
      ≡ ((sent ++ fcb_frame student Cmd.create_file (net_fcb 0 0 0 name))
          ++ sector_frames student sectors)
        ++ fcb_frame student Cmd.close_file last

pub send_contents-Sent :
    (name content : Bytes) (student : ℕ) (sent : Bytes) (d : Device Sender)
    → Ready sent d
    → Safely (ContentSent student name content sent) (send_contents name content student d)
unfolding send_contents
send_contents-Sent name content student sent d h =
    let opened = sent ++ fcb_frame student Cmd.create_file (net_fcb 0 0 0 name) in
    Safely->>= (SectorsSent student content opened) (ContentSent student name content sent)
      (acknowledged (create_file_packet 0 student name) d
        >>= send_sectors (suc (length content)) student content)
      _
      (Safely->>= (Ready opened) (SectorsSent student content opened)
        (acknowledged (create_file_packet 0 student name) d)
        (send_sectors (suc (length content)) student content)
        (acknowledged-Ready (create_file_packet 0 student name) _ sent d (create-Takes student name)
          h)
        λ d1 k. send_sectors-Sent (suc (length content)) student content opened d1 (omega arith) k)
      λ d2 r.
        Safely-map (acknowledged (close_file_packet 0 student d2.self.rx_data) d2)
          (λ d3 k. record {
            sectors = r.sectors;
            last = d2.self.rx_data;
            cut = r.cut;
            written = k.written;
          })
          (acknowledged-Ready (close_file_packet 0 student d2.self.rx_data) _ _ d2
            (close-Takes student d2.self.rx_data) r.ready)
