-- ===== src/BasicSend/Blocks.antt =====
-- What `sendBlocks` of sw/spyvspy/basicsend.cpp sends.
use yamashnik.Prelude.{
  ℕ, zero, suc, ◌+◌, ◌*◌, ◌≤◌, ◌<◌, ◌≡◌, ◌^◌, refl, sym, ◌∙◌, false, ◌++◌, Bytes, arith, All,
  length, length-take, length-drop, take, drop, drop-drop, append-nil, done, ◌-◌, ◌>>=◌,
}
use mathlib.Core.Path.{subst}
use yamashnik.Serial.{Device, transmit}
use yamashnik.Sender.Receive.{Full}
use yamashnik.Serial.Wait.{Safely, Safely-map, Safely->>=}
use yamashnik.Packet.{shex_data_packet}
use yamashnik.Sender.{Sender}
use yamashnik.Sender.Ready.{Ready, Ready-assoc, receive_packet-Ready, sent-Ready}
use yamashnik.BasicSend.Frames.{
  shex_frame, shex_frames, shex-Takes, fulls, block_at-fits, IsBlocks, full_count, last_length,
  last_block, last_length-cut, length-last_block, pieces_fit, fulls-IsBlocks,
}
use yamashnik.Ncopy.{acknowledged}
use yamashnik.Ncopy.Copy.{acknowledged-Ready}
use yamashnik.BasicSend.{full_blocks, answered, send_blocks, true, receive_packet}

full_blocks-Ready :
    (n student offset : ℕ) (buf sent : Bytes) (d : Device Sender)
    → offset + 56 * n ≤ length buf
    → Ready sent d
    → Safely
        (Ready (sent ++ shex_frames student (fulls n (drop offset buf))))
        (full_blocks n student offset buf d)
unfolding full_blocks
full_blocks-Ready zero student offset buf sent d h r = record {
  whole = r.whole;
  events = r.events;
  written = r.written ∙ sym (append-nil sent);
}
full_blocks-Ready (suc n) student offset buf sent d h r =
    let block = take 56 (drop offset buf) in
    let size : length block ≡ 56 =
      omega (arith, length-take 56 (drop offset buf), length-drop offset buf) in
    rw (block_at-fits offset 56 buf (omega arith)) (
      Safely->>= (Ready (sent ++ shex_frame student block false)) _
        (acknowledged (shex_data_packet 0 student block 56 false) d)
        (full_blocks n student (offset + 56) buf)
        (acknowledged-Ready (shex_data_packet 0 student block 56 false) _ sent d
          (shex-Takes student 56 block false size (omega arith)) r)
        λ d1 k.
          Safely-map (full_blocks n student (offset + 56) buf d1)
            (λ d2 k2.
              Ready-assoc sent (shex_frame student block false)
                (shex_frames student (fulls n (drop 56 (drop offset buf)))) d2
                (subst
                  (λ t.
                    Ready
                      ((sent ++ shex_frame student block false) ++ shex_frames student (fulls n t))
                      d2)
                  (sym (drop-drop 56 offset buf)) k2))
            (full_blocks-Ready n student (offset + 56) buf (sent ++ shex_frame student block false)
              d1 (omega arith) k))

-- All the bytes of `memory` have been sent, behind what was sent before.
pub record BlocksSent (student : ℕ) (memory sent : Bytes) (d : Device Sender) : Type 0 where
  pub bytes : Bytes
  pub is_blocks : IsBlocks student memory bytes
  pub ready : Ready (sent ++ bytes) d

last_block-Ready :
    (student n : ℕ) (block sent : Bytes) (d : Device Sender)
    → length block ≡ n
    → n < 2 ^ 16
    → Ready sent d
    → Safely
        (Ready (sent ++ shex_frame student block true))
        (answered (shex_data_packet 0 student block n true) d >>= λ (got, d2). done d2)
unfolding answered
last_block-Ready student n block sent d e lt h =
    let bs = shex_frame student block true in
    let d1 : Device Sender = record d { port = transmit bs d.port } in
    rw (shex-Takes student n block true e lt d) (
      Safely->>= (λ r. Ready (sent ++ bs) r.1) (Ready (sent ++ bs)) (receive_packet d1) _
        (receive_packet-Ready (sent ++ bs) d1 (sent-Ready bs sent d h)) λ (got, d2) k. k)

-- For addresses `start ≤ end` below 2^16, a `binBuf` that holds all that stands between them, and a
-- receiver that is ready: whatever the workstation answers, `sendBlocks` ends the program for want of an
-- acknowledgement, or returns having sent exactly the first `end - start + 1` bytes of `binBuf`, in order,
-- in blocks of 56 bytes with the mark that more follows, and a last block of 1 to 56 bytes with the mark of
-- the end; it never reads outside `binBuf`.
pub send_blocks-Sent :
    (student start end : ℕ) (buf : Bytes) (d : Device Sender)
    → start ≤ end
    → end < 2 ^ 16
    → end + 1 - start ≤ length buf
    → length d.self.buf ≡ 1024
    → All Full d.port.input
    → Safely
        (BlocksSent student (take (end + 1 - start) buf) d.port.sent)
        (send_blocks student start end buf d)
unfolding send_blocks
send_blocks-Sent student start end buf d order below fits whole events =
    rw (last_length-cut start end buf order below fits) (
      Safely->>= (Ready (d.port.sent ++ fronts)) (BlocksSent student memory d.port.sent)
        (full_blocks n student 0 buf d) _
        (full_blocks-Ready n student 0 buf d.port.sent d (omega (arith, room))
          (record { whole = whole; events = events; written = refl }))
        λ d1 k. rw (block_at-fits (56 * n) len buf room) (
          Safely-map
            (answered (shex_data_packet 0 student last len true) d1 >>= λ (got, d2). done d2)
            (λ d2 k2. record {
              bytes = fronts ++ shex_frame student last true;
              is_blocks = fulls-IsBlocks start end buf order below fits student;
              ready = Ready-assoc d.port.sent fronts (shex_frame student last true) d2 k2;
            })
            (last_block-Ready student len last _ d1
              (length-last_block start end buf order below fits) (omega arith) k)))
  where
    n : ℕ
    n = full_count start end

    len : ℕ
    len = last_length start end

    last : Bytes
    last = last_block start end buf

    memory : Bytes
    memory = take (end + 1 - start) buf

    fronts : Bytes
    fronts = shex_frames student (fulls n buf)

    room : 56 * n + len ≤ length buf
    room = pieces_fit start end buf order below fits
