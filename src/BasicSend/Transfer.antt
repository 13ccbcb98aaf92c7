-- ===== src/BasicSend/Transfer.antt =====
-- The transfer of a whole ROM by sw/spyvspy/basicsend.cpp, to a workstation that answers each packet.
use yamashnik.Prelude.{
  ℕ, ◌+◌, ◌-◌, ◌*◌, ◌≤◌, ◌<◌, ◌≡◌, ◌^◌, ap, ◌∙◌, true, [], ◌∷◌, ◌++◌, Bytes, arith, length,
  append-nil, done, ◌>>=◌,
}
use yamashnik.Serial.{arrived}
use yamashnik.Serial.Silence.{silences}
use yamashnik.Packet.{shex_data_packet, shex_header_packet, sndcmd_packet}
use yamashnik.Ncopy.{ping_pong}
use yamashnik.Ncopy.Ping.{ping_frame, ping_pong-Replied}
use yamashnik.BasicSend.{full_blocks, answered, send_blocks, send_shex_header, run_rom, run_command}
use yamashnik.BasicSend.Frames.{
  shex_frame, shex_frames, shex-Takes, fulls, block_at-fits, full_count, last_length, last_block,
  last_length-cut, last_length_bounds, length-last_block, pieces_fit,
}
use yamashnik.BasicSend.Exchange.{
  Exchange, >>=-Exchange, answered-Exchange, full_blocks-Exchange, ignored-Exchange, header_frame,
  command_frame, header-Takes, command-Takes,
}

module _ (fuel student : ℕ) (enough : 0 < fuel) where
  ping_pong-Exchange : Exchange (ping_pong fuel student) (λ d. d) 1 (ping_frame student)
  ping_pong-Exchange [] es d count turns input whole = absurd (omega arith)
  ping_pong-Exchange (t ∷ u ∷ ts) es d count turns input whole = absurd (omega arith)
  ping_pong-Exchange (t ∷ []) es d count (turn, _) input whole =
      let (d', e, r) =
        ping_pong-Replied fuel 0 t.silent student t.reply es d enough turn.few (input ∙ order)
          turn.is_reply whole in
      (
        d',
        e,
        record {
          written = r.written ∙ ap (λ t. d.port.sent ++ t) (append-nil (ping_frame student));
          input = r.input;
          whole = r.whole;
        },
      )
    where
      order :
          silences t.silent ++ (arrived t.reply ∷ es)
          ≡ silences (0 * 50 + t.silent) ++ (arrived t.reply ∷ es)
      order = ap (λ m. silences m ++ (arrived t.reply ∷ es)) rounds
        where
          rounds : t.silent ≡ 0 * 50 + t.silent
          rounds = omega arith

  pub header-Exchange :
      (start end : ℕ)
      → Exchange
          (send_shex_header fuel student start end)
          (λ d. (true, d))
          2
          (ping_frame student ++ header_frame student start end)
  unfolding send_shex_header
  header-Exchange start end =
      >>=-Exchange (ping_pong fuel student) (answered (shex_header_packet 0 student start end))
        (λ d. d) (λ d. (true, d)) 1 1 (ping_frame student) (header_frame student start end)
        ping_pong-Exchange
        (answered-Exchange (shex_header_packet 0 student start end) (header_frame student start end)
          (header-Takes student start end))

  pub run_rom-Exchange :
      (run : ℕ)
      → Exchange
          (run_rom fuel student run)
          (λ d. d)
          2
          (ping_frame student ++ command_frame student (run_command run))
  unfolding run_rom
  run_rom-Exchange run =
      ignored-Exchange
        (λ d. ping_pong fuel student d >>= answered (sndcmd_packet 0 student (run_command run))) 2
        (ping_frame student ++ command_frame student (run_command run))
        (>>=-Exchange (ping_pong fuel student)
          (answered (sndcmd_packet 0 student (run_command run))) (λ d. d) (λ d. (true, d)) 1 1
          (ping_frame student) (command_frame student (run_command run)) ping_pong-Exchange
          (answered-Exchange (sndcmd_packet 0 student (run_command run))
            (command_frame student (run_command run))
            (command-Takes student (run_command run) (omega arith))))

-- The frames of `sendBlocks`.
abbrev pub block_frames : ℕ → ℕ → ℕ → Bytes → Bytes
block_frames student start end buf =
    shex_frames student (fulls (full_count start end) buf)
    ++ shex_frame student (last_block start end buf) true

pub send_blocks-Exchange :
    (student start end : ℕ) (buf : Bytes)
    → start ≤ end
    → end < 2 ^ 16
    → end + 1 - start ≤ length buf
    → Exchange
        (send_blocks student start end buf)
        (λ d. d)
        (full_count start end + 1)
        (block_frames student start end buf)
unfolding send_blocks
send_blocks-Exchange student start end buf order below fits =
    rw
      (
        last_length-cut start end buf order below fits,
        block_at-fits (56 * n) len buf (pieces_fit start end buf order below fits),
      )
      (>>=-Exchange (full_blocks n student 0 buf)
        (λ d1. answered (shex_data_packet 0 student last len true) d1 >>= λ (got, d2). done d2)
        (λ d. d) (λ d. d) n 1 (shex_frames student (fulls n buf)) (shex_frame student last true)
        (full_blocks-Exchange n student 0 buf
          (omega (arith, pieces_fit start end buf order below fits)))
        (ignored-Exchange (answered (shex_data_packet 0 student last len true)) 1
          (shex_frame student last true)
          (answered-Exchange (shex_data_packet 0 student last len true)
            (shex_frame student last true)
            (shex-Takes student len last true (length-last_block start end buf order below fits)
              (omega (arith, last_length_bounds start end buf order below fits))))))
  where
    n : ℕ
    n = full_count start end

    len : ℕ
    len = last_length start end

    last : Bytes
    last = last_block start end buf
