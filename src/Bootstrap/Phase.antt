-- ===== src/Bootstrap/Phase.antt =====
-- The first phase of `Bootstrap` of sw/spyvspy/spy.cpp at a workstation that answers each packet.
use yamashnik.Prelude.{ℕ, ◌+◌, ◌<◌, true, false, ◌∷◌, ◌++◌, none, some, Bytes, arith, done}
use yamashnik.Packet.{sndcmd_packet}
use yamashnik.BasicSend.{send_command, answered}
use yamashnik.BasicSend.Files.{send_bin, word_at}
use yamashnik.BasicSend.Exchange.{
  Exchange, >>=-Exchange, answered-Exchange, command_frame, command-Takes,
}
use yamashnik.BasicSend.Sections.{on_line}
use yamashnik.BasicSend.BinSent.{
  IsBin, IsBinSent, bin_memory, bin_turns, bin_buffer, send_bin-Exchange,
}
use yamashnik.Bootstrap.{send_bootstrap, width_command, length}

-- The command for the screen, and the code as a BIN file.
pub send_bootstrap-Exchange :
    (fuel student : ℕ)
    → 0 < fuel
    → (file buf : Bytes) → IsBin file (length buf)
    → (bs : Bytes) × IsBinSent student file (bin_memory file buf) bs
      × Exchange
          (λ d. send_bootstrap fuel student (some (0xfe ∷ file)) (on_line buf d))
          (λ d. (some (word_at file 0, word_at file 2), on_line (bin_buffer file buf) d))
          (1 + bin_turns file)
          (command_frame student width_command ++ bs)
unfolding send_bootstrap send_command
send_bootstrap-Exchange fuel student enough file buf bin =
    let (bs, sent, exchange) = send_bin-Exchange fuel student enough file buf bin in
    (
      bs,
      sent,
      >>=-Exchange (answered (sndcmd_packet 0 student width_command))
          (λ r. elim r.0 [
            | true ↦ send_bin fuel student file (on_line buf r.1)
            | false ↦ done (none, on_line buf r.1)
          ])
          (λ d. (true, d))
          (λ d. (some (word_at file 0, word_at file 2), on_line (bin_buffer file buf) d)) 1
          (bin_turns file) (command_frame student width_command) bs
          (answered-Exchange (sndcmd_packet 0 student width_command)
            (command_frame student width_command)
            (command-Takes student width_command (omega arith)))
          exchange,
    )
