-- ===== src/BasicSend/BinSent.antt =====
-- `sendBIN` of sw/spyvspy/basicsend.cpp at a workstation that answers each packet.
use yamashnik.Prelude.{
  zero, suc, sym, ap, ◌∙◌, ◌∷◌, drop-nil, ℕ, ◌+◌, ◌-◌, ◌%◌, ◌≤◌, ◌<◌, ◌≡◌, ◌^◌, refl, true, [],
  ◌++◌, some, Bytes, arith, le→leb, length, length-take, take, drop, append-nil, Run, done,
}
use mathlib.Core.Path.{subst}
use yamashnik.Sender.{splice}
use yamashnik.Sender.Receive.{length-splice}
use yamashnik.Ncopy.Ping.{ping_frame}
use yamashnik.BasicSend.{Basic, run_command}
use yamashnik.BasicSend.Files.{send_bin, word_at, addresses, read_into, with_header, send_program}
use yamashnik.BasicSend.Frames.{IsBlocks, full_count, fulls-IsBlocks}
use yamashnik.BasicSend.Exchange.{
  Exchange, >>=-Exchange, Exchange-eq, nothing-Exchange, header_frame, command_frame,
}
use yamashnik.BasicSend.Transfer.{block_frames}
use yamashnik.BasicSend.Sections.{on_line, send_program-Exchange, with_header-Exchange}

-- A BIN file, from its addresses on, whose addresses are in order and span no more than a `binBuf` of
-- this size.
pub record IsBin (file : Bytes) (size : ℕ) : Type 0 where
  pub in_order : word_at file 0 ≤ word_at file 2
  pub below : word_at file 2 < 2 ^ 16
  pub header : 6 ≤ length file
  pub room : word_at file 2 + 1 - word_at file 0 ≤ size

-- The bytes between the addresses, both included: those of the file, and where it has fewer, as the image
-- of the bootstrap has, those that `binBuf` held there before.
abbrev pub bin_memory : Bytes → Bytes → Bytes
bin_memory file buf =
    take (word_at file 2 + 1 - word_at file 0) (drop 6 file ++ drop (length (drop 6 file)) buf)

-- `binBuf` when the file has been read
abbrev pub bin_buffer : Bytes → Bytes → Bytes
bin_buffer file buf = splice buf 0 (take (word_at file 2 + 1 - word_at file 0) (drop 6 file))

take-read :
    (n : ℕ) (xs buf : Bytes)
    → take n (take n xs ++ drop (length (take n xs)) buf) ≡ take n (xs ++ drop (length xs) buf)
take-read zero xs buf = refl
take-read (suc n) [] buf = refl
take-read (suc n) (x ∷ xs) [] =
    ap (λ t. x ∷ t)
      (ap (λ t. take n (take n xs ++ t)) (sym (drop-nil (length (take n xs))))
        ∙ take-read n xs []
        ∙ ap (λ t. take n (xs ++ t)) (drop-nil (length xs)))
take-read (suc n) (x ∷ xs) (b ∷ buf) = ap (λ t. x ∷ t) (take-read n xs buf)

-- What `sendBIN` sends for these bytes: a ping and the header, the blocks, a ping and the command that runs
-- the code.
pub record IsBinSent (student : ℕ) (file memory sent : Bytes) : Type 0 where
  pub blocks : Bytes
  pub is_blocks : IsBlocks student memory blocks
  pub frames :
      sent
      ≡ (ping_frame student ++ header_frame student (word_at file 0) (word_at file 2))
        ++ (blocks ++ (ping_frame student ++ command_frame student (run_command (word_at file 4))))

-- Its packets: five, and one for each full block.
abbrev pub bin_turns : Bytes → ℕ
bin_turns file = full_count (word_at file 0) (word_at file 2) + 5

module _ (fuel student : ℕ) (enough : 0 < fuel) (file buf : Bytes)
    (bin : IsBin file (length buf)) where
  abbrev start : ℕ
  start = word_at file 0

  abbrev end : ℕ
  end = word_at file 2

  abbrev blocks : Bytes
  blocks = block_frames student start end (bin_buffer file buf)

  abbrev bin_frames : Bytes
  bin_frames =
      (ping_frame student ++ header_frame student start end)
      ++ (blocks ++ (ping_frame student ++ command_frame student (run_command (word_at file 4))))

  size : length (take (end + 1 - start) (drop 6 file)) ≤ end + 1 - start
  size = omega (arith, length-take (end + 1 - start) (drop 6 file))

  pub length-bin_buffer : length (bin_buffer file buf) ≡ length buf
  length-bin_buffer =
      length-splice buf (take (end + 1 - start) (drop 6 file)) 0 (omega (arith, bin.room, size))

  bin_frames-IsBinSent : IsBinSent student file (bin_memory file buf) bin_frames
  bin_frames-IsBinSent = record {
    blocks = blocks;
    is_blocks =
        subst (λ m. IsBlocks student m blocks)
          (ap (λ k. take (end + 1 - start) (take (end + 1 - start) (drop 6 file) ++ drop k buf))
              start_at
            ∙ take-read (end + 1 - start) (drop 6 file) buf)
          (fulls-IsBlocks start end (bin_buffer file buf) bin.in_order bin.below
            (omega (arith, bin.room, length-bin_buffer)) student);
    frames = refl;
  }
    where
      start_at :
          0 + length (take (end + 1 - start) (drop 6 file))
          ≡ length (take (end + 1 - start) (drop 6 file))
      start_at = omega arith

  bin_read :
      read_into ((2 ^ 64 + (end + 1) - start) % 2 ^ 64) (drop 6 file) buf
      ≡ done (bin_buffer file buf)
  unfolding read_into
  bin_read =
      rw
        (
          in_range,
          le→leb (length (take (end + 1 - start) (drop 6 file))) (length buf)
              (omega (arith, bin.room, size)),
        )
        refl
    where
      in_range : (2 ^ 64 + (end + 1) - start) % 2 ^ 64 ≡ end + 1 - start
      in_range = omega (arith, bin.in_order, bin.below)

  bin_frames-Exchange :
      Exchange
        (λ d. send_bin fuel student file (on_line buf d))
        (λ d. (some (start, end), on_line (bin_buffer file buf) d))
        (bin_turns file)
        bin_frames
  unfolding send_bin
  bin_frames-Exchange =
      rw (le→leb 6 (length file) bin.header, bin_read)
        (Exchange-eq _ _ (2 + (full_count start end + 1 + 2) + 0) (bin_turns file)
          (bin_frames ++ []) bin_frames (omega arith) (append-nil bin_frames)
          (>>=-Exchange
            (λ d. with_header fuel student start end work (on_line (bin_buffer file buf) d))
            (addresses start end) (λ d. (true, on_line (bin_buffer file buf) d))
            (λ d. (some (start, end), on_line (bin_buffer file buf) d))
            (2 + (full_count start end + 1 + 2)) 0 bin_frames []
            (with_header-Exchange fuel student enough start end (full_count start end + 1 + 2) _
              (bin_buffer file buf) work
              (send_program-Exchange fuel student enough start end (word_at file 4)
                (bin_buffer file buf) bin.in_order bin.below
                (omega (arith, bin.room, length-bin_buffer))))
            (nothing-Exchange (λ d. (some (start, end), on_line (bin_buffer file buf) d)))))
    where
      work : Basic → Run Basic
      work = send_program fuel student start end (word_at file 4)

  -- The whole of `sendBIN`
  pub send_bin-Exchange :
      (bs : Bytes) × IsBinSent student file (bin_memory file buf) bs
      × Exchange
          (λ d. send_bin fuel student file (on_line buf d))
          (λ d. (some (word_at file 0, word_at file 2), on_line (bin_buffer file buf) d))
          (bin_turns file)
          bs
  send_bin-Exchange = (bin_frames, bin_frames-IsBinSent, bin_frames-Exchange)
