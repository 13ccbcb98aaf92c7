-- ===== src/Bootstrap/Remote.antt =====
-- The workstation's loop `rmtInitialCommandLoop` of sw/spyvspy/spy_bootstrap.asm, which receives what
-- `SendMemory` of sw/spyvspy/spy.cpp sends.
use yamashnik.Prelude.{
  ℕ, suc, ◌+◌, ◌-◌, ◌*◌, ◌/◌, ◌%◌, ◌^◌, ◌≤◌, ◌<◌, ◌≡◌, refl, sym, ap, ◌∙◌, false, [], ◌∷◌, ◌++◌,
  Bytes, arith, ◌==◌, if◌then◌else◌, length, take, length-take, ap₂, done,
}
use yamashnik.Response.{send_word, send_byte}
use yamashnik.Response.Chunk.{send_chunk-le, send_word_lem}
use yamashnik.Transport.{send_memory}

abbrev pub Memory : Type 0
Memory = ℕ → ℕ

-- Where the loop waits in `rmtReadByteFromFIFO_Rx`, with `hl` and `bc` as far as they are loaded, or what
-- it has left by `rmtLaunchMSXDOS`.
pub data Waiting : Type 0 where
  for_command for_h launched : Waiting
  for_l for_b_at : ℕ → Waiting
  for_c : ℕ → ℕ → Waiting
  for_data : ℕ → ℕ → Waiting

-- `ld (hl), a`
abbrev pub poked : ℕ → ℕ → Memory → Memory
poked hl a mem = λ i. if i == hl then a else mem i

-- `inc hl`, `dec bc`, and the test for zero
abbrev next_data : ℕ → ℕ → Waiting
next_data hl bc =
    let left = (bc + (2 ^ 16 - 1)) % 2 ^ 16 in
    if left == 0 then for_command else for_data ((hl + 1) % 2 ^ 16) left

-- One byte out of the receiver.
unfoldable pub remote_step : ℕ → Waiting → Memory → Waiting × Memory
remote_step a for_command mem =
    (if a == 1 then for_h else if a == 2 then launched else for_command, mem)
remote_step a for_h mem = (for_l a, mem)
remote_step a (for_l h) mem = (for_b_at (256 * h + a), mem)
remote_step a (for_b_at hl) mem = (for_c hl a, mem)
remote_step a (for_c hl b) mem = (for_data hl (256 * b + a), mem)
remote_step a (for_data hl bc) mem = (next_data hl bc, poked hl a mem)
remote_step a launched mem = (launched, mem)

unfoldable pub remote : Bytes → Waiting → Memory → Waiting × Memory
remote [] w mem = (w, mem)
remote (a ∷ bs) w mem = let (w', mem') = remote_step a w mem in remote bs w' mem'

-- Memory with bytes written from an address on.
abbrev pub placed : ℕ → Bytes → Memory → Memory
placed at [] mem = mem
placed at (b ∷ bs) mem = placed (at + 1) bs (poked at b mem)

remote-data :
    (b : ℕ) (bs rest : Bytes) (hl : ℕ) (mem : Memory)
    → hl + length (b ∷ bs) ≤ 2 ^ 16
    → length (b ∷ bs) < 2 ^ 16
    → remote ((b ∷ bs) ++ rest) (for_data hl (length (b ∷ bs))) mem
      ≡ remote rest for_command (placed hl (b ∷ bs) mem)
unfolding remote remote_step
remote-data b [] rest hl mem h lt = refl
remote-data b (c ∷ bs) rest hl mem h lt =
    ap (λ w. remote ((c ∷ bs) ++ rest) w (poked hl b mem)) onward
    ∙ remote-data c bs rest (hl + 1) (poked hl b mem) (omega arith) (omega arith)
  where
    onward : next_data hl (length (b ∷ c ∷ bs)) ≡ for_data (hl + 1) (length (c ∷ bs))
    onward = rw (left, stays, more) refl
      where
        left : (suc (suc (length bs)) + (2 ^ 16 - 1)) % 2 ^ 16 ≡ suc (length bs)
        left = omega arith

        more : (suc (length bs) == 0) ≡ false
        more = ground arith

        stays : (hl + 1) % 2 ^ 16 ≡ hl + 1
        stays = omega arith

-- `SendMemory` is received as it is meant, if there is something to send.
pub remote-send_memory :
    (bytes : Bytes) (addr len : ℕ)
    → 0 < len
    → len ≤ length bytes
    → len < 2 ^ 16
    → addr + len ≤ 2 ^ 16
    → (bs : Bytes) × (send_memory bytes addr len ≡ done bs)
      × ((rest : Bytes) (mem : Memory)
          → remote (bs ++ rest) for_command mem
            ≡ remote rest for_command (placed addr (take len bytes) mem))
unfolding send_memory
remote-send_memory bytes addr len some_bytes enough short fits = (
  send_byte 1 ++ (send_word addr ++ (send_word len ++ take len bytes)),
  rw (send_chunk-le bytes len enough) refl,
  λ rest mem. head (take len bytes) size rest mem,
)
  where
    size : length (take len bytes) ≡ len
    size = omega (arith, length-take len bytes)

    whole : (w : ℕ) → 256 * (w / 256) + w % 256 ≡ w
    whole w = omega arith

    head :
        (chunk : Bytes)
        → length chunk ≡ len
        → (rest : Bytes) (mem : Memory)
        → remote
            ((send_byte 1 ++ (send_word addr ++ (send_word len ++ chunk))) ++ rest)
            for_command
            mem
          ≡ remote rest for_command (placed addr chunk mem)
    head [] e rest mem = absurd (omega arith)
    head (b ∷ chunk) e rest mem =
        ap₂ (λ x y. remote ((send_byte 1 ++ (x ++ (y ++ (b ∷ chunk)))) ++ rest) for_command mem)
          (send_word_lem addr (omega arith)) (send_word_lem len short)
        ∙ unfold remote remote_step in
          ap₂ (λ x y. remote ((b ∷ chunk) ++ rest) (for_data x y) mem) (whole addr)
            (whole len ∙ sym e)
          ∙ remote-data b chunk rest addr mem (omega (arith, e)) (omega (arith, e))
