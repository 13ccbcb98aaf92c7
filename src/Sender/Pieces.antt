-- ===== src/Sender/Pieces.antt =====
-- The packets that `SendPacket` of sw/spyvspy/sendpacket.cpp makes of the pieces of master data.
use Prim.Native.Nat.{zero}
use yamashnik.Sender.{
  master_frame, last_mark, send_header, intermediate_mark, send_escaped_byte, send_escaped_word,
}
use yamashnik.Prelude.{
  le→leb, leb→le, lt→leb_false, take_all, drop-drop, ltb, ap, ◌∙◌, inl, inr, ◌++◌, ◌-◌, leb, ◌==◌,
  Bool-cases, length-drop, length-take, take-append-drop, append-nil, u16, ◌≤◌, ◌<◌, [], ◌∷◌, Bytes,
  List, ℕ, if◌then◌else◌, length, suc, ◌≡◌, All, arith, drop, ltb, Bool-cases, leb, leb→le, take,
  refl, false, ◌+◌, sym,
}
use yamashnik.Wire.Cmd
use yamashnik.Wire.{send_escaped_word, send_escaped_byte, send_header, last_mark, intermediate_mark}
use yamashnik.Wire.Block.{escaped, sum, block_lem}

-- A packet for one piece of the data.
abbrev pub data_frame : Bytes → ℕ → ℕ → Bytes → Bytes
data_frame head cmd mark piece =
    send_header head
    ++ (send_escaped_byte cmd
        ++ (send_escaped_word (length piece)
            ++ ((escaped piece ++ send_escaped_word (u16 (sum piece))) ++ mark ∷ [])))

-- The last packet is marked as such.
abbrev mark_of : List Bytes → ℕ
mark_of [] = last_mark
mark_of (p ∷ ps) = intermediate_mark

-- The packets for the pieces, the first with the command given.
abbrev pub data_frames : Bytes → ℕ → List Bytes → Bytes
data_frames head cmd [] = []
data_frames head cmd (p ∷ ps) =
    data_frame head cmd (mark_of ps) p ++ data_frames head Cmd.master_data2 ps

-- A buffer in pieces of 56 bytes, the last of at most 56.
abbrev pub pieces : ℕ → Bytes → List Bytes
pieces zero bs = []
pieces (suc fuel) bs =
    let rest = pieces fuel (drop 56 bs) in if leb (length bs) 56 then bs ∷ [] else take 56 bs ∷ rest

abbrev pub concat : List Bytes → Bytes
concat [] = []
concat (p ∷ ps) = p ++ concat ps

-- The pieces of a buffer: together they are the buffer, and none is longer than 56 bytes.
pub record IsCut (buf : Bytes) (ps : List Bytes) : Type 0 where
  pub together : concat ps ≡ buf
  pub short : All (λ p. length p ≤ 56) ps

pub pieces-IsCut : (fuel : ℕ) (bs : Bytes) → length bs < fuel → IsCut bs (pieces fuel bs)
pieces-IsCut zero bs h = absurd (omega arith)
pieces-IsCut (suc fuel) bs h = elim (Bool-cases (leb (length bs) 56)) [
  | inl last ↦
      rw last (record { together = append-nil bs; short = (leb→le (length bs) 56 last, tt) })
  | inr more ↦
      let longer : 56 < length bs = ground arith in
      let rest = pieces-IsCut fuel (drop 56 bs) (omega (arith, length-drop 56 bs)) in
      rw more (record {
        together = ap (λ t. take 56 bs ++ t) rest.together ∙ take-append-drop 56 bs;
        short = (omega (arith, length-take 56 bs), rest.short);
      })
]

mark_of-pieces : (fuel : ℕ) (bs : Bytes) → 0 < fuel → mark_of (pieces fuel bs) ≡ intermediate_mark
mark_of-pieces zero bs h = absurd (omega arith)
mark_of-pieces (suc fuel) bs h = elim (Bool-cases (leb (length bs) 56)) [
  | inl last ↦ rw last refl
  | inr more ↦ rw more refl
]

-- A round of the loop sends the packet for its piece.
master_frame-data_frame :
    (head buf : Bytes) (l n mark : ℕ)
    → (if ltb 56 l then 56 else l) ≡ n
    → (if ltb 56 l then intermediate_mark else last_mark) ≡ mark
    → l ≤ length buf
    → master_frame head buf (length buf) l
      ≡ data_frame head
          (if l == length buf then Cmd.master_data else Cmd.master_data2)
          mark
          (take n (drop (length buf - l) buf))
unfolding master_frame
master_frame-data_frame head buf l n mark e m h =
    let piece = take n (drop (length buf - l) buf) in
    let small : n ≤ l = ground arith in
    let size : n ≡ length piece =
      omega (arith, length-take n (drop (length buf - l) buf), length-drop (length buf - l) buf) in
    rw (e, m, block_lem (drop (length buf - l) buf) n)
      (ap
        (λ k.
          send_header head
          ++ (send_escaped_byte (if l == length buf then Cmd.master_data else Cmd.master_data2)
              ++ (send_escaped_word k
                  ++ ((escaped piece ++ send_escaped_word (u16 (sum piece))) ++ mark ∷ []))))
        size)

-- The command of the packet with `l` bytes still to be sent.
abbrev pub command : ℕ → ℕ → ℕ
command l len = if l == len then Cmd.master_data else Cmd.master_data2

-- What is sent with `l` bytes to go.
abbrev pub to_send : ℕ → Bytes → Bytes → ℕ → Bytes
to_send fuel head buf l =
    data_frames head (command l (length buf)) (pieces fuel (drop (length buf - l) buf))

pub to_send-last :
    (fuel l : ℕ) (head buf : Bytes)
    → l ≤ length buf
    → l ≤ 56
    → master_frame head buf (length buf) l ≡ to_send (suc fuel) head buf l
to_send-last fuel l head buf h small =
    let size : length (drop (length buf - l) buf) ≡ l =
      omega (arith, length-drop (length buf - l) buf) in
    let test : ltb 56 l ≡ false = ground arith in
    master_frame-data_frame head buf l l last_mark (ground arith) (ground arith) h
    ∙ rw (le→leb (length (drop (length buf - l) buf)) 56 (omega arith)) (
        ap (data_frame head (command l (length buf)) last_mark)
          (take_all l (drop (length buf - l) buf) (omega arith))
        ∙ sym (append-nil _))

pub to_send-more :
    (fuel l : ℕ) (head buf : Bytes)
    → l ≤ length buf
    → 56 < l
    → 0 < fuel
    → master_frame head buf (length buf) l ++ to_send fuel head buf (l - 56)
      ≡ to_send (suc fuel) head buf l
to_send-more fuel l head buf h more enough =
    let size : length (drop (length buf - l) buf) ≡ l =
      omega (arith, length-drop (length buf - l) buf) in
    let after : length buf - (l - 56) ≡ length buf - l + 56 = omega arith in
    let onward : drop (length buf - (l - 56)) buf ≡ drop 56 (drop (length buf - l) buf) =
      ap (λ k. drop k buf) after ∙ sym (drop-drop 56 (length buf - l) buf) in
    let second : command (l - 56) (length buf) ≡ Cmd.master_data2 = ground arith in
    ap (λ t. t ++ to_send fuel head buf (l - 56))
      (master_frame-data_frame head buf l 56 intermediate_mark (ground arith) (ground arith) h)
    ∙ rw (lt→leb_false (length (drop (length buf - l) buf)) 56 (omega arith), onward, second)
        (ap
          (λ k.
            data_frame head (command l (length buf)) k (take 56 (drop (length buf - l) buf))
            ++ data_frames head Cmd.master_data2
                (pieces fuel (drop 56 (drop (length buf - l) buf))))
          (sym (mark_of-pieces fuel (drop 56 (drop (length buf - l) buf)) enough)))
