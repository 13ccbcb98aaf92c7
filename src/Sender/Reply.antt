-- ===== src/Sender/Reply.antt =====
-- Replies: `CheckPacket` and `GetRxData` of sw/spyvspy/sendpacket.cpp on packets that are framed as
-- `SendPacket` frames them.
use yamashnik.Prelude.{
  ap, ◌∙◌, ◌++◌, ◌≡◌, refl, [], ◌∷◌, get_or, drop, append_assoc, take_all, ℕ, ◌<◌, Bytes, length,
  ◌⊎◌, All, arith, u16, IsByte, inl, inr,
}
use yamashnik.Packet.{NetFcb, net_fcb_bytes}
use yamashnik.Wire.Cmd
use yamashnik.Wire.{send_escaped_word, send_escaped_byte, send_header, header, read_escaped_bytes}
use yamashnik.Wire.Block.{escaped, sum, block_lem, read_escaped_bytes-escaped}
use yamashnik.Sender.{block_frame, get_rx_data, check_packet, is_file_reply, Sender}

-- Every field is a byte, and the block has its 37 bytes.
pub record IsNetFcb (x : NetFcb) : Type 0 where
  pub h : x.h < 256
  pub f : x.f < 256
  pub a : x.a < 256
  pub size : length x.fcb ≡ 37
  pub bytes : All IsByte x.fcb

from_bytes_eq :
    (h f a : ℕ) (fcb : Bytes) (x : NetFcb)
    → h ∷ f ∷ a ∷ fcb ≡ x.h ∷ x.f ∷ x.a ∷ x.fcb
    → record { h = h; f = f; a = a; fcb = fcb } ≡ x
from_bytes_eq h f a fcb x e = λ i. record {
  h = get_or (e i) 0 0;
  f = get_or (e i) 1 0;
  a = get_or (e i) 2 0;
  fcb = drop 3 (e i);
}

-- What stands before the payload: eleven bytes.
abbrev front : ℕ → ℕ → ℕ → Bytes
front src dst cmd =
    send_header (header src dst Cmd.base) ++ (send_escaped_byte cmd ++ send_escaped_word 40)

get_rx_data-front :
    (src dst cmd : ℕ) (rest : Bytes) (x : NetFcb)
    → IsNetFcb x
    → get_rx_data (front src dst cmd ++ (escaped (net_fcb_bytes x) ++ rest)) ≡ x
unfolding get_rx_data net_fcb_bytes read_escaped_bytes send_header header send_escaped_byte
    send_escaped_word
get_rx_data-front src dst cmd rest x h = from_bytes_eq _ _ _ _ x (
    ap (λ n. read_escaped_bytes (front src dst cmd ++ (escaped (net_fcb_bytes x) ++ rest)) 11 n)
      forty
    ∙ read_escaped_bytes-escaped (front src dst cmd) (net_fcb_bytes x) rest 11
        (h.h, (h.f, (h.a, h.bytes))) refl)
  where
    forty : 40 ≡ length (net_fcb_bytes x)
    forty = omega (arith, h.size)

reply_front :
    (src dst cmd mark : ℕ) (rest : Bytes) (x : NetFcb)
    → IsNetFcb x
    → block_frame (header src dst Cmd.base) cmd (net_fcb_bytes x) 40 mark ++ rest
      ≡ front src dst cmd
        ++ (escaped (net_fcb_bytes x)
            ++ (send_escaped_word (u16 (sum (net_fcb_bytes x))) ++ (mark ∷ [] ++ rest)))
reply_front src dst cmd mark rest x h =
    ap
      (λ blk.
        (send_header (header src dst Cmd.base)
          ++ (send_escaped_byte cmd ++ (send_escaped_word 40 ++ (blk ++ mark ∷ []))))
        ++ rest)
      (block_lem (net_fcb_bytes x) 40
        ∙ ap (λ t. escaped t ++ send_escaped_word (u16 (sum t)))
            (take_all 40 (net_fcb_bytes x) (unfold net_fcb_bytes in omega (arith, h.size))))
    ∙ simp append_assoc

-- The reply codes that carry a block.
abbrev pub IsReply : ℕ → Type 0
IsReply cmd = (cmd ≡ Cmd.re_create_file) ⊎ (cmd ≡ Cmd.re_close_file) ⊎ (cmd ≡ Cmd.re_write_file)

check_packet-front :
    (src dst cmd : ℕ) (rest : Bytes) (s : Sender)
    → IsReply cmd
    → s.buf ≡ front src dst cmd ++ rest
    → check_packet s ≡ record s { rx_data = get_rx_data s.buf }
unfolding check_packet is_file_reply send_header header send_escaped_byte send_escaped_word
check_packet-front src dst cmd rest s (inl c) e = rw (e, c)
check_packet-front src dst cmd rest s (inr (inl c)) e = rw (e, c)
check_packet-front src dst cmd rest s (inr (inr c)) e = rw (e, c)

-- A reply with one of the three codes is in the buffer as `SendPacket` would frame it, with a block whose
-- fields are bytes; whatever follows it, `CheckPacket` takes over that block.
pub check_packet-block_frame :
    (src dst cmd mark : ℕ) (rest : Bytes) (x : NetFcb) (s : Sender)
    → IsReply cmd
    → IsNetFcb x
    → s.buf ≡ block_frame (header src dst Cmd.base) cmd (net_fcb_bytes x) 40 mark ++ rest
    → (check_packet s).rx_data ≡ x
check_packet-block_frame src dst cmd mark rest x s c h e =
    let placed = e ∙ reply_front src dst cmd mark rest x h in
    ap (λ t. t.rx_data) (check_packet-front src dst cmd _ s c placed)
    ∙ ap get_rx_data placed
    ∙ get_rx_data-front src dst cmd _ x h
