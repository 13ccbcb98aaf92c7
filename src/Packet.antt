-- ===== src/Packet.antt =====
-- The packets that are sent: `NetFCB` and the `GenericPacket` classes of sw/spyvspy/sendpacket.h. An
-- object is the record of its fields; a constructor of a class is a function. A null data pointer is the
-- empty list: no packet type whose data is null reads it.
use Prim.Native.Nat.{ℕ}
use yamashnik.Prelude.{◌++◌, [], ◌∷◌, none, some, Bytes, Bool, true, length, take, replicate}
use yamashnik.Util.{dosname}
use yamashnik.Wire.Cmd

-- `struct _xdata`: the registers of a call and its control block of 37 bytes.
pub record NetFcb : Type 0 where
  pub h : ℕ
  pub f : ℕ
  pub a : ℕ
  pub fcb : Bytes

-- `_xdata(H, F, A, fileName)`: where `dosname` refuses the name, the name stays cleared.
unfoldable pub net_fcb : ℕ → ℕ → ℕ → Bytes → NetFcb
net_fcb h f a file_name = record {
  h = h;
  f = f;
  a = a;
  fcb =
      8 ∷ (elim (dosname file_name) [ none ↦ replicate 36 0 | some name ↦ name ++ replicate 25 0 ]);
}

-- The structure as memory, 40 bytes.
unfoldable pub net_fcb_bytes : NetFcb → Bytes
net_fcb_bytes x = x.h ∷ x.f ∷ x.a ∷ x.fcb

-- `GenericPacket`, with what `GetIsLast` answers.
pub record Packet : Type 0 where
  pub cmd : ℕ
  pub length : ℕ
  pub src_addr : ℕ
  pub dst_addr : ℕ
  pub payload : Bytes
  pub addr1 : ℕ
  pub addr2 : ℕ
  pub is_last : Bool

-- The three constructors of the base class; the first one's memory is filled by `AssignData`.
abbrev data_packet : ℕ → ℕ → ℕ → Bytes → ℕ → Packet
data_packet src dst cmd bs len = record {
  cmd = cmd;
  length = len;
  src_addr = src;
  dst_addr = dst;
  payload = bs;
  addr1 = 0;
  addr2 = 0;
  is_last = true;
}

abbrev own_packet : ℕ → ℕ → ℕ → ℕ → Bytes → Packet
own_packet src dst cmd len source = data_packet src dst cmd (take len source) len

abbrev addr_packet : ℕ → ℕ → ℕ → ℕ → ℕ → Packet
addr_packet src dst cmd addr1 addr2 = record {
  cmd = cmd;
  length = 0;
  src_addr = src;
  dst_addr = dst;
  payload = [];
  addr1 = addr1;
  addr2 = addr2;
  is_last = true;
}

unfoldable pub ping_packet : ℕ → ℕ → Packet
ping_packet src dst = own_packet src dst Cmd.ping 0 []

unfoldable pub sndcmd_packet : ℕ → ℕ → Bytes → Packet
sndcmd_packet src dst cmd = own_packet src dst Cmd.send_command (length cmd) cmd

-- `sizeof(NetFCB)` is 40.
unfoldable pub net_fcb_packet : ℕ → ℕ → ℕ → NetFcb → Packet
net_fcb_packet src dst cmd x = own_packet src dst cmd 40 (net_fcb_bytes x)

unfoldable pub create_file_packet : ℕ → ℕ → Bytes → Packet
unfolding net_fcb_packet
create_file_packet src dst file_name =
    net_fcb_packet src dst Cmd.create_file (net_fcb 0 0 0 file_name)

unfoldable pub write_file_packet : ℕ → ℕ → NetFcb → Packet
unfolding net_fcb_packet
write_file_packet src dst x = net_fcb_packet src dst Cmd.write_file x

unfoldable pub close_file_packet : ℕ → ℕ → NetFcb → Packet
unfolding net_fcb_packet
close_file_packet src dst x = net_fcb_packet src dst Cmd.close_file x

unfoldable pub master_data_packet : ℕ → ℕ → Bytes → ℕ → Packet
master_data_packet src dst bs len = data_packet src dst Cmd.master_data bs len

unfoldable pub shex_header_packet : ℕ → ℕ → ℕ → ℕ → Packet
shex_header_packet src dst start end = addr_packet src dst Cmd.shex_header start end

unfoldable pub shex_data_packet : ℕ → ℕ → Bytes → ℕ → Bool → Packet
shex_data_packet src dst bs len last = record (data_packet src dst Cmd.shex_data bs len) {
  is_last = last;
}

unfoldable pub poke_packet : ℕ → ℕ → ℕ → ℕ → Packet
poke_packet src dst address value = addr_packet src dst Cmd.poke address value
