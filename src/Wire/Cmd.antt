-- ===== src/Wire/Cmd.antt =====
-- The packet types: sw/spyvspy/commands.h.
use Prim.Native.Nat.{ℕ}

-- `enum PACKETCMD`
abbrev pub base : ℕ
base = 0x01

abbrev pub ping : ℕ
ping = 0x05

abbrev pub ack : ℕ
ack = 0x06

abbrev pub pong : ℕ
pong = 0x15

abbrev pub shex_data : ℕ
shex_data = 0x42

abbrev pub send_command : ℕ
send_command = 0x48

abbrev pub shex_header : ℕ
shex_header = 0x52

abbrev pub poke : ℕ
poke = 0x5c

abbrev pub close_file : ℕ
close_file = 0x20

abbrev pub write_file : ℕ
write_file = 0x25

abbrev pub create_file : ℕ
create_file = 0x26

abbrev pub master_data : ℕ
master_data = 0x2c

abbrev pub master_data2 : ℕ
master_data2 = 0x2d

abbrev pub re_close_file : ℕ
re_close_file = 0x30

abbrev pub re_write_file : ℕ
re_write_file = 0x35

abbrev pub re_create_file : ℕ
re_create_file = 0x36
