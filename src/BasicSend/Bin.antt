-- ===== src/BasicSend/Bin.antt =====
-- `sendBIN` of sw/spyvspy/basicsend.cpp on addresses that promise more than `binBuf` holds.
use yamashnik.Prelude.{
  ℕ, ◌+◌, ◌-◌, ◌<◌, ◌≡◌, ◌%◌, ◌^◌, refl, Bytes, arith, le→leb, lt→leb_false, length, length-take,
  length-drop, take, drop, fault,
}
use yamashnik.BasicSend.{Basic}
use yamashnik.BasicSend.Files.{read_into, send_bin, word_at}

-- The number of bytes that `sendBIN` asks for, given what stands behind the magic.
abbrev pub asked_size : Bytes → ℕ
asked_size file = (2 ^ 64 + (word_at file 2 + 1) - word_at file 0) % 2 ^ 64

-- Where the addresses of a BIN file span more than `binBuf` has room for, and the file holds more than
-- that, `sendBIN` writes behind `binBuf`.
pub send_bin-overrun :
    (fuel student : ℕ) (file : Bytes) (s : Basic)
    → length s.bin_buf < asked_size file
    → length s.bin_buf + 6 < length file
    → send_bin fuel student file s ≡ fault
unfolding send_bin read_into
send_bin-overrun fuel student file s more longer =
    rw
      (
        le→leb 6 (length file) (omega arith),
        lt→leb_false (length (take (asked_size file) (drop 6 file))) (length s.bin_buf)
            (omega (arith, length-take (asked_size file) (drop 6 file), length-drop 6 file)),
      )
      refl
