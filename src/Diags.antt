-- ===== src/Diags.antt =====
-- The messages: sw/spyvspy/diags.h and diags.c. What a function prints is the list of its characters; of
-- `vprintf` only the formats for two and four hexadecimal digits are modelled.
use yamashnik.Prelude.{
  ℕ, zero, suc, ◌+◌, ◌-◌, ◌*◌, ◌/◌, ◌%◌, [], ◌∷◌, ◌++◌, Bytes, leb, ltb, ◌==◌, ◌&&◌, if◌then◌else◌,
  get_or, replicate, Run, exited,
}

-- `LOGLEVEL`
pub data LogLevel : Type 0 where
  log_zero log_info log_verbose log_morbose : LogLevel

abbrev level_number : LogLevel → ℕ
level_number log_zero = 0
level_number log_info = 1
level_number log_verbose = 4
level_number log_morbose = 5

-- `log`, given the global `LogLevel`
unfoldable pub log : LogLevel → LogLevel → Bytes → Bytes
log level threshold text = if leb (level_number threshold) (level_number level) then text else []

-- `info`
unfoldable pub info : LogLevel → Bytes → Bytes
unfolding log
info level text = log level log_info text

unfoldable pub eggog : Bytes → Run Bytes
eggog text = exited

abbrev pub hex_digit : ℕ → ℕ
hex_digit n = if ltb n 10 then b'0' + n else b'a' + (n - 10)

-- `%02x` of a byte
abbrev pub hex2 : ℕ → Bytes
hex2 n = hex_digit (n / 16 % 16) ∷ hex_digit (n % 16) ∷ []

-- `%.4x` and `%04x` of a number below 2^16
abbrev pub hex4 : ℕ → Bytes
hex4 n = hex2 (n / 256) ++ hex2 (n % 256)

-- The first loop of `dumpline`, from `i` on with `n` bytes to go
hex_part : Bytes → ℕ → ℕ → ℕ → Bytes
hex_part bytes ofs i zero = []
hex_part bytes ofs i (suc n) =
    hex2 (get_or bytes (ofs + i) 0)
    ++ ((if i == 7 then b'-' else b' ') ∷ hex_part bytes ofs (suc i) n)

abbrev shown : ℕ → ℕ
shown b = if leb 32 b && ltb b 128 then b else b'.'

-- The last loop of `dumpline`
text_part : Bytes → ℕ → ℕ → ℕ → Bytes
text_part bytes ofs i zero = []
text_part bytes ofs i (suc n) = shown (get_or bytes (ofs + i) 0) ∷ text_part bytes ofs (suc i) n

-- `dumpline`
unfoldable pub dumpline : Bytes → ℕ → ℕ → Bytes
unfolding hex_part text_part
dumpline bytes ofs length =
    hex4 ofs
    ++ (b' '
        ∷ b' '
        ∷ (hex_part bytes ofs 0 length
            ++ (replicate (3 * (16 - length)) b' '
                ++ (b' ' ∷ (text_part bytes ofs 0 length ++ 10 ∷ [])))))

-- The loop of `dump`, from an offset on
dump_lines : Bytes → ℕ → ℕ → Bytes
dump_lines bytes ofs zero = []
dump_lines bytes ofs (suc n) = dumpline bytes ofs 16 ++ dump_lines bytes (ofs + 16) n

-- `dump`
unfoldable pub dump : Bytes → ℕ → Bytes
unfolding dump_lines
dump bytes length =
    dump_lines bytes 0 (length / 16) ++ dumpline bytes (length / 16 * 16) (length % 16)
