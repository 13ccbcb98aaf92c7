-- ===== src/Tests/Wire.antt =====
-- Runs of the escape code and of the payload blocks.
use yamashnik.Wire.{read_escaped_bytes}
use yamashnik.Prelude.{Bytes, ◌∷◌, ◌≡◌, [], ◌++◌, arith, refl}
use yamashnik.Wire.Block.{read_escaped_bytes-escaped, escaped}

abbrev three : Bytes
three = 0xff ∷ 0x00 ∷ 0x80 ∷ []

read_escaped_bytes-escaped_example :
    read_escaped_bytes (0xf0 ∷ 0x00 ∷ (escaped three ++ 0x83 ∷ [])) 2 3 ≡ three
read_escaped_bytes-escaped_example =
    read_escaped_bytes-escaped (0xf0 ∷ 0x00 ∷ []) three (0x83 ∷ []) 2 (omega arith) refl
