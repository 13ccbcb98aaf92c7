-- ===== src/BasicSend/Rom.antt =====
-- The memory that `sendROMSection` of sw/spyvspy/basicsend.cpp prepares.
use yamashnik.Prelude.{
  ℕ, ◌+◌, ◌-◌, ◌≤◌, ◌<◌, ◌≡◌, refl, sym, ap, ap₂, ◌∙◌, [], ◌∷◌, ◌++◌, Option, none, some, Bytes,
  arith, le→leb, length, length-append, length-take, length-drop, length-set, set, set-append_left,
  set-append_right, take, take-append, drop, drop-drop, drop-append, append_assoc, done,
}
use yamashnik.Sender.{splice}
use yamashnik.BasicSend.{rom2bin_start_code}
use yamashnik.BasicSend.Files.{read_into, rom_section, patched}

-- A patch, if there is one, that lies in the start code.
abbrev pub InCode : ℕ → Option (ℕ × ℕ) → Type 0
InCode size none = Unit
InCode size (some (at, value)) = (size ≤ at) × (at < size + length rom2bin_start_code)

abbrev pub start_code : ℕ → Option (ℕ × ℕ) → Bytes
start_code size none = rom2bin_start_code
start_code size (some (at, value)) = set rom2bin_start_code (at - size) value

-- The section without its first byte, and the start code.
abbrev pub rom_image : Bytes → ℕ → Option (ℕ × ℕ) → Bytes
rom_image section size patch = (0 ∷ drop 1 section) ++ start_code size patch

splice-head :
    (front bs buf : Bytes)
    → splice (front ++ buf) (length front) bs ≡ front ++ (bs ++ drop (length bs) buf)
splice-head front bs buf =
    ap₂ (λ x y. x ++ (bs ++ y)) (take-append (length front) front buf refl) tail
  where
    tail : drop (length front + length bs) (front ++ buf) ≡ drop (length bs) buf
    tail =
        sym (drop-drop (length bs) (length front) (front ++ buf))
        ∙ ap (drop (length bs)) (drop-append (length front) front buf refl)

patched-front :
    (size : ℕ) (patch : Option (ℕ × ℕ)) (section rest : Bytes)
    → length section ≡ size
    → InCode size patch
    → patched patch (section ++ (rom2bin_start_code ++ rest))
      ≡ section ++ (start_code size patch ++ rest)
patched-front size none section rest e h = refl
patched-front size (some (at, value)) section rest e (low, high) =
    set-append_right section (rom2bin_start_code ++ rest) at value (omega (arith, e))
    ∙ ap (λ k. section ++ set (rom2bin_start_code ++ rest) (at - k) value) e
    ∙ ap (λ t. section ++ t)
        (set-append_left rom2bin_start_code rest (at - size) value (omega arith))

-- Once the section has been read.
section-read :
    (section rest : Bytes) (size : ℕ) (patch : Option (ℕ × ℕ))
    → length section ≡ size
    → 0 < size
    → InCode size patch
    → set (patched patch (section ++ (rom2bin_start_code ++ rest))) 0 0
      ≡ rom_image section size patch ++ rest
section-read [] rest size patch e some_bytes h = absurd (omega arith)
section-read (b ∷ section) rest size patch e some_bytes h =
    ap (λ t. set t 0 0) (patched-front size patch (b ∷ section) rest e h)
    ∙ ap (λ t. 0 ∷ t) (sym (append_assoc section (start_code size patch) rest))

-- For a section of at least one byte that the file holds whole, a `binBuf` with room for it and the start
-- code, and a patch in the start code or none: what `sendROMSection` sends from `binBuf` is the section
-- with its first byte replaced by 0, and behind it the start code with the patch; the size of `binBuf`
-- stays.
pub rom_section-rom_image :
    (file buf : Bytes) (size : ℕ) (patch : Option (ℕ × ℕ))
    → 0 < size
    → size ≤ length file
    → size + length rom2bin_start_code ≤ length buf
    → InCode size patch
    → (buf' : Bytes) × (rom_section file size patch buf ≡ done buf')
      × (take (size + length rom2bin_start_code) buf' ≡ rom_image (take size file) size patch)
      × (length buf' ≡ length buf)
unfolding rom_section read_into
rom_section-rom_image file buf size patch some_bytes enough room h = (
  rom_image section size patch ++ rest,
  rw (le→leb (length section) (length buf) (omega (arith, len))) (
      ap done (
        ap (λ t. set (patched patch t) 0 0) placed_code
        ∙ section-read section rest size patch len some_bytes h)),
  take-append (size + length rom2bin_start_code) (rom_image section size patch) rest image_size,
  total,
)
  where
    section : Bytes
    section = take size file

    rest : Bytes
    rest = drop (length rom2bin_start_code) (drop size buf)

    len : length section ≡ size
    len = omega (arith, length-take size file)

    placed_code :
        splice (splice buf 0 section) size rom2bin_start_code
        ≡ section ++ (rom2bin_start_code ++ rest)
    placed_code =
        ap (λ k. splice (section ++ drop k buf) size rom2bin_start_code) all
        ∙ ap (λ k. splice (section ++ drop size buf) k rom2bin_start_code) (sym len)
        ∙ splice-head section rom2bin_start_code (drop size buf)
      where
        all : 0 + length section ≡ size
        all = omega (arith, len)

    code_size : (patch : Option (ℕ × ℕ)) → length (start_code size patch) ≡ 53
    code_size none = refl
    code_size (some (at, value)) = length-set rom2bin_start_code (at - size) value

    image_size : length (rom_image section size patch) ≡ size + length rom2bin_start_code
    image_size = omega (
      arith,
      length-append (0 ∷ drop 1 section) (start_code size patch),
      length-drop 1 section,
      code_size patch,
      len,
    )

    total : length (rom_image section size patch ++ rest) ≡ length buf
    total = omega (
      arith,
      length-append (rom_image section size patch) rest,
      image_size,
      length-drop (length rom2bin_start_code) (drop size buf),
      length-drop size buf,
    )
