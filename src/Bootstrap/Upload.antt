-- ===== src/Bootstrap/Upload.antt =====
-- The second phase of `Bootstrap` of sw/spyvspy/spy.cpp, as the workstation sees it.
use yamashnik.Prelude.{
  ℕ, ◌-◌, ◌≤◌, ◌<◌, ◌≡◌, ◌^◌, refl, ap, ◌∙◌, inl, inr, Bool-cases, [], ◌∷◌, ◌++◌, Bytes, arith, ltb,
  le→leb, if◌then◌else◌, length, length-drop, length-set, take, take_all, drop, append_assoc, Run,
  done,
}
use yamashnik.Transport.{send_memory}
use yamashnik.Bootstrap.{Images, bdos_start, patched_ram, send_area, upload}
use yamashnik.Bootstrap.Remote.{
  Memory, for_command, launched, remote, remote_step, placed, remote-send_memory,
}

-- Bytes of the memory image from an address up to another, in memory.
abbrev pub area : Bytes → ℕ → ℕ → Memory → Memory
area ram start end mem = placed start (take (end - start) (drop start ram)) mem

-- What is sent, if it is, has this effect.
abbrev pub Effect : Run Bytes → (Memory → Memory) → Type 0
Effect m f =
    (bs : Bytes) × (m ≡ done bs)
    × ((rest : Bytes) (mem : Memory)
        → remote (bs ++ rest) for_command mem ≡ remote rest for_command (f mem))

Effect-area :
    (ram : Bytes) (start end : ℕ)
    → start < end
    → end ≤ length ram
    → end < 2 ^ 16
    → Effect (send_area ram start end) (area ram start end)
unfolding send_area
Effect-area ram start end lt fits short = rw (le→leb start end (omega arith)) (
    remote-send_memory (drop start ram) start (end - start) (omega arith)
      (omega (arith, length-drop start ram)) (omega arith) (omega arith))

-- What the second phase does to the memory of the workstation.
abbrev pub uploaded : Images → ℕ → ℕ → Memory → Memory
uploaded images boot_start boot_end mem =
    let start = bdos_start images.ram in
    let ram = patched_ram images.ram in
    let zero_page = placed 0 (take 256 images.ram) mem in
    placed 0xe900 images.bdos (
      if ltb start boot_start
      then area ram boot_end 0xf380 (area ram start boot_start zero_page)
      else area ram start 0xf380 zero_page)

length-patched_ram : (ram : Bytes) → length (patched_ram ram) ≡ length ram
unfolding patched_ram
length-patched_ram ram = length-set ram _ 0

-- Parts that are sent one after another.
Effect-parts :
    (images : Images) (boot_start boot_end : ℕ) (f g h k : Memory → Memory)
    → Effect (send_memory images.ram 0 256) f
    → Effect
        (if ltb (bdos_start images.ram) boot_start
          then send_area (patched_ram images.ram) (bdos_start images.ram) boot_start
          else done [])
        g
    → Effect
        (send_area
          (patched_ram images.ram)
          (if ltb (bdos_start images.ram) boot_start then boot_end else bdos_start images.ram)
          0xf380)
        h
    → Effect (send_memory images.bdos 0xe900 (length images.bdos)) k
    → Effect (upload images boot_start boot_end) (λ mem. k (h (g (f mem))))
unfolding upload
Effect-parts images boot_start boot_end f g h k (a, ea, fa) (b, eb, gb) (c, ec, hc) (d, ed, kd) = (
  a ++ (b ++ (c ++ d)),
  rw (ea, eb, ec, ed) refl,
  λ rest mem.
      ap (λ t. remote t for_command mem) (order rest)
      ∙ fa (b ++ (c ++ (d ++ rest))) mem
      ∙ gb (c ++ (d ++ rest)) (f mem)
      ∙ hc (d ++ rest) (g (f mem))
      ∙ kd rest (h (g (f mem))),
)
  where
    order : (rest : Bytes) → (a ++ (b ++ (c ++ d))) ++ rest ≡ a ++ (b ++ (c ++ (d ++ rest)))
    order rest = rw (append_assoc, append_assoc, append_assoc) refl

-- The whole upload, for images that fit.
pub Effect-upload :
    (images : Images) (boot_start boot_end : ℕ)
    → length images.ram ≡ 2 ^ 16
    → 0 < length images.bdos
    → length images.bdos ≤ 2 ^ 16 - 0xe900
    → boot_start < 0xf380
    → boot_end < 0xf380
    → bdos_start images.ram < 0xf380
    → Effect (upload images boot_start boot_end) (uploaded images boot_start boot_end)
Effect-upload images boot_start boot_end size some_bdos fits low_start low_end low =
    elim (Bool-cases (ltb (bdos_start images.ram) boot_start)) [
      | inl below ↦
          let lower : bdos_start images.ram < boot_start = ground arith in
          let (bs, e, f) =
            Effect-parts images boot_start boot_end (placed 0 (take 256 images.ram))
              (area ram start boot_start) (area ram boot_end 0xf380)
              (placed 0xe900 (take (length images.bdos) images.bdos)) zero_page
              (rw below
                (Effect-area ram start boot_start lower (omega (arith, whole)) (omega arith)))
              (rw below
                (Effect-area ram boot_end 0xf380 low_end (omega (arith, whole)) (omega arith)))
              file_services in
          (bs, e, λ rest mem. f rest mem ∙ rw (below, all_bdos) refl)
      | inr above ↦
          let (bs, e, f) =
            Effect-parts images boot_start boot_end (placed 0 (take 256 images.ram)) (λ m. m)
              (area ram start 0xf380) (placed 0xe900 (take (length images.bdos) images.bdos))
              zero_page (rw above ([], refl, λ rest m. refl))
              (rw above (Effect-area ram start 0xf380 low (omega (arith, whole)) (omega arith)))
              file_services in
          (bs, e, λ rest mem. f rest mem ∙ rw (above, all_bdos) refl)
    ]
  where
    start : ℕ
    start = bdos_start images.ram

    ram : Bytes
    ram = patched_ram images.ram

    whole : length ram ≡ 2 ^ 16
    whole = length-patched_ram images.ram ∙ size

    zero_page : Effect (send_memory images.ram 0 256) (placed 0 (take 256 images.ram))
    zero_page =
        remote-send_memory images.ram 0 256 (omega arith) (omega (arith, size)) (omega arith)
          (omega arith)

    file_services :
        Effect
          (send_memory images.bdos 0xe900 (length images.bdos))
          (placed 0xe900 (take (length images.bdos) images.bdos))
    file_services =
        remote-send_memory images.bdos 0xe900 (length images.bdos) some_bdos (omega arith)
          (omega arith) (omega arith)

    all_bdos : take (length images.bdos) images.bdos ≡ images.bdos
    all_bdos = take_all (length images.bdos) images.bdos (omega arith)

-- The command behind all uploads
pub remote-launch : (mem : Memory) → remote (2 ∷ []) for_command mem ≡ (launched, mem)
unfolding remote remote_step
remote-launch mem = refl

-- For a memory image of 2^16 bytes, an image of the file services that fits behind 0xe900, bootstrap code
-- below 0xf380, and an image that starts below 0xf380: the upload can be sent, and the workstation's loop,
-- reading it and the launch command behind it, launches with exactly this memory: the first 256 bytes of
-- the image; where the image starts below the bootstrap code, the image from there to the code and from
-- the code's end to 0xf380, else the image from its start to 0xf380; and the file services at 0xe900.
pub remote-upload :
    (images : Images) (boot_start boot_end : ℕ) (mem : Memory)
    → length images.ram ≡ 2 ^ 16
    → 0 < length images.bdos
    → length images.bdos ≤ 2 ^ 16 - 0xe900
    → boot_start < 0xf380
    → boot_end < 0xf380
    → bdos_start images.ram < 0xf380
    → (bs : Bytes) × (upload images boot_start boot_end ≡ done bs)
      × (remote (bs ++ 2 ∷ []) for_command mem
          ≡ (launched, uploaded images boot_start boot_end mem))
remote-upload images boot_start boot_end mem size some_bdos fits low_start low_end low =
    let (bs, e, f) =
      Effect-upload images boot_start boot_end size some_bdos fits low_start low_end low in
    (bs, e, f (2 ∷ []) mem ∙ remote-launch (uploaded images boot_start boot_end mem))
