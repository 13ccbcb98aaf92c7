-- ===== src/Bootstrap/Launch.antt =====
-- `Bootstrap` of sw/spyvspy/spy.cpp as a whole, up to the launch of the workstation.
use yamashnik.Prelude.{
  ℕ, ◌<◌, ◌≤◌, ◌≡◌, ◌-◌, ◌^◌, refl, sym, ◌∙◌, Bool, true, false, inl, inr, Bool-cases, List, [],
  ◌∷◌, ◌++◌, Option, none, some, Bytes, arith, leb, leb→le, min, length, length-take, take,
  take_all, done, ◌>>=◌, Every, >>=-Every, >>=-ext, drop,
}
use yamashnik.Serial.{Device, transmit}
use yamashnik.Response.{send_byte}
use yamashnik.Transport.{send_memory}
use yamashnik.BasicSend.{Basic, send_command}
use yamashnik.BasicSend.Files.{send_bin, word_at, addresses, read_into, with_header}
use yamashnik.Sender.{Sender}
use yamashnik.Bootstrap.{
  Images, bdos_start, upload, upload_program, load_file, load_content, path_of, send_bootstrap,
  bootstrap, in_directory, strap_on, width_command, Sender,
}
use yamashnik.Bootstrap.Remote.{Memory, for_command, launched, remote, placed, remote-send_memory}
use yamashnik.Bootstrap.Upload.{Effect, Effect-upload, uploaded, remote-launch}

-- The program area behind the upload of the first file named, if it can be opened.
abbrev pub programmed : Bytes → (Bytes → Option Bytes) → List Bytes → Memory → Memory
programmed dir files [] mem = mem
programmed dir files (name ∷ names) mem = elim (files (path_of dir name)) [
  | none ↦ mem
  | some content ↦ placed 0x100 (take 0x8000 content) mem
]

take-min : (content : Bytes) (n : ℕ) → take (min (length content) n) content ≡ take n content
take-min content n = elim (Bool-cases (leb (length content) n)) [
  | inl short ↦
      let whole : length content ≤ n = leb→le (length content) n short in
      let least : min (length content) n ≡ length content = omega arith in
      rw least (take_all (length content) content (omega arith) ∙ sym (take_all n content whole))
  | inr long ↦ let least : min (length content) n ≡ n = ground arith in rw least refl
]

Effect-sending :
    (bs : Bytes)
    → length bs ≤ 0x8000
    → Effect
        (elim bs [ [] ↦ done [] | b ∷ rest ↦ send_memory (b ∷ rest) 0x100 (length (b ∷ rest)) ])
        (placed 0x100 bs)
Effect-sending [] h = ([], refl, λ rest mem. refl)
Effect-sending (b ∷ bs) h =
    let (sent, e, f) =
      remote-send_memory (b ∷ bs) 0x100 (length (b ∷ bs)) (omega arith) (omega arith) (omega arith)
        (omega arith) in
    (sent, e, λ rest mem. f rest mem ∙ rw (take_all (length (b ∷ bs)) (b ∷ bs) (omega arith)) refl)

-- What `upload_program` does with what `loadFile` has left.
Effect-loaded :
    (found : Option Bytes)
    → Effect
        (elim ((load_content found none).1) [
          | none ↦ done []
          | some [] ↦ done []
          | some (b ∷ bs) ↦ send_memory (b ∷ bs) 0x100 (length (b ∷ bs))
        ])
        (λ mem. elim found [ none ↦ mem | some content ↦ placed 0x100 (take 0x8000 content) mem ])
unfolding load_content
Effect-loaded none = ([], refl, λ rest mem. refl)
Effect-loaded (some content) =
    rw (take-min content 0x8000)
      (Effect-sending (take 0x8000 content) (omega (arith, length-take 0x8000 content)))

Effect-program :
    (dir : Bytes) (files : Bytes → Option Bytes) (names : List Bytes)
    → Effect (upload_program dir files names) (programmed dir files names)
unfolding upload_program load_file
Effect-program dir files [] = ([], refl, λ rest mem. refl)
Effect-program dir files (name ∷ names) = Effect-loaded (files (path_of dir name))

-- The addresses, where there are some, are those of the file behind its magic.
abbrev Announced : Bytes → Option (ℕ × ℕ) × Basic → Type 0
Announced file (none, s) = Unit
Announced file (some (start, end), s) = (start ≡ word_at file 0) × (end ≡ word_at file 2)

addresses-Announced :
    (file : Bytes) (r : Bool × Basic)
    → Every (Announced file) (addresses (word_at file 0) (word_at file 2) r)
addresses-Announced file (true, s) = (refl, refl)
addresses-Announced file (false, s) = tt

send_bin-Announced :
    (fuel student : ℕ) (file : Bytes) (s : Basic)
    → Every (Announced file) (send_bin fuel student file s)
unfolding send_bin
send_bin-Announced fuel student file s = elim (Bool-cases (leb 6 (length file))) [
  | inl enough ↦ rw enough (
      >>=-Every (Announced file) (read_into _ (drop 6 file) s.bin_buf) _ (λ buf.
        >>=-Every (Announced file) (with_header fuel student _ _ _ _) _ (addresses-Announced file)))
  | inr short ↦ rw short tt
]

send_bootstrap-Announced :
    (fuel student : ℕ) (code : Bytes) (s : Basic)
    → Every (Announced code) (send_bootstrap fuel student (some (0xfe ∷ code)) s)
unfolding send_bootstrap
send_bootstrap-Announced fuel student code s =
    >>=-Every (Announced code) (send_command student width_command s.line) _ behind
  where
    behind :
        (r : Bool × Device Sender)
        → Every (Announced code) (elim r.0 [
          | true ↦ send_bin fuel student code (record s { line = r.1 })
          | false ↦ done (none, record s { line = r.1 })
        ])
    behind (true, line) = send_bin-Announced fuel student code (record s { line = line })
    behind (false, line) = tt

-- `Bootstrap` behind its first phase: nothing where that has failed, else these bytes, and 1.
abbrev pub after_boot : Bytes → Option (ℕ × ℕ) × Basic → Bool × Basic
after_boot bs (none, s) = (false, s)
after_boot bs (some addresses, s) =
    (true, record s { line = record (s.line) { port = transmit bs s.line.port } })

pub bootstrap-launched :
    (fuel student : ℕ) (dir : Bytes) (files : Bytes → Option Bytes) (names : List Bytes)
    (images : Images) (code : Bytes) (s : Basic)
    → files (in_directory dir strap_on) ≡ some (0xfe ∷ code)
    → word_at code 0 < 0xf380
    → word_at code 2 < 0xf380
    → length images.ram ≡ 2 ^ 16
    → 0 < length images.bdos
    → length images.bdos ≤ 2 ^ 16 - 0xe900
    → bdos_start images.ram < 0xf380
    → (bs : Bytes) × (bootstrap fuel student dir files names images s
        ≡ (send_bootstrap fuel student (some (0xfe ∷ code)) s >>= λ r. done (after_boot bs r)))
      × ((mem : Memory)
          → remote bs for_command mem ≡ (
            launched,
            programmed dir files names (uploaded images (word_at code 0) (word_at code 2) mem),
          ))
unfolding bootstrap
bootstrap-launched fuel student dir files names images code s there low high size some_bdos fits
      start =
    let (up, e1, f1) =
      Effect-upload images (word_at code 0) (word_at code 2) size some_bdos fits low high start in
    let (prog, e2, f2) = Effect-program dir files names in
    (
      up ++ (prog ++ send_byte 2),
      rw there (
          >>=-ext (Announced code) (send_bootstrap fuel student (some (0xfe ∷ code)) s) _ _
            (send_bootstrap-Announced fuel student code s) (behind up e1 prog e2)),
      λ mem. f1 (prog ++ send_byte 2) mem ∙ f2 (send_byte 2) _ ∙ remote-launch _,
    )
  where
    behind :
        (up : Bytes)
        → upload images (word_at code 0) (word_at code 2) ≡ done up
        → (prog : Bytes) → upload_program dir files names ≡ done prog
        → (r : Option (ℕ × ℕ) × Basic) → Announced code r
        → (elim r.0 [
          | none ↦ done (false, r.1)
          | some (boot_start, boot_end) ↦ do
            memory ← upload images boot_start boot_end
            program ← upload_program dir files names
            let port = transmit (memory ++ (program ++ send_byte 2)) r.1.line.port
            done (true, record (r.1) { line = record (r.1.line) { port = port } })
        ])
          ≡ done (after_boot (up ++ (prog ++ send_byte 2)) r)
    behind up e1 prog e2 (none, s1) h = refl
    behind up e1 prog e2 (some (a, b), s1) (ea, eb) = rw (ea, eb, e1, e2) refl
