-- ===== src/Bdos/Scan.antt =====
-- A client's loop over `sequentialRead` of sw/spyvspy/spybdos.h, from a file's start to its end.
use yamashnik.Bdos.Position.{IsPlaced, position, advance-IsNext}
use yamashnik.Prelude.{
  ℕ, zero, suc, ◌-◌, ◌%◌, ◌<◌, ◌≤◌, ◌≡◌, refl, sym, ap, ap₂, ◌∙◌, true, false, [], ◌++◌, Option,
  none, some, Bytes, arith, Run, done, ◌>>=◌, length, length-drop, length-take, take, drop,
  take_all, drop_all, take-append-drop, append_assoc, append-nil, replicate, leb, ◌==◌, Bool-cases,
  inl, inr, leb→le, ◌*◌, ◌+◌, ltb, drop-drop, ltb→lt,
}
use yamashnik.Fcb.{Fcb, get_file_name, extract_file_name, c_string}
use yamashnik.Request.{Request}
use yamashnik.Response.{Response, reply, respond, set_aux_data, alloc_dma, assign_fcb}
use yamashnik.Disk.{Host, fopen, read_at}
use yamashnik.Bdos.State.{World, newline}
use yamashnik.Bdos.Read.{sequential_read, record_at}
use yamashnik.Bdos.Sequential.{record_answer, next_block, sequential_read_record}

-- The client's loop: it sends back the block of each answer, keeps the data while the result is 0 and
-- stops at another. `none` is a loop that has run out of fuel.

joined : Bytes → Option Bytes → Option Bytes
joined bs none = none
joined bs (some rest) = some (bs ++ rest)

-- What the client does with an answer, given the rest of its loop.
go_on : (Fcb → World → Run (Option Bytes)) → Response × World → Run (Option Bytes)
go_on loop (r, w) = elim (reply r) [
  | none ↦ done none
  | some (result, bs, f) ↦ elim (result == 0) [
    | true ↦ loop f w >>= λ rest. done (joined bs rest)
    | false ↦ done (some [])
  ]
]

pub read_all : ℕ → Host → Request → World → Run (Option Bytes)
read_all zero host req w = done none
read_all (suc fuel) host req w =
    sequential_read host req w >>= go_on (λ f w'. read_all fuel host (record req { block = f }) w')

abbrev zeros : ℕ → Bytes
zeros n = replicate n 0

-- Bytes filled up with zeros to whole records.
abbrev pub whole_records : Bytes → Bytes
whole_records c = c ++ replicate ((128 - length c % 128) % 128) 0

whole_records-step :
    (c : Bytes)
    → 0 < length c
    → whole_records c
      ≡ (take 128 c ++ replicate (128 - length (take 128 c)) 0) ++ whole_records (drop 128 c)
whole_records-step c h = elim (Bool-cases (leb 128 (length c))) [
  | inl long ↦
      let full : 128 ≤ length c = leb→le 128 (length c) long in
      let none_left : 128 - length (take 128 c) ≡ 0 = omega (arith, length-take 128 c) in
      let same : (128 - length (drop 128 c) % 128) % 128 ≡ (128 - length c % 128) % 128 =
        omega (arith, length-drop 128 c) in
      let back = whole_records (drop 128 c) in
      sym (
        ap (λ k. (take 128 c ++ zeros k) ++ back) none_left
        ∙ ap (λ t. t ++ back) (append-nil (take 128 c))
        ∙ sym (append_assoc (take 128 c) (drop 128 c) _)
        ∙ ap₂ (λ t k. t ++ zeros k) (take-append-drop 128 c) same)
  | inr short ↦
      let few : length c < 128 = ground arith in
      let fill : (128 - length c % 128) % 128 ≡ 128 - length c = omega arith in
      rw (take_all 128 c (omega arith), drop_all 128 c (omega arith), fill)
        (sym (append-nil (c ++ zeros (128 - length c))))
]

record_answer-reply :
    (bs : Bytes) (f : Fcb) (result : ℕ) → reply (record_answer bs f result) ≡ some (result, bs, f)
unfolding reply respond set_aux_data alloc_dma assign_fcb
record_answer-reply bs f result = refl

go_on-zero :
    (loop : Fcb → World → Run (Option Bytes)) (bs : Bytes) (f : Fcb) (w : World)
    → go_on loop (record_answer bs f 0, w) ≡ (loop f w >>= λ rest. done (joined bs rest))
unfolding go_on
go_on-zero loop bs f w = ground (arith, record_answer-reply bs f 0)

go_on-one :
    (loop : Fcb → World → Run (Option Bytes)) (bs : Bytes) (f : Fcb) (w : World)
    → go_on loop (record_answer bs f 1, w) ≡ done (some [])
unfolding go_on
go_on-one loop bs f w = ground (arith, record_answer-reply bs f 1)

-- One round of the client's loop.
read_all-round :
    (fuel : ℕ) (host : Host) (req : Request) (w w' : World) (bs : Bytes) (f : Fcb)
    → sequential_read host req w ≡ done (record_answer bs f 0, w')
    → read_all (suc fuel) host req w
      ≡ (read_all fuel host (record req { block = f }) w' >>= λ rest. done (joined bs rest))
unfolding read_all
read_all-round fuel host req w w' bs f e =
    ap (λ m. m >>= go_on (λ g v. read_all fuel host (record req { block = g }) v)) e
    ∙ go_on-zero _ bs f w'

read_all-stop :
    (fuel : ℕ) (host : Host) (req : Request) (w w' : World) (bs : Bytes) (f : Fcb)
    → sequential_read host req w ≡ done (record_answer bs f 1, w')
    → read_all (suc fuel) host req w ≡ done (some [])
unfolding read_all
read_all-stop fuel host req w w' bs f e =
    ap (λ m. m >>= go_on (λ g v. read_all fuel host (record req { block = g }) v)) e
    ∙ go_on-one _ bs f w'

-- The block of the next request stands one record on, for the same file.
next-IsPlaced :
    (f : Fcb)
    → IsPlaced f
    → position f + 1 < 65536 * 128
    → IsPlaced (next_block f)
      × (position (next_block f) ≡ position f + 1)
      × ((next_block f).file_size ≡ f.file_size)
      × (get_file_name (next_block f) ≡ get_file_name f)
unfolding get_file_name
next-IsPlaced f p room =
    let g = record f { record_size_lo = 0; record_size_hi = 128 } in
    let n = advance-IsNext g (record { lo = p.lo; hi = p.hi; current = p.current }) room in
    (n.placed, n.moved, n.size, ap (λ t. c_string (extract_file_name t)) n.name)

-- What is left of a file at a block's position.
abbrev left_at : Fcb → Bytes → Bytes
left_at f content = drop (128 * position f) content

left_step :
    (f g : Fcb) (content : Bytes)
    → position g ≡ position f + 1
    → 128 * position f < length content
    → whole_records (left_at f content)
      ≡ record_at (128 * position f) content ++ whole_records (left_at g content)
unfolding read_at
left_step f g content moved inside =
    let on : 128 * position g ≡ 128 * position f + 128 = omega arith in
    whole_records-step (left_at f content) (omega (arith, length-drop (128 * position f) content))
    ∙ ap (λ c. record_at (128 * position f) content ++ whole_records c)
        (drop-drop 128 (128 * position f) content ∙ ap (λ k. drop k content) (sym on))

read_all-left :
    (fuel : ℕ) (host : Host) (req : Request) (w : World) (content : Bytes)
    → fopen host (get_file_name req.block) w.files ≡ some content
    → IsPlaced req.block
    → req.block.file_size ≡ length content
    → length content ≤ 737820
    → length content - 128 * position req.block + 128 ≤ 128 * fuel
    → read_all fuel host req w ≡ done (some (whole_records (left_at req.block content)))
unfolding newline joined
read_all-left zero host req w content o p s small enough = absurd (omega arith)
read_all-left (suc fuel) host req w content o p s small enough =
    elim (Bool-cases (ltb (128 * position req.block) (length content))) [
      | inl inside ↦
          let in_file : 128 * position req.block < length content = ltb→lt _ _ inside in
          let (p', moved, size, name) = next-IsPlaced req.block p (omega arith) in
          let f = next_block req.block in
          read_all-round fuel host req w (newline req w)
            (record_at (128 * position req.block) content) f
            (sequential_read_record host req w content o p s ∙ rw inside)
          ∙ ap
              (λ m. m >>= λ rest. done (joined (record_at (128 * position req.block) content) rest))
              (read_all-left fuel host (record req { block = f }) (newline req w) content
                (ap (λ n. fopen host n w.files) name ∙ o) p' (size ∙ s) small
                (omega (arith, moved)))
          ∙ ap (λ c. done (some c)) (sym (left_step req.block f content moved in_file))
      | inr behind ↦
          let past : length content ≤ 128 * position req.block = ground arith in
          read_all-stop fuel host req w (newline req w)
            (record_at (128 * position req.block) content) (next_block req.block)
            (sequential_read_record host req w content o p s ∙ rw behind)
          ∙ rw (drop_all (128 * position req.block) content past)
    ]

-- A client starts with a well placed block at position 0, of a file that can be opened, with the
-- block's size that of the file, at most 737820 bytes, and reads sequentially until the result is
-- not 0. It gets the bytes of the file, filled with zeros to whole records of 128. A fuel of one
-- more than the whole records is enough, so the loop ends.
pub read_all-whole :
    (fuel : ℕ) (host : Host) (req : Request) (w : World) (content : Bytes)
    → fopen host (get_file_name req.block) w.files ≡ some content
    → IsPlaced req.block
    → position req.block ≡ 0
    → req.block.file_size ≡ length content
    → length content ≤ 737820
    → length content + 128 ≤ 128 * fuel
    → read_all fuel host req w ≡ done (some (whole_records content))
read_all-whole fuel host req w content o p start s small enough =
    let origin : 128 * position req.block ≡ 0 = omega (arith, start) in
    read_all-left fuel host req w content o p s small (omega (arith, start))
    ∙ ap (λ k. done (some (whole_records (drop k content)))) origin
