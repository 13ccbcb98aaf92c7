-- ===== src/Bdos/Emit.antt =====
-- The answers of the handlers of sw/spyvspy/spybdos.h and `emit` of sw/spyvspy/spy.h.
use yamashnik.Fcb.{record_size, Fcb, get_file_name}
use yamashnik.Dirent.{dirent_bytes}
use native.Mathlib.Nat.{div-mul-le_self, mul-le-mul_right, min-le_right}
use yamashnik.Prelude.{
  ℕ, ◌*◌, ◌/◌, ◌≤◌, ◌≡◌, ◌≢◌, refl, inl, inr, Option, none, some, Bytes, arith, length, Run, done,
  exited, fault, running, Bool-cases, Option-cases, replicate, min, leb, Bool, true, false, u32,
  ◌>>=◌, ◌^◌,
}
use yamashnik.Request.{Request}
use yamashnik.Request.Table.{
  Func, func_of, unknown, select_disk, close_file, delete_file, creat, rename_file,
  get_login_vector, get_current_drive, get_alloc_info, get_file_size, set_random_record,
  random_block_write, random_write_zero, abs_sector_write, open_file, search_first, search_next,
  seq_read, seq_write, random_read, random_write, random_block_read, abs_sector_read,
}
use yamashnik.Response.Chunk.{send_chunk-le, send_chunk-all}
use yamashnik.Response.{
  Response, emit, emit_tokens, send_chunk, respond, set_aux_data, alloc_dma, assign_dma, assign_fcb,
  set_dma_size,
}
use yamashnik.Disk.{Host, read_at, fclose, fopen}
use yamashnik.Globor.{Globor}
use yamashnik.Bdos.State.{World, Answer, on_open, random_offset, sequential_offset, get_aux_data}
use yamashnik.Bdos.Exec.{exec, exec_func}
use yamashnik.Bdos.Drive
use yamashnik.Bdos.Read
use yamashnik.Bdos.Write
use yamashnik.Bdos.Find

-- The bytes of a response are defined.
abbrev pub Emits : Response → Type 0
Emits r = (bs : Bytes) × (emit r ≡ done bs)

-- A handler's answer, if it gives one, can be sent.
abbrev Sends : Answer → Type 0
Sends (done (r, w)) = Emits r
Sends exited = Unit
Sends fault = Unit
Sends running = Unit

on_open-Sends :
    (o : Option Bytes) (work : Bytes → Answer)
    → ((c : Bytes) → Sends (work c))
    → Sends (on_open o work)
on_open-Sends none work k = tt
on_open-Sends (some c) work k = k c

read_answer-Sends :
    (bs : Bytes) (f : Fcb) (result : ℕ) (req : Request) (w : World)
    → Sends (Read.read_answer bs f result req w)
unfolding Read.read_answer emit emit_tokens respond set_aux_data alloc_dma assign_fcb
read_answer-Sends bs f result req w = rw (send_chunk-all bs) (_, refl)

few : (n size len : ℕ) → min n (len / size) * size ≤ len
few n size len =
    let fewer : min n (len / size) * size ≤ len / size * size =
      mul-le-mul_right size (min-le_right n (len / size)) in
    omega (arith, div-mul-le_self len size, fewer)

block_read-Sends :
    (offset nrecords size : ℕ) (content : Bytes) (req : Request) (w : World)
    → Sends (Read.block_read offset nrecords size content req w)
unfolding Read.block_read Read.block_read_answer emit emit_tokens respond set_aux_data alloc_dma
    set_dma_size assign_fcb
block_read-Sends offset nrecords size content req w =
    let got = read_at offset (nrecords * size) content in
    let fits : min nrecords (length got / size) * size ≤ length got =
      few nrecords size (length got) in
    rw (send_chunk-le got (min nrecords (length got / size) * size) fits) (_, refl)

random_block_read_open-Sends :
    (content : Bytes) (req : Request) (w : World)
    → Sends (Read.random_block_read_open content req w)
unfolding Read.random_block_read_open
random_block_read_open-Sends content req w =
    elim (Bool-cases
      (leb req.block.file_size (u32 (req.block.random_record * record_size req.block)))) [
        | inl behind ↦ rw behind (
            unfold Read.block_read_answer emit emit_tokens respond set_aux_data set_dma_size
              assign_fcb send_chunk in
            (_, refl))
        | inr inside ↦
            elim (Bool-cases (leb (2 ^ 31) (get_aux_data req 6 * record_size req.block))) [
              | inl over ↦ rw (inside, over) tt
              | inr small ↦ rw (inside, small) (block_read-Sends _ _ _ content req w)
            ]
      ]

random_read_open-Sends :
    (content : Bytes) (req : Request) (w : World) → Sends (Read.random_read_open content req w)
unfolding Read.random_read_open
random_read_open-Sends content req w =
    elim (Bool-cases (leb req.block.file_size (random_offset req.block))) [
      | inl behind ↦ rw behind (read_answer-Sends _ _ _ req w)
      | inr inside ↦ rw inside (read_answer-Sends _ _ _ req w)
    ]

sequential_read_open-Sends :
    (content : Bytes) (req : Request) (w : World) → Sends (Read.sequential_read_open content req w)
unfolding Read.sequential_read_open
sequential_read_open-Sends content req w =
    elim (Bool-cases (leb req.block.file_size (sequential_offset req.block))) [
      | inl behind ↦ rw behind (read_answer-Sends _ _ _ req w)
      | inr inside ↦ rw inside (read_answer-Sends _ _ _ req w)
    ]

write_open-Sends :
    (sequential : Bool) (content : Bytes) (req : Request) (w : World)
    → Sends (Write.write_open sequential content req w)
unfolding Write.write_open emit emit_tokens respond set_aux_data assign_fcb
write_open-Sends true content req w = (_, refl)
write_open-Sends false content req w = (_, refl)

found-Sends :
    (host : Host) (m : Run (Option Bytes × Globor)) (req : Request) (w : World)
    → Sends (m >>= λ (found, g). Find.found_answer host found g req w)
unfolding Find.found_answer emit emit_tokens respond set_aux_data assign_dma
found-Sends host (done (found, g)) req w =
    rw (send_chunk-all (dirent_bytes (Find.entry_for host w.files found))) (_, refl)
found-Sends host exited req w = tt
found-Sends host fault req w = tt
found-Sends host running req w = tt

open_file-Sends : (host : Host) (req : Request) (w : World) → Sends (Read.open_file host req w)
unfolding Read.open_file fclose emit emit_tokens respond set_aux_data assign_fcb
open_file-Sends host req w = elim (Option-cases (fopen host (get_file_name req.block) w.files)) [
  | inl gone ↦ rw gone tt
  | inr (content, known) ↦ rw known (_, refl)
]

exec-Sends :
    (f : Func) (host : Host) (req : Request) (w : World) → f ≢ unknown → Sends (exec f host req w)
unfolding exec emit emit_tokens respond set_aux_data alloc_dma assign_fcb Drive.select_disk
    Drive.get_current_drive Drive.get_login_vector Drive.close_file Drive.abs_sector_read
    Drive.stub_func Read.open_file Read.get_file_size Read.sequential_read Read.random_read
    Read.random_block_read Write.delete_file Write.rename_file Write.create_file Write.random_write
    Find.find_first Find.find_next fclose
exec-Sends select_disk host req w n = (_, refl)
exec-Sends close_file host req w n = (_, refl)
exec-Sends delete_file host req w n = (_, refl)
exec-Sends creat host req w n = (_, refl)
exec-Sends rename_file host req w n = (_, refl)
exec-Sends get_login_vector host req w n = (_, refl)
exec-Sends get_current_drive host req w n = (_, refl)
exec-Sends get_alloc_info host req w n = (_, refl)
exec-Sends get_file_size host req w n = (_, refl)
exec-Sends set_random_record host req w n = (_, refl)
exec-Sends random_block_write host req w n = (_, refl)
exec-Sends random_write_zero host req w n = (_, refl)
exec-Sends abs_sector_write host req w n = (_, refl)
exec-Sends open_file host req w n = open_file-Sends host req w
exec-Sends search_first host req w n = found-Sends host _ req w
exec-Sends search_next host req w n = found-Sends host _ req w
exec-Sends seq_read host req w n = on_open-Sends _ _ (λ c. sequential_read_open-Sends c req w)
exec-Sends seq_write host req w n =
    on_open-Sends (fopen host (get_file_name req.block) w.files)
      (λ c. Write.write_open true c req w) (λ c. write_open-Sends true c req w)
exec-Sends random_read host req w n = on_open-Sends _ _ (λ c. random_read_open-Sends c req w)
exec-Sends random_write host req w n =
    on_open-Sends (fopen host (get_file_name req.block) w.files)
      (λ c. Write.write_open false c req w) (λ c. write_open-Sends false c req w)
exec-Sends random_block_read host req w n =
    on_open-Sends _ _ (λ c. random_block_read_open-Sends c req w)
exec-Sends abs_sector_read host req w n =
    rw (send_chunk-all (replicate (0x200 * get_aux_data req 1) 0)) (_, refl)
exec-Sends unknown host req w n = absurd (n refl)

Sends-done : (m : Answer) (r : Response) (w : World) → Sends m → m ≡ done (r, w) → Emits r
Sends-done (done (r', w')) r w h e = let same : r' ≡ r = cc e in rw same at h
Sends-done exited r w h e = cc
Sends-done fault r w h e = cc
Sends-done running r w h e = cc

-- Whenever `ExecFunc` returns for a code that it has a case for, everything that the response's pattern
-- sends has been set, and enough of it, so `emit` sends it.
pub exec_func-Emits :
    (host : Host) (req : Request) (w w' : World) (r : Response)
    → func_of req.func ≢ unknown
    → exec_func host req w ≡ done (r, w')
    → Emits r
unfolding exec_func
exec_func-Emits host req w w' r n e =
    Sends-done (exec_func host req w) r w' (exec-Sends (func_of req.func) host req w n) e
