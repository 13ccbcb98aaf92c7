-- ===== src/Bdos/Spares.antt =====
-- Which files `ExecFunc` of sw/spyvspy/spybdos.h leaves alone.
use yamashnik.Bdos.Exec.{exec, exec_func}
use yamashnik.Prelude.{
  ◌≢◌, refl, inl, inr, Bool, true, false, Option, none, Bytes, Run, done, exited, fault, running,
  ◌>>=◌, Option-cases, if◌then◌else◌, Bool-cases, All, leb, u32, ◌*◌, ◌^◌, ◌==◌,
}
use yamashnik.Fcb.{get_file_name, get_file_name2, get_extent, record_size}
use yamashnik.Request.{Request}
use yamashnik.Request.Table.{
  Func, func_of, unknown, select_disk, close_file, delete_file, creat, rename_file,
  get_login_vector, get_current_drive, get_alloc_info, get_file_size, set_random_record,
  random_block_write, random_write_zero, abs_sector_write, open_file, search_first, search_next,
  seq_read, seq_write, random_read, random_write, random_block_read, abs_sector_read,
}
use yamashnik.Disk.{Host, fopen, fopen_write, fclose, unlink, rename}
use yamashnik.Globor.{Globor}
use yamashnik.Globor
use yamashnik.Bdos.State.{World, newline, random_offset, sequential_offset, get_aux_data}
use yamashnik.Bdos.Drive
use yamashnik.Bdos.Read
use yamashnik.Bdos.Write
use yamashnik.Bdos.Find
use yamashnik.Bdos.Changed.{
  changed, Spares, put_spares, on_open-Spares, settle-spares, unlink-spares, rename-spares,
  create-spares,
}

module _ (host : Host) (name : Bytes) where
  found-Spares :
      (m : Run (Option Bytes × Globor)) (req : Request) (w : World)
      → Spares name w (m >>= λ (found, g). Find.found_answer host found g req w)
  unfolding Find.found_answer newline
  found-Spares (done (found, g)) req w = refl
  found-Spares exited req w = tt
  found-Spares fault req w = tt
  found-Spares running req w = tt

  open_file-Spares : (req : Request) (w : World) → Spares name w (Read.open_file host req w)
  unfolding Read.open_file fclose newline
  open_file-Spares req w = elim (Option-cases (fopen host (get_file_name req.block) w.files)) [
    | inl gone ↦ rw gone tt
    | inr (content, known) ↦ rw known refl
  ]

  random_block_read_open-Spares :
      (content : Bytes) (req : Request) (w : World)
      → Spares name w (Read.random_block_read_open content req w)
  unfolding Read.random_block_read_open Read.block_read Read.block_read_answer newline
  random_block_read_open-Spares content req w =
      elim (Bool-cases
        (leb req.block.file_size (u32 (req.block.random_record * record_size req.block)))) [
          | inl behind ↦ rw behind refl
          | inr inside ↦
              elim (Bool-cases (leb (2 ^ 31) (get_aux_data req 6 * record_size req.block))) [
                | inl over ↦ rw (inside, over) tt
                | inr small ↦ rw (inside, small) refl
              ]
        ]

  random_read_open-Spares :
      (content : Bytes) (req : Request) (w : World)
      → Spares name w (Read.random_read_open content req w)
  unfolding Read.random_read_open Read.read_answer newline
  random_read_open-Spares content req w =
      elim (Bool-cases (leb req.block.file_size (random_offset req.block))) [
        | inl behind ↦ rw behind refl
        | inr inside ↦ rw inside refl
      ]

  sequential_read_open-Spares :
      (content : Bytes) (req : Request) (w : World)
      → Spares name w (Read.sequential_read_open content req w)
  unfolding Read.sequential_read_open Read.read_answer newline
  sequential_read_open-Spares content req w =
      elim (Bool-cases (leb req.block.file_size (sequential_offset req.block))) [
        | inl behind ↦ rw behind refl
        | inr inside ↦ rw inside refl
      ]

  write_open-Spares :
      (sequential : Bool) (content : Bytes) (req : Request) (w : World)
      → name ≢ get_file_name req.block
      → Spares name w (Write.write_open sequential content req w)
  unfolding Write.write_open newline
  write_open-Spares sequential content req w h =
      put_spares host name (get_file_name req.block) _ w.files h

  exec-Spares :
      (f : Func) (req : Request) (w : World)
      → All (λ n. name ≢ n) (changed f req)
      → Spares name w (exec f host req w)
  unfolding exec newline Drive.select_disk Drive.get_current_drive Drive.get_login_vector
      Drive.close_file Drive.abs_sector_read Drive.stub_func Read.get_file_size Read.sequential_read
      Read.random_read Read.random_block_read Write.delete_file Write.rename_file Write.create_file
      Write.random_write Find.find_first Find.find_next
  exec-Spares select_disk req w h = refl
  exec-Spares close_file req w h = refl
  exec-Spares get_login_vector req w h = refl
  exec-Spares get_current_drive req w h = refl
  exec-Spares get_alloc_info req w h = refl
  exec-Spares get_file_size req w h = refl
  exec-Spares set_random_record req w h = refl
  exec-Spares random_block_write req w h = refl
  exec-Spares random_write_zero req w h = refl
  exec-Spares abs_sector_read req w h = refl
  exec-Spares abs_sector_write req w h = refl
  exec-Spares unknown req w h = refl
  exec-Spares open_file req w h = open_file-Spares req w
  exec-Spares search_first req w h =
      found-Spares (Globor.search_first (host.listing w.files) req.block.name_ext w.bdos.globor) req
        w
  exec-Spares search_next req w h = found-Spares (Globor.search_next w.bdos.globor) req w
  exec-Spares seq_read req w h =
      on_open-Spares host name (fopen host (get_file_name req.block) w.files)
        (λ c. Read.sequential_read_open c req w) w (λ c. sequential_read_open-Spares c req w)
  exec-Spares random_read req w h =
      on_open-Spares host name (fopen host (get_file_name req.block) w.files)
        (λ c. Read.random_read_open c req w) w (λ c. random_read_open-Spares c req w)
  exec-Spares random_block_read req w h =
      on_open-Spares host name (fopen host (get_file_name req.block) w.files)
        (λ c. Read.random_block_read_open c req w) w (λ c. random_block_read_open-Spares c req w)
  exec-Spares seq_write req w h =
      on_open-Spares host name (fopen host (get_file_name req.block) w.files)
        (λ c. Write.write_open true c req w) w (λ c. write_open-Spares true c req w h.0)
  exec-Spares random_write req w h =
      on_open-Spares host name (fopen host (get_file_name req.block) w.files)
        (λ c. Write.write_open false c req w) w (λ c. write_open-Spares false c req w h.0)
  exec-Spares delete_file req w h =
      settle-spares host name (unlink host (get_file_name req.block) w.files) w.files
        (unlink-spares host name (get_file_name req.block) w.files h.0)
  exec-Spares rename_file req w h =
      settle-spares host name
        (rename host (get_file_name req.block) (get_file_name2 req.block) w.files) w.files
        (rename-spares host name (get_file_name req.block) (get_file_name2 req.block) w.files h.0
          h.1.0)
  exec-Spares creat req w h =
      settle-spares host name
        (if get_extent req.block == 0
          then fopen_write host (get_file_name req.block) w.files
          else none)
        w.files
        (create-spares host name (get_file_name req.block) (get_extent req.block == 0) w.files h.0)

-- Whatever `ExecFunc` is asked, in whatever state: if it answers, every file but those that a write, a
-- creation, a deletion or a renaming names in its block is as it was; the other functions change no file.
pub exec_func-Spares :
    (host : Host) (name : Bytes) (req : Request) (w : World)
    → All (λ n. name ≢ n) (changed (func_of req.func) req)
    → Spares name w (exec_func host req w)
unfolding exec_func
exec_func-Spares host name req w h = exec-Spares host name (func_of req.func) req w h
