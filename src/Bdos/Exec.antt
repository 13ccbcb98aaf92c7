-- ===== src/Bdos/Exec.antt =====
-- `ExecFunc` of sw/spyvspy/spybdos.h.
use yamashnik.Prelude.{true, false, done}
use yamashnik.Request.{Request}
use yamashnik.Request.Table.{
  Func, func_of, select_disk, open_file, close_file, search_first, search_next, delete_file,
  seq_read, seq_write, creat, rename_file, get_login_vector, get_current_drive, get_alloc_info,
  random_read, random_write, get_file_size, set_random_record, random_block_write,
  random_block_read, random_write_zero, abs_sector_read, abs_sector_write, unknown,
}
use yamashnik.Response.{fresh_response}
use yamashnik.Disk.{Host}
use yamashnik.Bdos.State.{World, Answer}
use yamashnik.Bdos.Drive
use yamashnik.Bdos.Read
use yamashnik.Bdos.Write
use yamashnik.Bdos.Find

unfoldable pub exec : Func → Host → Request → World → Answer
exec select_disk host = Drive.select_disk
exec open_file host = Read.open_file host
exec close_file host = Drive.close_file
exec search_first host = Find.find_first host
exec search_next host = Find.find_next host
exec delete_file host = Write.delete_file host
exec seq_read host = Read.sequential_read host
exec seq_write host = Write.random_write true host
exec creat host = Write.create_file host
exec rename_file host = Write.rename_file host
exec get_login_vector host = Drive.get_login_vector
exec get_current_drive host = Drive.get_current_drive
exec get_alloc_info host = Drive.stub_func
exec random_read host = Read.random_read host
exec random_write host = Write.random_write false host
exec get_file_size host = Read.get_file_size host
exec set_random_record host = Drive.stub_func
exec random_block_write host = Drive.stub_func
exec random_block_read host = Read.random_block_read host
exec random_write_zero host = Drive.stub_func
exec abs_sector_read host = Drive.abs_sector_read
exec abs_sector_write host = Drive.stub_func
exec unknown host = λ req w. done (fresh_response, w)

-- `ExecFunc(request, response)` on a new response; a code of no label leaves it as it is.
unfoldable pub exec_func : Host → Request → World → Answer
exec_func host req w = exec (func_of req.func) host req w
