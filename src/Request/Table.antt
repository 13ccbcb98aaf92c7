-- ===== src/Request/Table.antt =====
-- The function codes of sw/spyvspy/spydata.h (`SpyRequestCode`), and which pattern
-- `ReceiveRequest` of sw/spyvspy/spy.cpp expects for each.
use yamashnik.Prelude.{ℕ, List, [], ◌∷◌, ◌==◌, if◌then◌else◌}
use yamashnik.Request.{Token, byte, word, fcb, dma}

-- The functions that the switches name.
pub data Func : Type 0 where
  select_disk open_file close_file search_first search_next delete_file : Func
  seq_read seq_write creat rename_file get_login_vector get_current_drive : Func
  get_alloc_info random_read random_write get_file_size set_random_record : Func
  random_block_write random_block_read random_write_zero : Func
  abs_sector_read abs_sector_write unknown : Func

-- A `case` label: the first code that the byte equals.
first_label : ℕ → List (ℕ × Func) → Func
first_label code [] = unknown
first_label code ((c, f) ∷ rest) = let more = first_label code rest in if code == c then f else more

abbrev labels : List (ℕ × Func)
labels =
    (0x00, select_disk)
    ∷ (0x01, open_file)
    ∷ (0x02, close_file)
    ∷ (0x03, search_first)
    ∷ (0x04, search_next)
    ∷ (0x05, delete_file)
    ∷ (0x06, seq_read)
    ∷ (0x07, seq_write)
    ∷ (0x08, creat)
    ∷ (0x09, rename_file)
    ∷ (0x0a, get_login_vector)
    ∷ (0x0b, get_current_drive)
    ∷ (0x0d, get_alloc_info)
    ∷ (0x13, random_read)
    ∷ (0x14, random_write)
    ∷ (0x15, get_file_size)
    ∷ (0x16, set_random_record)
    ∷ (0x18, random_block_write)
    ∷ (0x19, random_block_read)
    ∷ (0x1a, random_write_zero)
    ∷ (0x21, abs_sector_read)
    ∷ (0x22, abs_sector_write)
    ∷ []

unfoldable pub func_of : ℕ → Func
unfolding first_label
func_of code = first_label code labels

-- The `EXP_…` tables; a code of no table expects nothing.
unfoldable pub pattern_of : Func → List Token
pattern_of select_disk = byte ∷ []
pattern_of open_file = fcb ∷ []
pattern_of close_file = fcb ∷ []
pattern_of search_first = fcb ∷ []
pattern_of search_next = fcb ∷ []
pattern_of delete_file = fcb ∷ []
pattern_of seq_read = fcb ∷ []
pattern_of seq_write = fcb ∷ dma ∷ []
pattern_of creat = fcb ∷ []
pattern_of rename_file = fcb ∷ []
pattern_of get_login_vector = []
pattern_of get_current_drive = []
pattern_of get_alloc_info = byte ∷ []
pattern_of random_read = word ∷ word ∷ word ∷ word ∷ word ∷ word ∷ fcb ∷ []
pattern_of random_write = fcb ∷ dma ∷ []
pattern_of get_file_size = fcb ∷ []
pattern_of set_random_record = fcb ∷ []
pattern_of random_block_write = word ∷ dma ∷ fcb ∷ []
pattern_of random_block_read = word ∷ word ∷ word ∷ word ∷ word ∷ word ∷ word ∷ fcb ∷ []
pattern_of random_write_zero = dma ∷ fcb ∷ []
pattern_of abs_sector_read = word ∷ byte ∷ byte ∷ []
pattern_of abs_sector_write = word ∷ byte ∷ byte ∷ dma ∷ []
pattern_of unknown = []
