-- ===== src/Bdos/Drive.antt =====
-- `selectDisk`, `getCurrentDrive`, `getLoginVector`, `closeFile`, `absSectorRead` and `stubFunc` of
-- sw/spyvspy/spybdos.h: the functions that touch no file.
use yamashnik.Prelude.{◌*◌, [], ◌∷◌, replicate, done}
use yamashnik.Request.{Request, byte, word, dma}
use yamashnik.Response.{fresh_response, respond, set_aux_data, alloc_dma}
use yamashnik.Bdos.State.{World, Answer, newline, get_aux_data}

-- The drive that the request asks for is only printed.
unfoldable pub select_disk : Request → World → Answer
select_disk req w = done (respond (byte ∷ []) (set_aux_data 0 0x01 fresh_response), newline req w)

unfoldable pub get_current_drive : Request → World → Answer
get_current_drive req w =
    done (respond (byte ∷ []) (set_aux_data 0 w.bdos.disk fresh_response), newline req w)

unfoldable pub get_login_vector : Request → World → Answer
get_login_vector req w =
    done (respond (word ∷ []) (set_aux_data 0 0x0001 fresh_response), newline req w)

unfoldable pub close_file : Request → World → Answer
close_file req w = done (respond (byte ∷ []) (set_aux_data 0 0x00 fresh_response), newline req w)

-- No sector is read: zeros for every sector asked for.
unfoldable pub abs_sector_read : Request → World → Answer
abs_sector_read req w = done (
  respond (dma ∷ []) (alloc_dma (replicate (0x200 * get_aux_data req 1) 0) fresh_response),
  newline req w,
)

unfoldable pub stub_func : Request → World → Answer
stub_func req w = done (respond [] fresh_response, newline req w)
