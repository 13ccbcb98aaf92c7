-- ===== src/Tests/Receive.antt =====
-- Runs of the receiver of requests, on the message of a random write: a block and three bytes.
use yamashnik.Request.Message.{message, Field, fcb_field, dma_field, token, byte_field}
use yamashnik.Request.{Request, consume, expect, consume_loop, word, byte, eat, get_word_big_endian}
use yamashnik.Prelude.{
  Bytes, arith, Bool, List, refl, ◌∷◌, [], replicate, ◌++◌, map, ◌≡◌, some, false, true,
}
use yamashnik.Tests.Data.{test_block, test_request}
use yamashnik.Request.Ends.{consume_total, IsPlain}
use yamashnik.Request.Growing.{consume-append}
use yamashnik.Request.Receive.{Received, consume-message}
use yamashnik.Fcb.Layout.{IsFcb}

pub test_block-IsFcb : IsFcb test_block
test_block-IsFcb = record {
  drive = omega arith;
  name_ext = refl;
  name_bytes = omega arith;
  extent_lo = omega arith;
  extent_hi = omega arith;
  record_size_lo = omega arith;
  record_size_hi = omega arith;
  file_size = omega arith;
  date = omega arith;
  time = omega arith;
  device_id = omega arith;
  directory_location = omega arith;
  top_cluster = omega arith;
  last_cluster = omega arith;
  relative_location = omega arith;
  current_record = omega arith;
  random_record = omega arith;
  padding = omega arith;
  padding2 = refl;
  padding2_bytes = omega arith;
}

abbrev written : Bytes
written = 1 ∷ 2 ∷ 3 ∷ []

abbrev parts : List Field
parts = fcb_field test_block ∷ dma_field written ∷ byte_field 5 ∷ []

consume-message_example :
    (r' : Request) × (consume (message parts ++ []) (expect (map token parts) test_request)
      ≡ some (true, r'))
    × Received parts test_request r'
consume-message_example =
    consume-message parts [] test_request (test_block-IsFcb, (omega arith, (omega arith, tt)))
      (omega arith) refl

-- A pattern of three numbers, of which two bytes have come in.
abbrev waiting : Request
waiting = expect (word ∷ byte ∷ byte ∷ []) test_request

waiting-IsPlain : IsPlain waiting.rxpattern
unfolding expect
waiting-IsPlain = (λ e. cc e, (λ e. cc e, (λ e. cc e, tt)))

consume_total_example : (b : Bool) × (r' : Request) × (consume (1 ∷ 2 ∷ []) waiting ≡ some (b, r'))
consume_total_example = consume_total (1 ∷ 2 ∷ []) waiting waiting-IsPlain

abbrev half : Request
half = record waiting { aux = 258 ∷ replicate 7 0; rxcursor = 1; datacursor = 1; bufoffset = 2 }

consume-half : consume (1 ∷ 2 ∷ []) waiting ≡ some (false, half)
unfolding consume consume_loop eat expect get_word_big_endian
consume-half = refl

consume-append_example :
    consume ((1 ∷ 2 ∷ []) ++ 3 ∷ 4 ∷ []) half ≡ consume ((1 ∷ 2 ∷ []) ++ 3 ∷ 4 ∷ []) waiting
consume-append_example =
    consume-append (1 ∷ 2 ∷ []) (3 ∷ 4 ∷ []) waiting half waiting-IsPlain consume-half
