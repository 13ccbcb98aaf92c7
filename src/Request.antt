-- ===== src/Request.antt =====
-- A request of the workstation while it is received: `SpyRequest` of sw/spyvspy/spy.h, with the request
-- codes and tokens of sw/spyvspy/spydata.h and the patterns of sw/spyvspy/spy.cpp.
pub mod Message
pub mod Rounds
pub mod Chunks
pub mod Prefix
pub mod Ends
pub mod Growing
pub mod Sound
pub mod Table
pub mod Receive
use Prim.Native.Nat.{bit_or}
use yamashnik.Prelude.{
  ℕ, zero, suc, ◌+◌, ◌-◌, ◌*◌, ◌^◌, Bool, true, false, List, [], ◌∷◌, ◌++◌, Option, none, some,
  Bytes, leb, ◌==◌, if◌then◌else◌, length, get_elem?, get_or, set, take, drop, replicate,
}
use yamashnik.Fcb.{Fcb, fcb_size, blank_fcb, from_bytes}

-- `REQ_BYTE` and its kin. `REQ_END`, which is 0, ends a pattern: here it is the end of the list.
pub data Token : Type 0 where
  byte word fcb dma dma2 : Token

-- `m_rxpattern` is the pattern that `expect` copies.
pub record Request : Type 0 where
  pub block : Fcb
  pub dma_buf : Bytes
  pub dmasize : ℕ
  pub aux : List ℕ
  pub func : ℕ
  pub rxpattern : List Token
  pub rxcursor : ℕ
  pub datacursor : ℕ
  pub bufoffset : ℕ

-- The three results of `eat`: 1, -1 and 0.
pub data Verdict : Type 0 where
  complete more again : Verdict

unfoldable pub set_func : ℕ → Request → Request
set_func func r = record r { func = func }

unfoldable pub expect : List Token → Request → Request
expect pattern r = record r {
  rxpattern = pattern;
  rxcursor = 0;
  datacursor = 0;
  bufoffset = 0;
  dmasize = 0;
}

-- `getWordBigEndian(cursor)`
unfoldable pub get_word_big_endian : Bytes → ℕ
get_word_big_endian cursor = bit_or (get_or cursor 1 0) (get_or cursor 0 0 * 2 ^ 8)

unfoldable pub needs_data : Request → Bool
needs_data r = elim r.rxpattern [ [] ↦ false | _ ↦ true ]

-- The statement behind the `switch`: the end of the pattern, or what the case has left in `moar`.
abbrev pub verdict_of : Verdict → Request → Verdict × Request
verdict_of moar r = elim (get_elem? r.rxpattern r.rxcursor) [
  | none ↦ (complete, r)
  | some _ ↦ (moar, r)
]

-- `m_data[m_datacursor]` is written. The array has eight places; Request/Sound shows that the patterns of the
-- program never lead behind them.
abbrev store_aux : ℕ → ℕ → Request → Request
store_aux v n r = record r {
  aux = set r.aux r.datacursor v;
  bufoffset = r.bufoffset + n;
  datacursor = r.datacursor + 1;
  rxcursor = r.rxcursor + 1;
}

-- A case of the `switch`, with the bytes from the cursor on.
unfoldable pub eat_token : Token → Bytes → Request → Verdict × Request
eat_token byte cursor r = verdict_of again (store_aux (get_or cursor 0 0) 1 r)
eat_token word cursor r =
    if leb 2 (length cursor)
    then verdict_of again (store_aux (get_word_big_endian cursor) 2 r)
    else verdict_of more r
eat_token fcb cursor r =
    if leb (fcb_size + 2) (length cursor)
    then verdict_of again (record r {
      block = from_bytes (take fcb_size (drop 2 cursor));
      bufoffset = r.bufoffset + (2 + fcb_size);
      rxcursor = r.rxcursor + 1;
    })
    else verdict_of more r
eat_token dma cursor r =
    let size = get_word_big_endian cursor in
    if leb 2 (length cursor)
    then if leb (size + 2) (length cursor)
      then verdict_of again (record r {
        dma_buf = take size (drop 2 cursor) ++ drop size r.dma_buf;
        dmasize = size;
        bufoffset = r.bufoffset + (2 + size);
        rxcursor = r.rxcursor + 1;
      })
      else verdict_of more r
    else verdict_of more r
eat_token dma2 cursor r = verdict_of again r

unfoldable pub eat_cursor : Option Token → Bytes → Request → Verdict × Request
eat_cursor none cursor r = (complete, r)
eat_cursor (some t) [] r = (more, r)
eat_cursor (some t) (c ∷ cursor) r = eat_token t (c ∷ cursor) r

-- `eat(buf, len)`; the list is the `len` bytes that have come in.
unfoldable pub eat : Bytes → Request → Verdict × Request
unfolding eat_cursor eat_token
eat buf r = eat_cursor (get_elem? r.rxpattern r.rxcursor) (drop r.bufoffset buf) r

-- The loop of `consume`. `none` is a loop that has run out of fuel.
unfoldable pub consume_loop : ℕ → Bytes → Request → Option (Bool × Request)
consume_loop zero buf r = none
consume_loop (suc fuel) buf r =
    let (verdict, r') = eat buf r in
    elim verdict [
      | complete ↦ some (true, r')
      | more ↦ some (false, r')
      | again ↦ consume_loop fuel buf r'
    ]

-- `consume(buf, len)`: a round for each token, and one more.
unfoldable pub consume : Bytes → Request → Option (Bool × Request)
consume buf r = consume_loop (suc (length r.rxpattern)) buf r
