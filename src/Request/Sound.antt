-- ===== src/Request/Sound.antt =====
-- The cursors and the sizes of `SpyRequest` of sw/spyvspy/spy.h, on any buffer that is received.
use yamashnik.Prelude.{
  ℕ, zero, suc, ◌+◌, ◌≤◌, ◌≡◌, refl, sym, ◌∙◌, inl, inr, Bool-cases, Bool, true, false, [], ◌∷◌,
  ◌++◌, Option, none, some, Bytes, arith, leb, leb→le, length, length-append, length-take,
  length-drop, length-set, get_elem?, get_or, set, take, drop, if◌then◌else◌, List, ◌<◌,
}
use mathlib.Core.Path.{subst}
use yamashnik.Fcb.{fcb_size, from_bytes}
use yamashnik.Request.Table.{Func, pattern_of}
use yamashnik.Request.{
  Token, byte, word, fcb, dma, dma2, Request, Verdict, more, again, complete, verdict_of,
  get_word_big_endian, eat, eat_cursor, eat_token, consume_loop, consume, expect, set_func,
}

-- A number is stored at a cursor that is not in front of that of the pattern, and the pattern has no more
-- tokens than there are places for numbers: so there is a place for it. The arrays have their sizes.
pub record IsSound (r : Request) : Type 0 where
  pub counted : r.datacursor ≤ r.rxcursor
  pub few : length r.rxpattern ≤ 8
  pub places : length r.aux ≡ 8
  pub room : length r.dma_buf ≡ 65536
  pub name : length r.block.name_ext ≡ 11

verdict_of-request : (v : Verdict) (r : Request) → (verdict_of v r).1 ≡ r
verdict_of-request v r =
    elim (get_elem? r.rxpattern r.rxcursor)
      as (λ o.
        (elim o as (λ _. Verdict × Request) [ none ↦ (complete, r) | some _ ↦ (v, r) ]).1 ≡ r) [
          | none ↦ refl
          | some _ ↦ refl
        ]

verdict_of-IsSound : (v : Verdict) (r : Request) → IsSound r → IsSound (verdict_of v r).1
verdict_of-IsSound v r h = subst IsSound (sym (verdict_of-request v r)) h

-- A number is taken over into its place.
stored-IsSound :
    (r : Request) (n v : ℕ)
    → IsSound r
    → IsSound (record r {
      aux = set r.aux r.datacursor v;
      bufoffset = r.bufoffset + n;
      datacursor = r.datacursor + 1;
      rxcursor = r.rxcursor + 1;
    })
stored-IsSound r n v h = record {
  counted = omega (arith, h.counted);
  few = h.few;
  places = length-set r.aux r.datacursor v ∙ h.places;
  room = h.room;
  name = h.name;
}

length-from_bytes_name :
    (bs : Bytes) → 44 ≤ length bs → length (from_bytes (take fcb_size bs)).name_ext ≡ 11
unfolding from_bytes
length-from_bytes_name bs h = omega (
  arith,
  length-take 11 (drop 1 (take fcb_size bs)),
  length-drop 1 (take fcb_size bs),
  length-take fcb_size bs,
)

eat_token-IsSound :
    (t : Token) (cursor : Bytes) (r : Request)
    → length cursor ≤ 65536
    → IsSound r
    → IsSound (eat_token t cursor r).1
unfolding eat_token
eat_token-IsSound byte cursor r fits h =
    verdict_of-IsSound again _ (stored-IsSound r 1 (get_or cursor 0 0) h)
eat_token-IsSound word cursor r fits h = elim (Bool-cases (leb 2 (length cursor))) [
  | inl enough ↦
      rw enough (verdict_of-IsSound again _ (stored-IsSound r 2 (get_word_big_endian cursor) h))
  | inr short ↦ rw short (verdict_of-IsSound more r h)
]
eat_token-IsSound fcb cursor r fits h = elim (Bool-cases (leb (fcb_size + 2) (length cursor))) [
  | inl enough ↦
      let whole : 44 + 2 ≤ length cursor = leb→le (fcb_size + 2) (length cursor) enough in
      let taken : Request = record r {
        block = from_bytes (take fcb_size (drop 2 cursor));
        bufoffset = r.bufoffset + (2 + fcb_size);
        rxcursor = r.rxcursor + 1;
      } in
      rw enough (
        verdict_of-IsSound again taken (record {
          counted = omega (arith, h.counted);
          few = h.few;
          places = h.places;
          room = h.room;
          name = length-from_bytes_name (drop 2 cursor) (omega (arith, length-drop 2 cursor));
        }))
  | inr short ↦ rw short (verdict_of-IsSound more r h)
]
eat_token-IsSound dma cursor r fits h = elim (Bool-cases (leb 2 (length cursor))) [
  | inl two ↦ rw two (data_part (get_word_big_endian cursor))
  | inr short ↦ rw short (verdict_of-IsSound more r h)
]
  where
    received : ℕ → Request
    received size = record r {
      dma_buf = take size (drop 2 cursor) ++ drop size r.dma_buf;
      dmasize = size;
      bufoffset = r.bufoffset + (2 + size);
      rxcursor = r.rxcursor + 1;
    }

    data_part :
        (size : ℕ)
        → IsSound
            (if leb (size + 2) (length cursor)
              then verdict_of again (received size)
              else verdict_of more r).1
    data_part size = elim (Bool-cases (leb (size + 2) (length cursor))) [
      | inl enough ↦
          let whole : size + 2 ≤ length cursor = leb→le (size + 2) (length cursor) enough in
          rw enough (
            verdict_of-IsSound again (received size) (record {
              counted = omega (arith, h.counted);
              few = h.few;
              places = h.places;
              room =
                  length-append (take size (drop 2 cursor)) (drop size r.dma_buf)
                  ∙ omega (
                    arith,
                    h.room,
                    length-take size (drop 2 cursor),
                    length-drop 2 cursor,
                    length-drop size r.dma_buf,
                  );
              name = h.name;
            }))
      | inr short ↦ rw short (verdict_of-IsSound more r h)
    ]
eat_token-IsSound dma2 cursor r fits h = verdict_of-IsSound again r h

eat-IsSound : (buf : Bytes) (r : Request) → length buf ≤ 65536 → IsSound r → IsSound (eat buf r).1
unfolding eat
eat-IsSound buf r fits h =
    at (get_elem? r.rxpattern r.rxcursor) (drop r.bufoffset buf)
      (omega (arith, length-drop r.bufoffset buf))
  where
    at :
        (t : Option Token) (cursor : Bytes)
        → length cursor ≤ 65536
        → IsSound (eat_cursor t cursor r).1
    at none cursor lt = h
    at (some t) [] lt = h
    at (some t) (c ∷ cursor) lt = eat_token-IsSound t (c ∷ cursor) r lt h

-- What the loop of `consume` leaves, if its fuel suffices.
abbrev pub Left : (Request → Type 0) → Option (Bool × Request) → Type 0
Left P none = Unit
Left P (some (got, r)) = P r

consume_loop-IsSound :
    (fuel : ℕ) (buf : Bytes) (r : Request)
    → length buf ≤ 65536
    → IsSound r
    → Left IsSound (consume_loop fuel buf r)
unfolding consume_loop
consume_loop-IsSound zero buf r fits h = tt
consume_loop-IsSound (suc fuel) buf r fits h =
    behind (eat buf r).0 (eat buf r).1 (eat-IsSound buf r fits h)
      (λ r' k. consume_loop-IsSound fuel buf r' fits k)
  where
    behind :
        (v : Verdict) (r' : Request)
        → IsSound r'
        → ((r2 : Request) → IsSound r2 → Left IsSound (consume_loop fuel buf r2))
        → Left IsSound (elim v [
          | complete ↦ some (true, r')
          | more ↦ some (false, r')
          | again ↦ consume_loop fuel buf r'
        ])
    behind complete r' k ih = k
    behind more r' k ih = k
    behind again r' k ih = ih r' k

pub consume-IsSound :
    (buf : Bytes) (r : Request) → length buf ≤ 65536 → IsSound r → Left IsSound (consume buf r)
unfolding consume
consume-IsSound buf r fits h = consume_loop-IsSound (suc (length r.rxpattern)) buf r fits h

get_elem?-some : (xs : List Token) (i : ℕ) (t : Token) → get_elem? xs i ≡ some t → i < length xs
get_elem?-some [] i t e = cc
get_elem?-some (x ∷ xs) zero t e = omega arith
get_elem?-some (x ∷ xs) (suc i) t e = omega (arith, get_elem?-some xs i t e)

-- Where a token is expected, there is a place for the number that it may bring.
pub room_for_number :
    (r : Request) (t : Token)
    → IsSound r
    → get_elem? r.rxpattern r.rxcursor ≡ some t
    → r.datacursor < length r.aux
room_for_number r t h e =
    omega (arith, h.counted, h.few, h.places, get_elem?-some r.rxpattern r.rxcursor t e)

pub expect-IsSound :
    (func : ℕ) (pattern : List Token) (r : Request)
    → length pattern ≤ 8
    → IsSound r
    → IsSound (expect pattern (set_func func r))
unfolding expect set_func
expect-IsSound func pattern r short h = record {
  counted = omega arith;
  few = short;
  places = h.places;
  room = h.room;
  name = h.name;
}

-- The patterns of the program are that short.
pub length-pattern_of : (f : Func) → length (pattern_of f) ≤ 8
unfolding pattern_of
length-pattern_of Func.select_disk = omega arith
length-pattern_of Func.open_file = omega arith
length-pattern_of Func.close_file = omega arith
length-pattern_of Func.search_first = omega arith
length-pattern_of Func.search_next = omega arith
length-pattern_of Func.delete_file = omega arith
length-pattern_of Func.seq_read = omega arith
length-pattern_of Func.seq_write = omega arith
length-pattern_of Func.creat = omega arith
length-pattern_of Func.rename_file = omega arith
length-pattern_of Func.get_login_vector = omega arith
length-pattern_of Func.get_current_drive = omega arith
length-pattern_of Func.get_alloc_info = omega arith
length-pattern_of Func.random_read = omega arith
length-pattern_of Func.random_write = omega arith
length-pattern_of Func.get_file_size = omega arith
length-pattern_of Func.set_random_record = omega arith
length-pattern_of Func.random_block_write = omega arith
length-pattern_of Func.random_block_read = omega arith
length-pattern_of Func.random_write_zero = omega arith
length-pattern_of Func.abs_sector_read = omega arith
length-pattern_of Func.abs_sector_write = omega arith
length-pattern_of Func.unknown = omega arith
