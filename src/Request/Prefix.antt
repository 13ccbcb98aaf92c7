-- ===== src/Request/Prefix.antt =====
-- `consume` of sw/spyvspy/spy.h on the first bytes of a message.
use yamashnik.Prelude.{
  ℕ, zero, suc, ◌+◌, ◌<◌, ◌≡◌, refl, sym, ap, ap₂, ◌∙◌, false, List, [], ◌∷◌, ◌++◌, some, Bytes,
  All, arith, map, length, length-append, get_elem?, drop, append-split, lt→leb_false, le→leb,
  drop-add_one, get_elem?-drop, length-map, drop-drop, drop-append,
}
use native.Mathlib.Decide.{dec_lt}
use yamashnik.Fcb.Layout.{length-to_bytes}
use yamashnik.Request.{
  Request, again, more, get_word_big_endian, eat, consume_loop, consume, expect, verdict_of,
  eat_token, eat_cursor,
}
use yamashnik.Request.Message.{
  Field, byte_field, word_field, fcb_field, dma_field, token, encode, message, IsField, accept,
  accept-cursor, accept-pattern, length-encode, eat_token-encode, get_word_lem,
}
use yamashnik.Request.Rounds.{verdict_go, consume_loop-step, consume_loop-more}
use yamashnik.Request.Chunks.{verdict_more}

-- A part that has not come in whole.
eat_cursor-short :
    (f : Field) (cur late rest : Bytes) (r : Request)
    → IsField f
    → cur ++ late ≡ encode f ++ rest
    → length cur < length (encode f)
    → get_elem? r.rxpattern r.rxcursor ≡ some (token f)
    → eat_cursor (some (token f)) cur r ≡ (more, r)
unfolding eat_cursor eat_token
eat_cursor-short f [] late rest r h e lt at = refl
eat_cursor-short (byte_field b) (c ∷ cur) late rest r h e lt at = absurd (omega arith)
eat_cursor-short (word_field w) (c ∷ []) late rest r h e lt at = verdict_more r _ at
eat_cursor-short (word_field w) (c ∷ d ∷ cur) late rest r h e lt at = absurd (omega arith)
eat_cursor-short (fcb_field f) (c ∷ cur) late rest r h e lt at =
    rw (lt→leb_false 46 (length (c ∷ cur)) (omega (arith, length-to_bytes f h)))
      (verdict_more r _ at)
eat_cursor-short (dma_field bs) (c ∷ []) late rest r h e lt at = verdict_more r _ at
eat_cursor-short (dma_field bs) (c ∷ d ∷ cur) late rest r h e lt at =
    let size : get_word_big_endian (c ∷ d ∷ cur) ≡ length bs =
      ap₂ (λ x y. get_word_big_endian (x ∷ y ∷ cur)) (cc e) (cc e)
      ∙ get_word_lem (length bs) cur h in
    rw
      (
        le→leb 2 (suc (suc (length cur))) (omega arith),
        size,
        lt→leb_false (length bs + 2) (length (c ∷ d ∷ cur)) (omega arith),
      )
      (verdict_more r _ at)

-- The receiver stands before the parts `fs`; `cur` has come in of them, and `late` has not.
record Awaits (fs : List Field) (cur late buf : Bytes) (r : Request) : Type 0 where
  pattern_left : drop r.rxcursor r.rxpattern ≡ map token fs
  bytes_left : drop r.bufoffset buf ≡ cur
  parted : cur ++ late ≡ message fs

Awaits-at :
    (f : Field) (fs : List Field) (cur late buf : Bytes) (r : Request)
    → Awaits (f ∷ fs) cur late buf r
    → get_elem? r.rxpattern r.rxcursor ≡ some (token f)
Awaits-at f fs cur late buf r s =
    get_elem?-drop r.rxcursor r.rxpattern ∙ ap (λ p. get_elem? p 0) s.pattern_left

-- The first part has come in whole.
Awaits-accept :
    (f : Field) (fs : List Field) (cur rest late buf : Bytes) (r : Request)
    → IsField f
    → Awaits (f ∷ fs) cur late buf r
    → cur ≡ encode f ++ rest
    → rest ++ late ≡ message fs
    → Awaits fs rest late buf (accept f r)
Awaits-accept f fs cur rest late buf r h s e k = record {
  pattern_left =
      ap₂ drop (accept-cursor f r) (accept-pattern f r)
      ∙ drop-add_one r.rxcursor (token f) r.rxpattern (map token fs) s.pattern_left;
  bytes_left =
      ap (λ k. drop k buf) (length-encode f h r)
      ∙ sym (drop-drop (length (encode f)) r.bufoffset buf)
      ∙ ap (drop (length (encode f))) (s.bytes_left ∙ e)
      ∙ drop-append (length (encode f)) (encode f) rest refl;
  parted = k;
}

eat-Awaits :
    (f : Field) (fs : List Field) (cur late buf : Bytes) (r : Request)
    → Awaits (f ∷ fs) cur late buf r
    → eat buf r ≡ eat_cursor (some (token f)) cur r
unfolding eat
eat-Awaits f fs cur late buf r s =
    ap₂ (λ t bs. eat_cursor t bs r) (Awaits-at f fs cur late buf r s) s.bytes_left

still :
    (fs : List Field) (cur late buf : Bytes) (r : Request)
    → 0 < length late
    → Awaits fs cur late buf r
    → verdict_of again r ≡ (again, r)
still [] cur late buf r some_late s =
    absurd (omega (arith, length-append cur late, ap length s.parted))
still (f ∷ fs) cur late buf r some_late s =
    verdict_go again r (token f) (Awaits-at f fs cur late buf r s)

consume_loop-Awaits :
    (fs : List Field) (fuel : ℕ) (cur late buf : Bytes) (r : Request)
    → All IsField fs
    → length fs < fuel
    → 0 < length late
    → Awaits fs cur late buf r
    → (r' : Request) × (consume_loop fuel buf r ≡ some (false, r'))
consume_loop-Awaits fs zero cur late buf r h lt some_late s = absurd (omega arith)
consume_loop-Awaits [] (suc fuel) cur late buf r h lt some_late s =
    absurd (omega (arith, length-append cur late, ap length s.parted))
consume_loop-Awaits (f ∷ fs) (suc fuel) cur late buf r h lt some_late s =
    elim (dec_lt (length cur) (length (encode f))) [
      | yes short ↦ (
        r,
        consume_loop-more fuel buf r r (
            eat-Awaits f fs cur late buf r s
            ∙ eat_cursor-short f cur late (message fs) r h.0 s.parted short
                (Awaits-at f fs cur late buf r s)),
      )
      | no whole ↦
          let (rest, e, k) = append-split cur late (encode f) (message fs) s.parted (omega arith) in
          let s' = Awaits-accept f fs cur rest late buf r h.0 s e k in
          let (r', found) =
            consume_loop-Awaits fs fuel rest late buf (accept f r) h.1 (omega arith) some_late s' in
          (
            r',
            consume_loop-step fuel buf r (accept f r) (
                  eat-Awaits f fs cur late buf r s
                  ∙ ap (λ c. eat_cursor (some (token f)) c r) e
                  ∙ eat_token-encode f rest r h.0
                  ∙ still fs rest late buf (accept f r) some_late s')
                ∙ found,
          )
    ]

-- A message that has not come in to its last byte is not taken as complete.
pub consume-prefix :
    (fs : List Field) (cur late : Bytes) (r : Request)
    → All IsField fs
    → 0 < length late
    → cur ++ late ≡ message fs
    → (r' : Request) × (consume cur (expect (map token fs) r) ≡ some (false, r'))
unfolding consume expect
consume-prefix fs cur late r h some_late e =
    consume_loop-Awaits fs (suc (length (map token fs))) cur late cur _ h
      (omega (arith, length-map token fs)) some_late
      (record { pattern_left = refl; bytes_left = refl; parted = e })
