-- ===== src/Request/Rounds.antt =====
-- The rounds of `consume` of sw/spyvspy/spy.h on a message that has come in.
use yamashnik.Prelude.{
  ℕ, zero, suc, ◌<◌, ◌≡◌, refl, sym, ap, ap₂, ◌∙◌, true, false, List, [], ◌∷◌, ◌++◌, none, some,
  Bytes, All, arith, map, length, append_assoc, get_elem?, drop, get_elem?-drop, drop-add_one,
  drop-drop, drop-append,
}
use yamashnik.Request.{
  Token, Request, Verdict, complete, more, again, eat, consume_loop, verdict_of, eat_cursor,
}
use yamashnik.Request.Message.{
  Field, token, encode, message, IsField, accept, accept_all, accept-cursor, accept-pattern,
  length-encode, eat_token-encode,
}

-- The receiver stands before the parts `fs`, and they lie in the buffer from its offset on.
pub record Stands (fs : List Field) (rest buf : Bytes) (r : Request) : Type 0 where
  pub pattern_left : drop r.rxcursor r.rxpattern ≡ map token fs
  pub bytes_left : drop r.bufoffset buf ≡ message fs ++ rest

Stands-accept :
    (f : Field) (fs : List Field) (rest buf : Bytes) (r : Request)
    → IsField f
    → Stands (f ∷ fs) rest buf r
    → Stands fs rest buf (accept f r)
Stands-accept f fs rest buf r h s = record {
  pattern_left =
      ap₂ drop (accept-cursor f r) (accept-pattern f r)
      ∙ drop-add_one r.rxcursor (token f) r.rxpattern (map token fs) s.pattern_left;
  bytes_left =
      ap (λ k. drop k buf) (length-encode f h r)
      ∙ sym (drop-drop (length (encode f)) r.bufoffset buf)
      ∙ ap (drop (length (encode f))) (s.bytes_left ∙ append_assoc (encode f) (message fs) rest)
      ∙ drop-append (length (encode f)) (encode f) (message fs ++ rest) refl;
}

at_cursor :
    (fs : List Field) (rest buf : Bytes) (r : Request)
    → Stands fs rest buf r
    → get_elem? r.rxpattern r.rxcursor ≡ get_elem? (map token fs) 0
at_cursor fs rest buf r s =
    get_elem?-drop r.rxcursor r.rxpattern ∙ ap (λ p. get_elem? p 0) s.pattern_left

eat-field :
    (f : Field) (fs : List Field) (rest buf : Bytes) (r : Request)
    → IsField f
    → Stands (f ∷ fs) rest buf r
    → eat buf r ≡ verdict_of again (accept f r)
unfolding eat
eat-field f fs rest buf r h s =
    ap₂ (λ t bs. eat_cursor t bs r) (at_cursor (f ∷ fs) rest buf r s)
      (s.bytes_left ∙ append_assoc (encode f) (message fs) rest)
    ∙ eat_token-encode f (message fs ++ rest) r h

verdict_end :
    (v : Verdict) (r : Request)
    → get_elem? r.rxpattern r.rxcursor ≡ none
    → verdict_of v r ≡ (complete, r)
verdict_end v r e = ground arith

pub verdict_go :
    (v : Verdict) (r : Request) (t : Token)
    → get_elem? r.rxpattern r.rxcursor ≡ some t
    → verdict_of v r ≡ (v, r)
verdict_go v r t e = ground arith

pub consume_loop-step :
    (fuel : ℕ) (buf : Bytes) (r r' : Request)
    → eat buf r ≡ (again, r')
    → consume_loop (suc fuel) buf r ≡ consume_loop fuel buf r'
unfolding consume_loop
consume_loop-step fuel buf r r' e = ground (arith, e)

pub consume_loop-more :
    (fuel : ℕ) (buf : Bytes) (r r' : Request)
    → eat buf r ≡ (more, r')
    → consume_loop (suc fuel) buf r ≡ some (false, r')
unfolding consume_loop
consume_loop-more fuel buf r r' e = ground (arith, e)

consume_loop-complete :
    (fuel : ℕ) (buf : Bytes) (r r' : Request)
    → eat buf r ≡ (complete, r')
    → consume_loop (suc fuel) buf r ≡ some (true, r')
unfolding consume_loop
consume_loop-complete fuel buf r r' e = ground (arith, e)

pub consume_loop-message :
    (f : Field) (fs : List Field) (fuel : ℕ) (rest buf : Bytes) (r : Request)
    → All IsField (f ∷ fs)
    → length fs < fuel
    → Stands (f ∷ fs) rest buf r
    → consume_loop fuel buf r ≡ some (true, accept_all (f ∷ fs) r)
consume_loop-message f fs zero rest buf r h lt s = absurd (omega arith)
consume_loop-message f [] (suc fuel) rest buf r h lt s =
    consume_loop-complete fuel buf r (accept f r) (
      eat-field f [] rest buf r h.0 s
      ∙ verdict_end again (accept f r)
          (at_cursor [] rest buf (accept f r) (Stands-accept f [] rest buf r h.0 s)))
consume_loop-message f (g ∷ fs) (suc fuel) rest buf r h lt s =
    consume_loop-step fuel buf r (accept f r) (
      eat-field f (g ∷ fs) rest buf r h.0 s
      ∙ verdict_go again (accept f r) (token g)
          (at_cursor (g ∷ fs) rest buf (accept f r) (Stands-accept f (g ∷ fs) rest buf r h.0 s)))
    ∙ consume_loop-message g fs fuel rest buf (accept f r) h.1 (omega arith)
        (Stands-accept f (g ∷ fs) rest buf r h.0 s)
