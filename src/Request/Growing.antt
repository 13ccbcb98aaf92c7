-- ===== src/Request/Growing.antt =====
-- The calls of `consume` of sw/spyvspy/spy.h on a buffer that grows.
use yamashnik.Request.Chunks.{eat-append, eat-more}
use yamashnik.Prelude.{
  ℕ, zero, suc, ◌≡◌, refl, sym, ap, ◌∙◌, ◌++◌, some, Bytes, length, Bool, false,
}
use yamashnik.Request.{Request, Verdict, more, eat, again, consume_loop, consume, complete}
use yamashnik.Request.Ends.{IsPlain, eat-again, after, consume_loop-after, consume_total}

-- More fuel changes nothing.
grown :
    (fuel : ℕ) (buf : Bytes) (r' : Request) (x : Bool × Request) (v : Verdict)
    → (consume_loop fuel buf r' ≡ some x → consume_loop (suc fuel) buf r' ≡ some x)
    → after fuel buf v r' ≡ some x
    → after (suc fuel) buf v r' ≡ some x
unfolding after
grown fuel buf r' x complete k h = h
grown fuel buf r' x more k h = h
grown fuel buf r' x again k h = k h

consume_loop-more_fuel :
    (fuel : ℕ) (buf : Bytes) (r : Request) (x : Bool × Request)
    → consume_loop fuel buf r ≡ some x
    → consume_loop (suc fuel) buf r ≡ some x
consume_loop-more_fuel zero buf r x h = unfold consume_loop in cc
consume_loop-more_fuel (suc fuel) buf r x h =
    go (eat buf r).0 refl (λ k. consume_loop-more_fuel fuel buf (eat buf r).1 x k)
  where
    go :
        (v : Verdict)
        → eat buf r ≡ (v, (eat buf r).1)
        → (consume_loop fuel buf (eat buf r).1 ≡ some x
            → consume_loop (suc fuel) buf (eat buf r).1 ≡ some x)
        → consume_loop (suc (suc fuel)) buf r ≡ some x
    go v e k =
        consume_loop-after (suc fuel) buf r (eat buf r).1 v e
        ∙ grown fuel buf (eat buf r).1 x v k
            (sym (consume_loop-after fuel buf r (eat buf r).1 v e) ∙ h)

resume_round :
    (fuel : ℕ) (buf extra : Bytes) (r r1 r' : Request) (x : Bool × Request) (v : Verdict)
    → eat buf r ≡ (v, r1)
    → after fuel buf v r1 ≡ some (false, r')
    → consume_loop (suc fuel) (buf ++ extra) r ≡ some x
    → (consume_loop fuel buf r1 ≡ some (false, r')
        → consume_loop fuel (buf ++ extra) r1 ≡ some x
        → consume_loop fuel (buf ++ extra) r' ≡ some x)
    → consume_loop (suc fuel) (buf ++ extra) r' ≡ some x
unfolding after
resume_round fuel buf extra r r1 r' x complete e h k ih = cc
resume_round fuel buf extra r r1 r' x more e h k ih =
    let same : r' ≡ r = cc (eat-more buf r r1 e) in rw same k
resume_round fuel buf extra r r1 r' x again e h k ih =
    let longer : eat (buf ++ extra) r ≡ (again, r1) =
      eat-append buf extra r r1 again (λ q. cc q) e in
    let onward : consume_loop (suc fuel) (buf ++ extra) r ≡ consume_loop fuel (buf ++ extra) r1 =
      consume_loop-after fuel (buf ++ extra) r r1 again longer in
    consume_loop-more_fuel fuel (buf ++ extra) r' x (ih h (sym onward ∙ k))

-- A loop that stopped for want of bytes: with more of them, the loop from the start gets as far as the
-- loop from there.
consume_loop-resume :
    (fuel : ℕ) (buf extra : Bytes) (r r' : Request) (x : Bool × Request)
    → consume_loop fuel buf r ≡ some (false, r')
    → consume_loop fuel (buf ++ extra) r ≡ some x
    → consume_loop fuel (buf ++ extra) r' ≡ some x
consume_loop-resume zero buf extra r r' x h k = unfold consume_loop in cc
consume_loop-resume (suc fuel) buf extra r r' x h k =
    resume_round fuel buf extra r (eat buf r).1 r' x (eat buf r).0 refl
      (sym (consume_loop-after fuel buf r (eat buf r).1 (eat buf r).0 refl) ∙ h) k
      (λ h' k'. consume_loop-resume fuel buf extra (eat buf r).1 r' x h' k')

-- The pattern is kept up to a stop.
kept_round :
    (fuel : ℕ) (buf : Bytes) (r r1 r' : Request) (v : Verdict)
    → IsPlain r.rxpattern
    → eat buf r ≡ (v, r1)
    → after fuel buf v r1 ≡ some (false, r')
    → (IsPlain r1.rxpattern
        → consume_loop fuel buf r1 ≡ some (false, r')
        → r'.rxpattern ≡ r1.rxpattern)
    → r'.rxpattern ≡ r.rxpattern
unfolding after
kept_round fuel buf r r1 r' complete p e h ih = cc
kept_round fuel buf r r1 r' more p e h ih =
    let same : r' ≡ r = cc (eat-more buf r r1 e) in ap (λ s. s.rxpattern) same
kept_round fuel buf r r1 r' again p e h ih = let s = eat-again buf r r1 p e in ih (rw s.0 p) h ∙ s.0

consume_loop-pattern :
    (fuel : ℕ) (buf : Bytes) (r r' : Request)
    → IsPlain r.rxpattern
    → consume_loop fuel buf r ≡ some (false, r')
    → r'.rxpattern ≡ r.rxpattern
consume_loop-pattern zero buf r r' p h = unfold consume_loop in cc
consume_loop-pattern (suc fuel) buf r r' p h =
    kept_round fuel buf r (eat buf r).1 r' (eat buf r).0 p refl
      (sym (consume_loop-after fuel buf r (eat buf r).1 (eat buf r).0 refl) ∙ h)
      (λ p' h'. consume_loop-pattern fuel buf (eat buf r).1 r' p' h')

pub consume-pattern :
    (buf : Bytes) (r r' : Request)
    → IsPlain r.rxpattern
    → consume buf r ≡ some (false, r')
    → r'.rxpattern ≡ r.rxpattern
unfolding consume
consume-pattern buf r r' p h = consume_loop-pattern (suc (length r.rxpattern)) buf r r' p h

-- Where the pattern has no token of a second buffer: when `consume` has asked for more on the first
-- part of the bytes, a second call, on all that has come in, gives what one call on everything
-- gives.
pub consume-append :
    (buf extra : Bytes) (r r' : Request)
    → IsPlain r.rxpattern
    → consume buf r ≡ some (false, r')
    → consume (buf ++ extra) r' ≡ consume (buf ++ extra) r
unfolding consume
consume-append buf extra r r' p h =
    let (b, s, whole) = consume_total (buf ++ extra) r p in
    let kept : r'.rxpattern ≡ r.rxpattern = consume-pattern buf r r' p h in
    ap (λ ts. consume_loop (suc (length ts)) (buf ++ extra) r') kept
    ∙ consume_loop-resume (suc (length r.rxpattern)) buf extra r r' (b, s) h whole
    ∙ sym whole
