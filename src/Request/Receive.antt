-- ===== src/Request/Receive.antt =====
-- `consume` of sw/spyvspy/spy.h on a whole message.
use yamashnik.Request.Message.{
  Field, byte_field, word_field, fcb_field, dma_field, token, message, IsField, accept, accept_all,
  values, last_block, last_dma,
}
use yamashnik.Request.Rounds.{consume_loop-message}
use yamashnik.Prelude.{
  ℕ, zero, suc, ◌+◌, ◌<◌, ◌≤◌, ◌≡◌, refl, ap, ◌∙◌, true, List, [], ◌∷◌, ◌++◌, some, Bytes, All,
  arith, map, length, length-map, length-set, take, take-append, drop, set, append_assoc,
  append-nil,
}
use yamashnik.Request.{Request, expect, consume, eat, consume_loop}

take-set : (xs : List ℕ) (k v : ℕ) → k < length xs → take (k + 1) (set xs k v) ≡ take k xs ++ v ∷ []
take-set [] k v h = absurd (omega arith)
take-set (x ∷ xs) zero v h = refl
take-set (x ∷ xs) (suc k) v h =
    let e : suc k + 1 ≡ suc (k + 1) = omega arith in
    rw e (ap (λ r. x ∷ r) (take-set xs k v (omega arith)))

stored :
    (vs : List ℕ) (v : ℕ) (r r' : Request)
    → r.datacursor < length r.aux
    → take (r.datacursor + 1 + length vs) r'.aux
      ≡ take (r.datacursor + 1) (set r.aux r.datacursor v) ++ vs
    → take (r.datacursor + length (v ∷ vs)) r'.aux ≡ take r.datacursor r.aux ++ v ∷ vs
stored vs v r r' room e =
    let k : r.datacursor + length (v ∷ vs) ≡ r.datacursor + 1 + length vs = omega arith in
    ap (λ n. take n r'.aux) k
    ∙ e
    ∙ ap (λ p. p ++ vs) (take-set r.aux r.datacursor v room)
    ∙ append_assoc (take r.datacursor r.aux) (v ∷ []) vs

-- The numbers that are stored from the data cursor on are those of the message, in order.
accept_all-aux :
    (fs : List Field) (r : Request)
    → r.datacursor + length (values fs) ≤ length r.aux
    → take (r.datacursor + length (values fs)) (accept_all fs r).aux
      ≡ take r.datacursor r.aux ++ values fs
accept_all-aux [] r h = let e : r.datacursor + 0 ≡ r.datacursor = omega arith in rw (e, append-nil)
accept_all-aux (byte_field b ∷ fs) r h =
    stored (values fs) b r (accept_all fs (accept (byte_field b) r)) (omega arith)
      (accept_all-aux fs (accept (byte_field b) r) (omega (arith, length-set r.aux r.datacursor b)))
accept_all-aux (word_field w ∷ fs) r h =
    stored (values fs) w r (accept_all fs (accept (word_field w) r)) (omega arith)
      (accept_all-aux fs (accept (word_field w) r) (omega (arith, length-set r.aux r.datacursor w)))
accept_all-aux (fcb_field f ∷ fs) r h = accept_all-aux fs (accept (fcb_field f) r) h
accept_all-aux (dma_field bs ∷ fs) r h = accept_all-aux fs (accept (dma_field bs) r) h

accept_all-block : (fs : List Field) (r : Request) → (accept_all fs r).block ≡ last_block fs r.block
accept_all-block [] r = refl
accept_all-block (byte_field b ∷ fs) r = accept_all-block fs (accept (byte_field b) r)
accept_all-block (word_field w ∷ fs) r = accept_all-block fs (accept (word_field w) r)
accept_all-block (fcb_field f ∷ fs) r = accept_all-block fs (accept (fcb_field f) r)
accept_all-block (dma_field bs ∷ fs) r = accept_all-block fs (accept (dma_field bs) r)

accept_all-func : (fs : List Field) (r : Request) → (accept_all fs r).func ≡ r.func
accept_all-func [] r = refl
accept_all-func (byte_field b ∷ fs) r = accept_all-func fs (accept (byte_field b) r)
accept_all-func (word_field w ∷ fs) r = accept_all-func fs (accept (word_field w) r)
accept_all-func (fcb_field f ∷ fs) r = accept_all-func fs (accept (fcb_field f) r)
accept_all-func (dma_field bs ∷ fs) r = accept_all-func fs (accept (dma_field bs) r)

abbrev pub dma_data : Request → Bytes
dma_data r = take r.dmasize r.dma_buf

accept_all-dma :
    (fs : List Field) (r : Request) → dma_data (accept_all fs r) ≡ last_dma fs (dma_data r)
accept_all-dma [] r = refl
accept_all-dma (byte_field b ∷ fs) r = accept_all-dma fs (accept (byte_field b) r)
accept_all-dma (word_field w ∷ fs) r = accept_all-dma fs (accept (word_field w) r)
accept_all-dma (fcb_field f ∷ fs) r = accept_all-dma fs (accept (fcb_field f) r)
accept_all-dma (dma_field bs ∷ fs) r =
    accept_all-dma fs (accept (dma_field bs) r)
    ∙ ap (last_dma fs) (take-append (length bs) bs (drop (length bs) r.dma_buf) refl)

pub consume-All :
    (fs : List Field) (rest : Bytes) (r : Request)
    → All IsField fs
    → consume (message fs ++ rest) (expect (map token fs) r)
      ≡ some (true, accept_all fs (expect (map token fs) r))
unfolding consume expect
consume-All [] rest r h = unfold consume_loop eat in refl
consume-All (f ∷ fs) rest r h =
    consume_loop-message f fs (suc (length (map token (f ∷ fs)))) rest (message (f ∷ fs) ++ rest) _
      h (omega (arith, length-map token fs)) (record { pattern_left = refl; bytes_left = refl })

-- What a received message leaves in the request.
pub record Received (fs : List Field) (r r' : Request) : Type 0 where
  pub numbers : take (length (values fs)) r'.aux ≡ values fs
  pub block : r'.block ≡ last_block fs r.block
  pub data_part : dma_data r' ≡ last_dma fs []
  pub func : r'.func ≡ r.func

-- For parts in the ranges of their types, of which at most eight are numbers, in a request with
-- eight places: once their message is in the buffer, `consume` answers that the request is complete,
-- whatever follows; the request then holds the numbers in order, the last control block and the last
-- data, and keeps its function code.
pub consume-message :
    (fs : List Field) (rest : Bytes) (r : Request)
    → All IsField fs
    → length (values fs) ≤ 8
    → length r.aux ≡ 8
    → (r' : Request) × (consume (message fs ++ rest) (expect (map token fs) r) ≡ some (true, r'))
      × Received fs r r'
consume-message fs rest r h few eight = (
  accept_all fs fresh,
  consume-All fs rest r h,
  unfold expect in
      record {
        numbers =
            ap (λ k. take k (accept_all fs fresh).aux) zero_add
            ∙ accept_all-aux fs fresh (omega arith);
        block = accept_all-block fs fresh;
        data_part = accept_all-dma fs fresh;
        func = accept_all-func fs fresh;
      },
)
  where
    fresh : Request
    fresh = expect (map token fs) r

    zero_add : length (values fs) ≡ 0 + length (values fs)
    zero_add = omega arith
