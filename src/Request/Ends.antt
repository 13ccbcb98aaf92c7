-- ===== src/Request/Ends.antt =====
-- The loop of `consume` in sw/spyvspy/spy.h: its end.
use yamashnik.Request.Chunks.{verdict_more}
use yamashnik.Prelude.{
  ℕ, zero, suc, ◌+◌, ◌<◌, ◌≡◌, ◌≢◌, inl, inr, refl, ap, ◌∙◌, List, [], ◌∷◌, Option, none, some,
  Bytes, arith, length, drop, get_elem?, Bool-cases, leb, All, Option-cases, Bool, false, true,
}
use yamashnik.Request.{
  Token, byte, word, fcb, dma, dma2, Request, Verdict, more, get_word_big_endian, eat, eat_cursor,
  eat_token, verdict_of, again, consume_loop, consume, complete,
}

-- Every round that is not the last goes on by one token, of the same pattern.
abbrev IsStep : Request → Request → Type 0
IsStep r r' =
    (r'.rxpattern ≡ r.rxpattern)
    × (r'.rxcursor ≡ r.rxcursor + 1)
    × (r'.rxcursor < length r.rxpattern)

get_elem?-some-lt {ℓ} :
    {A : Type ℓ} (xs : List A) (n : ℕ) (x : A) → get_elem? xs n ≡ some x → n < length xs
get_elem?-some-lt [] n x h = cc
get_elem?-some-lt (y ∷ xs) zero x h = omega arith
get_elem?-some-lt (y ∷ xs) (suc n) x h = omega (arith, get_elem?-some-lt xs n x h)

-- A pattern of the tables: the token of a second buffer is only for responses.
abbrev pub IsPlain : List Token → Type 0
IsPlain = All (λ t. t ≢ dma2)

plain_at : (ts : List Token) (n : ℕ) (t : Token) → IsPlain ts → get_elem? ts n ≡ some t → t ≢ dma2
plain_at [] n t p h = cc
plain_at (x ∷ ts) zero t p h = λ e. p.0 (cc (h, e))
plain_at (x ∷ ts) (suc n) t p h = plain_at ts n t p.1 h

verdict-IsStep :
    (r r' r'' : Request)
    → r''.rxpattern ≡ r.rxpattern
    → r''.rxcursor ≡ r.rxcursor + 1
    → verdict_of again r'' ≡ (again, r')
    → IsStep r r'
verdict-IsStep r r' r'' p c h = elim (Option-cases (get_elem? r''.rxpattern r''.rxcursor)) [
  | inl e ↦ ground (arith, e)
  | inr (t, e) ↦ ground (arith, e, get_elem?-some-lt r''.rxpattern r''.rxcursor t e)
]

verdict_stay :
    (r r' : Request) (t : Token)
    → get_elem? r.rxpattern r.rxcursor ≡ some t
    → verdict_of more r ≡ (again, r')
    → IsStep r r'
verdict_stay r r' t e h = cc (verdict_more r t e)

eat_token-again :
    (t : Token) (cur : Bytes) (r r' : Request)
    → t ≢ dma2
    → get_elem? r.rxpattern r.rxcursor ≡ some t
    → eat_token t cur r ≡ (again, r')
    → IsStep r r'
unfolding eat_token
eat_token-again byte cur r r' n e h = verdict-IsStep r r' _ refl refl h
eat_token-again word cur r r' n e h = elim (Bool-cases (leb 2 (length cur))) [
  | inl long ↦ verdict-IsStep r r' _ refl refl (rw long at h)
  | inr short ↦ verdict_stay r r' word e (rw short at h)
]
eat_token-again fcb cur r r' n e h = elim (Bool-cases (leb 46 (length cur))) [
  | inl long ↦ verdict-IsStep r r' _ refl refl (rw long at h)
  | inr short ↦ verdict_stay r r' fcb e (rw short at h)
]
eat_token-again dma cur r r' n e h = elim (Bool-cases (leb 2 (length cur))) [
  | inl long ↦ elim (Bool-cases (leb (get_word_big_endian cur + 2) (length cur))) [
    | inl whole ↦ verdict-IsStep r r' _ refl refl (rw (long, whole) at h)
    | inr part ↦ verdict_stay r r' dma e (rw (long, part) at h)
  ]
  | inr short ↦ verdict_stay r r' dma e (rw short at h)
]
eat_token-again dma2 cur r r' n e h = absurd (n refl)

pub eat-again :
    (buf : Bytes) (r r' : Request) → IsPlain r.rxpattern → eat buf r ≡ (again, r') → IsStep r r'
unfolding eat
eat-again buf r r' p h = go (get_elem? r.rxpattern r.rxcursor) (drop r.bufoffset buf) refl h
  where
    go :
        (o : Option Token) (cur : Bytes)
        → get_elem? r.rxpattern r.rxcursor ≡ o
        → eat_cursor o cur r ≡ (again, r')
        → IsStep r r'
    go none cur e k = cc
    go (some t) [] e k = cc
    go (some t) (c ∷ cs) e k =
        eat_token-again t (c ∷ cs) r r' (plain_at r.rxpattern r.rxcursor t p e) e k

-- A round of the loop, by its verdict.
unfoldable pub after : ℕ → Bytes → Verdict → Request → Option (Bool × Request)
after fuel buf complete r' = some (true, r')
after fuel buf more r' = some (false, r')
after fuel buf again r' = consume_loop fuel buf r'

pub consume_loop-after :
    (fuel : ℕ) (buf : Bytes) (r r' : Request) (v : Verdict)
    → eat buf r ≡ (v, r')
    → consume_loop (suc fuel) buf r ≡ after fuel buf v r'
unfolding consume_loop after
consume_loop-after fuel buf r r' complete e = ground (arith, e)
consume_loop-after fuel buf r r' more e = ground (arith, e)
consume_loop-after fuel buf r r' again e = ground (arith, e)

abbrev Ends : ℕ → Bytes → Request → Type 0
Ends fuel buf r = (b : Bool) × (r' : Request) × (consume_loop fuel buf r ≡ some (b, r'))

round-Ends :
    (fuel : ℕ) (buf : Bytes) (r r' : Request) (v : Verdict)
    → eat buf r ≡ (v, r')
    → (eat buf r ≡ (again, r') → Ends fuel buf r')
    → Ends (suc fuel) buf r
unfolding after
round-Ends fuel buf r r' complete e k = (true, r', consume_loop-after fuel buf r r' complete e)
round-Ends fuel buf r r' more e k = (false, r', consume_loop-after fuel buf r r' more e)
round-Ends fuel buf r r' again e k =
    let (b, s, h) = k e in (b, s, consume_loop-after fuel buf r r' again e ∙ h)

-- With a round for each token that is left, and one more, the loop comes to an end.
consume_loop-Ends :
    (fuel : ℕ) (buf : Bytes) (r : Request)
    → IsPlain r.rxpattern
    → length r.rxpattern < r.rxcursor + suc fuel
    → Ends (suc fuel) buf r
consume_loop-Ends zero buf r p h =
    round-Ends zero buf r (eat buf r).1 (eat buf r).0 refl
      λ e. absurd (omega (arith, eat-again buf r (eat buf r).1 p e))
consume_loop-Ends (suc fuel) buf r p h =
    round-Ends (suc fuel) buf r (eat buf r).1 (eat buf r).0 refl λ e.
      let s = eat-again buf r (eat buf r).1 p e in
      consume_loop-Ends fuel buf (eat buf r).1 (rw s.0 p) (omega (arith, s, ap length s.0))

-- Where the pattern has no token of a second buffer, `consume` ends on every buffer, at every place
-- of the pattern.
pub consume_total :
    (buf : Bytes) (r : Request)
    → IsPlain r.rxpattern
    → (b : Bool) × (r' : Request) × (consume buf r ≡ some (b, r'))
unfolding consume
consume_total buf r p = consume_loop-Ends (length r.rxpattern) buf r p (omega arith)
