-- ===== src/Request/Chunks.antt =====
-- `eat` of sw/spyvspy/spy.h on the first part of the bytes and on all of them.
use yamashnik.Prelude.{
  ℕ, ◌+◌, ◌<◌, ◌≤◌, ◌≡◌, ◌≢◌, inl, inr, refl, sym, ap, ap₂, ◌∙◌, [], ◌∷◌, ◌++◌, Option, none, some,
  Bytes, arith, length, length-append, length-drop, take, drop, get_elem?, get_or-append,
  take-append_le, drop-append_le, Bool-cases, leb, leb→le, le→leb,
}
use yamashnik.Request.{
  Token, byte, word, fcb, dma, dma2, Request, Verdict, more, get_word_big_endian, eat, eat_cursor,
  eat_token, verdict_of,
}

-- `more` leaves the request as it was.
eat_token-more :
    (t : Token) (cur : Bytes) (r r' : Request)
    → get_elem? r.rxpattern r.rxcursor ≡ some t
    → eat_token t cur r ≡ (more, r')
    → r' ≡ r
unfolding eat_token
eat_token-more byte cur r r' e h = ground arith
eat_token-more word cur r r' e h = ground arith
eat_token-more fcb cur r r' e h = ground arith
eat_token-more dma cur r r' e h = ground arith
eat_token-more dma2 cur r r' e h = ground arith

word-append :
    (cur extra : Bytes)
    → 2 ≤ length cur
    → get_word_big_endian (cur ++ extra) ≡ get_word_big_endian cur
unfolding get_word_big_endian
word-append cur extra h =
    rw (get_or-append cur extra 1 0 h, get_or-append cur extra 0 0 (omega arith)) refl

data_append :
    (n : ℕ) (cur extra : Bytes)
    → n + 2 ≤ length cur
    → take n (drop 2 (cur ++ extra)) ≡ take n (drop 2 cur)
data_append n cur extra h =
    ap (take n) (drop-append_le 2 cur extra (omega arith))
    ∙ take-append_le n (drop 2 cur) extra (omega (arith, length-drop 2 cur))

pub verdict_more :
    (r : Request) (t : Token)
    → get_elem? r.rxpattern r.rxcursor ≡ some t
    → verdict_of more r ≡ (more, r)
verdict_more r t e = ground arith

-- A verdict other than `more` stands when more bytes have come in.
eat_token-append :
    (t : Token) (cur extra : Bytes) (r r' : Request) (v : Verdict)
    → 0 < length cur
    → v ≢ more
    → get_elem? r.rxpattern r.rxcursor ≡ some t
    → eat_token t cur r ≡ (v, r')
    → eat_token t (cur ++ extra) r ≡ (v, r')
unfolding eat_token
eat_token-append byte cur extra r r' v l n e h = rw (get_or-append cur extra 0 0 l) h
eat_token-append word cur extra r r' v l n e h =
    ground (arith, word-append cur extra, length-append cur extra)
eat_token-append fcb cur extra r r' v l n e h = elim (Bool-cases (leb 46 (length cur))) [
  | inl whole ↦
      let long : 46 ≤ length cur = leb→le 46 (length cur) whole in
      rw
        (
          le→leb 46 (length (cur ++ extra)) (omega (arith, length-append cur extra)),
          data_append 44 cur extra long,
        )
        (rw whole at h)
  | inr short ↦ absurd (n (ap (λ p. p.0) (sym (rw short at h) ∙ verdict_more r fcb e)))
]
eat_token-append dma cur extra r r' v l n e h = ground (
  arith,
  word-append cur extra,
  data_append (get_word_big_endian cur) cur extra,
  length-append cur extra,
)
eat_token-append dma2 cur extra r r' v l n e h = h

pub eat-append :
    (buf extra : Bytes) (r r' : Request) (v : Verdict)
    → v ≢ more
    → eat buf r ≡ (v, r')
    → eat (buf ++ extra) r ≡ (v, r')
unfolding eat
eat-append buf extra r r' v n h =
    go (get_elem? r.rxpattern r.rxcursor) (drop r.bufoffset buf) refl refl h
  where
    go :
        (o : Option Token) (cur : Bytes)
        → get_elem? r.rxpattern r.rxcursor ≡ o
        → drop r.bufoffset buf ≡ cur
        → eat_cursor o cur r ≡ (v, r')
        → eat_cursor (get_elem? r.rxpattern r.rxcursor) (drop r.bufoffset (buf ++ extra)) r
          ≡ (v, r')
    go none cur e d k = ap (λ o. eat_cursor o (drop r.bufoffset (buf ++ extra)) r) e ∙ k
    go (some t) [] e d k = absurd (n (ap (λ p. p.0) (sym k)))
    go (some t) (c ∷ cs) e d k =
        ap₂ (λ o b. eat_cursor o b r) e
          (drop-append_le r.bufoffset buf extra
              (omega (arith, length-drop r.bufoffset buf, ap length d))
            ∙ ap (λ b. b ++ extra) d)
        ∙ eat_token-append t (c ∷ cs) extra r r' v (omega arith) n e k

pub eat-more : (buf : Bytes) (r r' : Request) → eat buf r ≡ (more, r') → r' ≡ r
unfolding eat
eat-more buf r r' h = go (get_elem? r.rxpattern r.rxcursor) (drop r.bufoffset buf) refl h
  where
    go :
        (o : Option Token) (cur : Bytes)
        → get_elem? r.rxpattern r.rxcursor ≡ o
        → eat_cursor o cur r ≡ (more, r')
        → r' ≡ r
    go none cur e k = cc
    go (some t) [] e k = cc
    go (some t) (c ∷ cs) e k = eat_token-more t (c ∷ cs) r r' e k
