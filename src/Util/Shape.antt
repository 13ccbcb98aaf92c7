-- ===== src/Util/Shape.antt =====
-- The shape of what `Util::dosname` of sw/spyvspy/util.cpp writes.
use native.Mathlib.Nat.{le_refl}
use yamashnik.Prelude.{
  ℕ, zero, suc, ◌+◌, ◌-◌, ◌≤◌, ◌≡◌, refl, sym, ap, ap₂, ◌∙◌, [], ◌∷◌, ◌++◌, Bytes, arith, map,
  length, set, replicate, length-append, length-replicate, append_assoc, length-map, All, some,
  take, drop, if◌then◌else◌, take-append, take_all, ◌≢◌, drop-drop, drop_all, ltb, drop-append,
  le→ltb_false, ◌==◌, ◌||◌, none, length-set,
}
use yamashnik.Util.{to_upper, write_upper, after_slash, base_name, dosname, name_length, spaces}

-- A text in `n` places, in capitals.
abbrev pub padded : ℕ → Bytes → Bytes
padded n text = map to_upper text ++ spaces (n - length text)

set-append_at :
    (pre rest : Bytes) (x v : ℕ) → set (pre ++ x ∷ rest) (length pre) v ≡ pre ++ v ∷ rest
set-append_at [] rest x v = refl
set-append_at (y ∷ pre) rest x v = ap (λ r. y ∷ r) (set-append_at pre rest x v)

-- The loop turns the bytes at its place into the capitals of the text.
write_upper_lem :
    (n : ℕ) (pre src old rest : Bytes)
    → length pre ≡ n
    → length old ≡ length src
    → write_upper n src (pre ++ (old ++ rest)) ≡ pre ++ (map to_upper src ++ rest)
unfolding write_upper
write_upper_lem n pre [] [] rest e h = refl
write_upper_lem n pre [] (x ∷ old) rest e h = absurd (omega arith)
write_upper_lem n pre (c ∷ src) [] rest e h = absurd (omega arith)
write_upper_lem n pre (c ∷ src) (x ∷ old) rest e h =
    let v = to_upper c in
    ap (write_upper (suc n) src) (
      ap (λ k. set (pre ++ x ∷ (old ++ rest)) k v) (sym e)
      ∙ set-append_at pre (old ++ rest) x v
      ∙ sym (append_assoc pre (v ∷ []) (old ++ rest)))
    ∙ write_upper_lem (suc n) (pre ++ v ∷ []) src old rest
        (omega (arith, length-append pre (v ∷ []))) (omega arith)
    ∙ append_assoc pre (v ∷ []) (map to_upper src ++ rest)

replicate-add : (m n x : ℕ) → replicate (m + n) x ≡ replicate m x ++ replicate n x
replicate-add zero n x = let e : zero + n ≡ n = omega arith in rw e
replicate-add (suc m) n x =
    let e : suc m + n ≡ suc (m + n) = omega arith in rw e (ap (λ r. x ∷ r) (replicate-add m n x))

blanks : (a b : ℕ) → a ≤ b → spaces b ≡ spaces a ++ spaces (b - a)
blanks a b h =
    let e : b ≡ a + (b - a) = omega arith in
    ap (λ k. replicate {A = ℕ} k 32) e ∙ replicate-add a (b - a) 32

length-spaces : (n : ℕ) → length (spaces n) ≡ n
length-spaces n = length-replicate n 32

-- Both loops over the blank buffer.
pub write_upper-write_upper :
    (name ext : Bytes)
    → length name ≤ 8
    → length ext ≤ 3
    → write_upper 8 ext (write_upper 0 name (spaces 11)) ≡ padded 8 name ++ padded 3 ext
write_upper-write_upper name ext hn he =
    ap (write_upper 8 ext)
      (ap (write_upper 0 name) split ∙ write_upper_lem 0 [] name _ _ refl (length-spaces _))
    ∙ ap (write_upper 8 ext) (sym (append_assoc (map to_upper name) _ _))
    ∙ write_upper_lem 8 (padded 8 name) ext _ _
        (omega (
          arith,
          length-append (map to_upper name) (spaces (8 - length name)),
          length-map to_upper name,
          length-spaces (8 - length name),
        ))
        (length-spaces _)
  where
    split :
        spaces 11
        ≡ spaces (length name)
          ++ (spaces (8 - length name) ++ (spaces (length ext) ++ spaces (3 - length ext)))
    split =
        replicate-add 8 3 b' '
        ∙ ap₂ ◌++◌ (blanks (length name) 8 hn) (blanks (length ext) 3 he)
        ∙ append_assoc (spaces (length name)) _ _

-- A text that does not hold the byte `x`.
abbrev pub Lacks : ℕ → Bytes → Type 0
Lacks x = All (λ c. c ≢ x)

after_slash-Lacks : (best f : Bytes) → Lacks b'/' f → after_slash best f ≡ best
unfolding after_slash
after_slash-Lacks best [] h = refl
after_slash-Lacks best (c ∷ f) h = ground (arith, after_slash-Lacks best f h.1, h.0)

pub base_name-Lacks : (f : Bytes) → Lacks b'/' f → base_name f ≡ f
unfolding base_name
base_name-Lacks f h = after_slash-Lacks f f h

after_slash-append : (best dir f : Bytes) → Lacks b'/' f → after_slash best (dir ++ b'/' ∷ f) ≡ f
unfolding after_slash
after_slash-append best [] f h = after_slash-Lacks f f h
after_slash-append best (c ∷ dir) f h =
    after_slash-append (if c == b'/' then dir ++ b'/' ∷ f else best) dir f h

pub base_name-append : (dir f : Bytes) → Lacks b'/' f → base_name (dir ++ b'/' ∷ f) ≡ f
unfolding base_name
base_name-append dir f h = after_slash-append (dir ++ b'/' ∷ f) dir f h

pub name_length_dot :
    (name rest : Bytes) → Lacks b'.' name → name_length (name ++ b'.' ∷ rest) ≡ length name
unfolding name_length
name_length_dot [] rest h = refl
name_length_dot (c ∷ name) rest h = ground (arith, name_length_dot name rest h.1, h.0)

pub name_length-Lacks : (name : Bytes) → Lacks b'.' name → name_length name ≡ length name
unfolding name_length
name_length-Lacks [] h = refl
name_length-Lacks (c ∷ name) h = ground (arith, name_length-Lacks name h.1, h.0)

-- The body of `dosname` once the name is taken apart.
dosname_parts :
    (fname shrt name ext : Bytes)
    → base_name fname ≡ shrt
    → name_length shrt ≡ length name
    → length shrt - length name - 1 ≡ length ext
    → take (length name) shrt ≡ name
    → drop (length name + 1) shrt ≡ ext
    → dosname fname ≡ (
        if ltb 8 (length name) || ltb 3 (length ext)
        then none
        else some (write_upper 8 ext (write_upper 0 name (spaces 11))))
unfolding dosname
dosname_parts fname shrt name ext b n e t d =
    rw (b, n, e, t, d) (rw (take_all (length ext) ext (le_refl _)))

-- For a path whose last part is a name without dots of at most eight characters, a dot, and at most
-- three characters, `dosname` gives both in capitals, filled with spaces to eight and three.
pub dosname_dot :
    (fname name ext : Bytes)
    → base_name fname ≡ name ++ b'.' ∷ ext
    → Lacks b'.' name
    → length name ≤ 8
    → length ext ≤ 3
    → dosname fname ≡ some (padded 8 name ++ padded 3 ext)
dosname_dot fname name ext b hd ln le =
    dosname_parts fname (name ++ b'.' ∷ ext) name ext b len_name len_ext
      (take-append (length name) name (b'.' ∷ ext) refl)
      (sym (drop-drop 1 (length name) (name ++ b'.' ∷ ext))
        ∙ ap (drop 1) (drop-append (length name) name (b'.' ∷ ext) refl))
    ∙ rw (le→ltb_false 8 _ ln, le→ltb_false 3 _ le)
        (ap some (write_upper-write_upper name ext ln le))
  where
    len_name : name_length (name ++ b'.' ∷ ext) ≡ length name
    len_name = name_length_dot name ext hd

    len_ext : length (name ++ b'.' ∷ ext) - length name - 1 ≡ length ext
    len_ext = omega (arith, length-append name (b'.' ∷ ext))

-- A file name with no dot has a blank extension.
pub dosname_plain :
    (fname name : Bytes)
    → base_name fname ≡ name
    → Lacks b'.' name
    → length name ≤ 8
    → dosname fname ≡ some (padded 8 name ++ padded 3 [])
dosname_plain fname name b hd ln =
    dosname_parts fname name name [] b (name_length-Lacks name hd) (omega arith)
      (take_all (length name) name (le_refl _)) (drop_all (length name + 1) name (omega arith))
    ∙ rw (le→ltb_false 8 _ ln) (ap some (write_upper-write_upper name [] ln (omega arith)))

length-write_upper : (at : ℕ) (src buf : Bytes) → length (write_upper at src buf) ≡ length buf
unfolding write_upper
length-write_upper at [] buf = refl
length-write_upper at (c ∷ src) buf =
    length-write_upper (suc at) src (set buf at (to_upper c)) ∙ length-set buf at (to_upper c)

-- Whatever `dosname` writes is eleven bytes.
pub length-dosname : (fname name : Bytes) → dosname fname ≡ some name → length name ≡ 11
unfolding dosname
length-dosname fname name h =
    let shrt = base_name fname in
    let front = take (name_length shrt) shrt in
    let back = take (length shrt - name_length shrt - 1) (drop (name_length shrt + 1) shrt) in
    ground (
      arith,
      length-write_upper 8 back (write_upper 0 front (spaces 11)),
      length-write_upper 0 front (spaces 11),
    )
