-- ===== src/Fcb/Names.antt =====
-- From a host's file name to the eleven bytes of a block, and back: `SetNameExt` and `GetFileName`
-- of sw/spyvspy/spydata.h.
use yamashnik.Prelude.{
  map-append, ℕ, zero, suc, ◌+◌, ◌-◌, ◌≤◌, ◌≡◌, ◌≢◌, refl, sym, ap, ◌∙◌, [], ◌∷◌, ◌++◌, some, Bytes,
  arith, map, length, length-append, take-append, drop-append, length-map, take_all,
  length-replicate,
}
use yamashnik.Util.{to_upper, spaces, dosname, dosname_of}
use yamashnik.Util.Shape.{padded, Lacks, base_name-Lacks, dosname_dot, dosname_plain}
use yamashnik.Fcb.{Fcb, set_name_ext, until_space, extract_file_name, get_file_name, c_string}

to_upper-ne-space : (c : ℕ) → c ≢ b' ' → to_upper c ≢ b' '
unfolding to_upper
to_upper-ne-space c h = ground arith

map-Lacks : (s : Bytes) → Lacks b' ' s → Lacks b' ' (map to_upper s)
map-Lacks [] h = tt
map-Lacks (c ∷ s) h = (to_upper-ne-space c h.0, map-Lacks s h.1)

until_space-spaces : (n : ℕ) → until_space (spaces n) ≡ []
unfolding until_space
until_space-spaces zero = refl
until_space-spaces (suc n) = refl

until_space-append : (s : Bytes) (n : ℕ) → Lacks b' ' s → until_space (s ++ spaces n) ≡ s
unfolding until_space
until_space-append [] n h = until_space-spaces n
until_space-append (c ∷ s) n h = ground (arith, until_space-append s n h.1, h.0)

until_space-padded : (n : ℕ) (s : Bytes) → Lacks b' ' s → until_space (padded n s) ≡ map to_upper s
until_space-padded n s h = until_space-append (map to_upper s) (n - length s) (map-Lacks s h)

length-padded : (n : ℕ) (s : Bytes) → length s ≤ n → length (padded n s) ≡ n
length-padded n s h = omega (
  arith,
  length-append (map to_upper s) (spaces (n - length s)),
  length-map to_upper s,
  length-replicate {A = ℕ} (n - length s) b' ',
)

pub extract_file_name-padded :
    (name ext : Bytes)
    → Lacks b' ' name
    → Lacks b' ' ext
    → length name ≤ 8
    → length ext ≤ 3
    → extract_file_name (padded 8 name ++ padded 3 ext)
      ≡ map to_upper name ++ b'.' ∷ map to_upper ext
unfolding extract_file_name
extract_file_name-padded name ext hn he ln le =
    rw
      (
        take-append 8 (padded 8 name) (padded 3 ext) (length-padded 8 name ln),
        drop-append 8 (padded 8 name) (padded 3 ext) (length-padded 8 name ln),
        take_all 3 (padded 3 ext) (omega (arith, length-padded 3 ext le)),
        until_space-padded 8 name hn,
        until_space-padded 3 ext he,
      )
      refl

set_name_ext-some :
    (fname name : Bytes) (f : Fcb)
    → dosname fname ≡ some name
    → set_name_ext (some fname) f ≡ record f { name_ext = name }
unfolding set_name_ext dosname_of
set_name_ext-some fname name f e = ground arith

c_string_lem : (name : Bytes) → Lacks 0 name → c_string name ≡ name
unfolding c_string
c_string_lem [] h = refl
c_string_lem (b ∷ bs) h = ground (arith, c_string_lem bs h.1, h.0)

to_upper-ne-nul : (c : ℕ) → c ≢ 0 → to_upper c ≢ 0
unfolding to_upper
to_upper-ne-nul c h = ground arith

Lacks-upper : (name : Bytes) → Lacks 0 name → Lacks 0 (map to_upper name)
Lacks-upper [] h = tt
Lacks-upper (b ∷ bs) (h, hs) = (to_upper-ne-nul b h, Lacks-upper bs hs)

-- What is read back from a name in capitals, filled with spaces.
read_name-padded :
    (f : Fcb) (name ext : Bytes)
    → Lacks 0 (name ++ b'.' ∷ ext)
    → Lacks b' ' name
    → Lacks b' ' ext
    → length name ≤ 8
    → length ext ≤ 3
    → get_file_name (record f { name_ext = padded 8 name ++ padded 3 ext })
      ≡ map to_upper (name ++ b'.' ∷ ext)
unfolding get_file_name to_upper
read_name-padded f name ext nul hn he ln le =
    let upper : extract_file_name (padded 8 name ++ padded 3 ext)
        ≡ map to_upper (name ++ b'.' ∷ ext) =
      extract_file_name-padded name ext hn he ln le ∙ sym (map-append to_upper name (b'.' ∷ ext)) in
    ap c_string upper ∙ c_string_lem _ (Lacks-upper (name ++ b'.' ∷ ext) nul)

-- A host's name is of at most eight characters without dot or space, a dot, and at most three
-- characters without space, all without a slash or a NUL. The name that is opened for a block made from it
-- is the host's name in capitals.
pub get_file_name-dot :
    (f : Fcb) (name ext : Bytes)
    → Lacks 0 (name ++ b'.' ∷ ext)
    → Lacks b'/' (name ++ b'.' ∷ ext)
    → Lacks b'.' name
    → Lacks b' ' name
    → Lacks b' ' ext
    → length name ≤ 8
    → length ext ≤ 3
    → get_file_name (set_name_ext (some (name ++ b'.' ∷ ext)) f) ≡ map to_upper (name ++ b'.' ∷ ext)
get_file_name-dot f name ext nul slash dot hn he ln le =
    ap get_file_name
      (set_name_ext-some _ _ f (dosname_dot _ name ext (base_name-Lacks _ slash) dot ln le))
    ∙ read_name-padded f name ext nul hn he ln le

upper_dot : (name : Bytes) → map to_upper (name ++ b'.' ∷ []) ≡ map to_upper name ++ b'.' ∷ []
unfolding to_upper
upper_dot name = map-append to_upper name (b'.' ∷ [])

-- A host's name has at most eight characters, and no dot, space, slash or NUL. The name that is opened
-- for a block made from it is that name in capitals with a dot at its end, so it is never the name
-- of the host's file, nor that name in capitals.
pub get_file_name-plain :
    (f : Fcb) (name : Bytes)
    → Lacks 0 (name ++ b'.' ∷ [])
    → Lacks b'/' name
    → Lacks b'.' name
    → Lacks b' ' name
    → length name ≤ 8
    → (get_file_name (set_name_ext (some name) f) ≡ map to_upper name ++ b'.' ∷ [])
      × (get_file_name (set_name_ext (some name) f) ≢ map to_upper name)
      × (get_file_name (set_name_ext (some name) f) ≢ name)
get_file_name-plain f name nul slash dot hn ln = (
  opened,
  λ e. absurd (omega (arith, longer, ap length (sym opened ∙ e))),
  λ e. absurd (omega (arith, longer, ap length (sym opened ∙ e), length-map to_upper name)),
)
  where
    opened : get_file_name (set_name_ext (some name) f) ≡ map to_upper name ++ b'.' ∷ []
    opened =
        ap get_file_name
          (set_name_ext-some _ _ f (dosname_plain _ name (base_name-Lacks _ slash) dot ln))
        ∙ read_name-padded f name [] nul hn tt ln (omega arith)
        ∙ upper_dot name

    longer : length (map to_upper name ++ b'.' ∷ []) ≡ length (map to_upper name) + 1
    longer = length-append (map to_upper name) (b'.' ∷ [])
