-- ===== src/Util.antt =====
-- `Util::dosname` of sw/spyvspy/util.cpp. A C string is the list of its bytes before the NUL; bytes
-- from 128 on are left alone by `toupper` in the C locale.
pub mod Shape
use yamashnik.Prelude.{
  ℕ, suc, ◌+◌, ◌-◌, Bool, ◌&&◌, ◌||◌, List, [], ◌∷◌, Option, none, some, Bytes, ltb, leb, ◌==◌,
  if◌then◌else◌, length, take, drop, set, replicate, true, ◌++◌, false, map,
}

-- `toupper`
unfoldable pub to_upper : ℕ → ℕ
to_upper c = if leb b'a' c && leb c b'z' then c - 32 else c

-- `shrt`: what follows the last slash, or the whole. `best` is the part behind the last one so far.
after_slash : Bytes → Bytes → Bytes
after_slash best [] = best
after_slash best (c ∷ cs) = after_slash (if c == b'/' then cs else best) cs

unfoldable pub base_name : Bytes → Bytes
unfolding after_slash
base_name fname = after_slash fname fname

-- The place of the first dot, or the length: `namelen`.
unfoldable pub name_length : Bytes → ℕ
name_length [] = 0
name_length (c ∷ cs) = let rest = name_length cs in if c == b'.' then 0 else suc rest

-- `strlen(shrt) - namelen - 1`. With no dot this is -1 in the source and 0 here: either way the
-- test against 3 fails and the loop over the extension makes no round.
unfoldable pub ext_length : Bytes → ℕ
ext_length shrt = length shrt - name_length shrt - 1

-- The loops: `buf83[at + i] = toupper(src[i])` for each `i`.
unfoldable pub write_upper : ℕ → Bytes → Bytes → Bytes
write_upper at [] buf = buf
write_upper at (c ∷ src) buf = write_upper (suc at) src (set buf at (to_upper c))

-- `memset(p, ' ', n)`
abbrev pub spaces : ℕ → Bytes
spaces n = replicate n b' '

-- `dosname(fname, buf83)` with both pointers there: what it leaves in the first eleven bytes of
-- `buf83`, or `none` where it returns 0 and writes nothing.
unfoldable pub dosname : Bytes → Option Bytes
unfolding ext_length
dosname fname =
    let shrt = base_name fname in
    let namelen = name_length shrt in
    let name = take namelen shrt in
    let ext = take (ext_length shrt) (drop (namelen + 1) shrt) in
    if ltb 8 namelen || ltb 3 (ext_length shrt)
    then none
    else some (write_upper 8 ext (write_upper 0 name (spaces 11)))

-- A null `fname` gives 0 as well.
unfoldable pub dosname_of : Option Bytes → Option Bytes
dosname_of none = none
dosname_of (some fname) = dosname fname

-- `strcmp(a, b) == 0`
abbrev pub same : Bytes → Bytes → Bool
same [] [] = true
same (a ∷ xs) (b ∷ bs) = a == b && same xs bs
same xs ys = false

-- `test_dosname_1`: a buffer of fifteen `X`, of which `dosname` overwrites eleven.
unfoldable pub test_dosname_1 : Bytes → Bytes → Bool
test_dosname_1 file_name expect = elim (dosname file_name) [
  | none ↦ same (replicate 15 b'X') expect
  | some buf ↦ same (buf ++ replicate 4 b'X') expect
]

abbrev spaced : Bytes → Bytes → Bytes
spaced name ext =
    name
    ++ (replicate (8 - length name) b' '
        ++ (ext ++ (replicate (3 - length ext) b' ' ++ replicate 4 b'X')))

abbrev one_a : Bytes
one_a = b'a' ∷ []

abbrev autoexec : Bytes
autoexec = b'a' ∷ b'u' ∷ b't' ∷ b'o' ∷ b'e' ∷ b'x' ∷ b'e' ∷ b'c' ∷ []

-- `testSuite`
unfoldable pub test_suite : Bool
test_suite =
    let dirs =
      b'.' ∷ b'.' ∷ b'/' ∷ b'.' ∷ b'.' ∷ b'/' ∷ b'a' ∷ b'/' ∷ b'b' ∷ b'/' ∷ b'c' ∷ b'/' ∷ [] in
    let capital = spaced (b'A' ∷ []) in
    test_dosname_1 (b'a' ∷ b'.' ∷ b'b' ∷ []) (capital (b'B' ∷ []))
    && (test_dosname_1 one_a (capital [])
        && (test_dosname_1 (b'/' ∷ one_a) (capital [])
            && (test_dosname_1 (dirs ++ one_a) (capital [])
                && test_dosname_1 (dirs ++ (autoexec ++ (b'.' ∷ b'b' ∷ b'a' ∷ b't' ∷ [])))
                    (spaced (map to_upper autoexec) (b'B' ∷ b'A' ∷ b'T' ∷ [])))))
