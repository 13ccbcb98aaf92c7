-- ===== src/Tests/Commands.antt =====
-- Runs of the command line, the sources' own test suite for file names, and a dump.
use yamashnik.Prelude.{◌≡◌, refl, true, ℕ, ◌-◌, List, [], ◌∷◌, ◌++◌, Bytes, some, replicate, codes}
use yamashnik.Util.{
  test_suite, test_dosname_1, dosname, to_upper, base_name, name_length, write_upper,
}
use yamashnik.Diags.{dump, dumpline, log_zero, info, log}
use yamashnik.Msxnet.{port, dst, verbose, send, serve_it, send_files, Found, main, student_of, halp}
use yamashnik.Msxnet.Settle.{first_call, main-first_call}

test_suite_passes : test_suite ≡ true
unfolding test_suite test_dosname_1 dosname to_upper base_name name_length write_upper
test_suite_passes = refl

dump_two :
    dump (b'A' ∷ 7 ∷ []) 2
    ≡ (b'0' ∷ b'0' ∷ b'0' ∷ b'0' ∷ b' ' ∷ b' ' ∷ b'4' ∷ b'1' ∷ b' ' ∷ b'0' ∷ b'7' ∷ b' ' ∷ [])
      ++ (replicate 42 b' ' ++ b' ' ∷ b'A' ∷ b'.' ∷ 10 ∷ [])
unfolding dump dumpline
dump_two = refl

-- An `atoi` that reads one digit.
abbrev one_digit : Bytes → ℕ
one_digit [] = 0
one_digit (b ∷ bs) = b - b'0'

abbrev behind : List Bytes
behind = codes "--send" ∷ (b'f' ∷ []) ∷ codes "--serve" ∷ []

abbrev settings : List Found
settings =
    (port (b'/' ∷ b'x' ∷ []), codes "--dst=5" ∷ codes "--verbose" ∷ codes "--dst=3" ∷ behind)
    ∷ (dst (b'5' ∷ []), codes "--verbose" ∷ codes "--dst=3" ∷ behind)
    ∷ (verbose, codes "--dst=3" ∷ behind)
    ∷ (dst (b'3' ∷ []), behind)
    ∷ []

-- `--port=/x --dst=5 --verbose --dst=3 --send f --serve`: each option with what stands behind it.
abbrev line : List Found
line = settings ++ (send, (b'f' ∷ []) ∷ codes "--serve" ∷ []) ∷ (serve_it, (b'f' ∷ []) ∷ []) ∷ []

main-first_call_example :
    first_call (main one_digit line).calls
    ≡ some (send_files (b'/' ∷ b'x' ∷ []) 3 ((b'f' ∷ []) ∷ codes "--serve" ∷ []))
main-first_call_example =
    main-first_call one_digit (b'f' ∷ []) (codes "--serve" ∷ []) settings
      ((serve_it, (b'f' ∷ []) ∷ []) ∷ []) send
      (send_files (b'/' ∷ b'x' ∷ []) 3 ((b'f' ∷ []) ∷ codes "--serve" ∷ []))
      (tt, (tt, (tt, (tt, tt)))) (unfold student_of in refl)

-- Below the level of `info` the help is silent.
halp_silent : halp log_zero ≡ []
unfolding halp info log
halp_silent = refl
