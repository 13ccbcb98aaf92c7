-- ===== src/Msxnet/Settle.antt =====
-- The settings with which `main` of sw/spyvspy/msxnet.cpp carries out a command.
use yamashnik.Prelude.{ℕ, ◌≡◌, refl, ap₂, ◌∙◌, List, [], ◌∷◌, ◌++◌, Option, none, some, Bytes, All}
use yamashnik.Diags.{log_verbose, log_morbose}
use yamashnik.Msxnet.{
  Arg, verbose, morbose, cpm, ping_it, copy, send, spy, test, serve_it, other, port, dst, Call,
  test_suites, boot_cpm, ping_ever, copy_files, send_files, spy_on, serve_only, Settings, Found,
  log_verbose, log_morbose, student_of, main_loop, main, ioport,
}

-- An option that only sets something.
abbrev pub IsSetting : Arg → Type 0
IsSetting verbose = Unit
IsSetting morbose = Unit
IsSetting (port p) = Unit
IsSetting (dst n) = Unit
IsSetting a = ⊥

-- An option that calls something, on a port and a workstation.
abbrev pub call_of : Arg → Bytes → ℕ → List Bytes → Option Call
call_of cpm p n files = some (boot_cpm p n)
call_of ping_it p n files = some (ping_ever p n)
call_of copy p n files = some (copy_files p n files)
call_of send p n files = some (send_files p n files)
call_of spy p n files = some (spy_on p n files)
call_of serve_it p n files = some (serve_only p n)
call_of test p n files = some test_suites
call_of a p n files = none

-- The last option of its kind counts.
abbrev or_else {ℓ} : {A : Type ℓ} → Option A → Option A → Option A
or_else (some a) o = some a
or_else none o = o

abbrev own_port : Arg → Option Bytes
own_port (port p) = some p
own_port a = none

abbrev own_dst : Arg → Option Bytes
own_dst (dst n) = some n
own_dst a = none

abbrev pub last_port : List Found → Option Bytes
last_port [] = none
last_port ((a, files) ∷ args) = or_else (last_port args) (own_port a)

abbrev pub last_dst : List Found → Option Bytes
last_dst [] = none
last_dst ((a, files) ∷ args) = or_else (last_dst args) (own_dst a)

abbrev pub or_port : Option Bytes → Bytes → Bytes
or_port none p = p
or_port (some q) p = q

abbrev pub or_student : (Bytes → ℕ) → Option Bytes → ℕ → ℕ
or_student atoi none n = n
or_student atoi (some arg) n = student_of atoi arg

abbrev pub first_call : List Call → Option Call
first_call [] = none
first_call (c ∷ cs) = some c

or_port-else :
    (o own : Option Bytes) (p : Bytes) → or_port o (or_port own p) ≡ or_port (or_else o own) p
or_port-else none own p = refl
or_port-else (some q) own p = refl

or_student-else :
    (atoi : Bytes → ℕ) (o own : Option Bytes) (n : ℕ)
    → or_student atoi o (or_student atoi own n) ≡ or_student atoi (or_else o own) n
or_student-else atoi none own n = refl
or_student-else atoi (some q) own n = refl

module _ (atoi : Bytes → ℕ) (f : Bytes) (fs : List Bytes) (post : List Found) where
  command_call :
      (a : Arg) (c : Call) (s : Settings)
      → call_of a s.port_name s.student (f ∷ fs) ≡ some c
      → first_call (main_loop atoi ((a, f ∷ fs) ∷ post) s).calls ≡ some c
  unfolding main_loop
  command_call verbose c s e = cc
  command_call morbose c s e = cc
  command_call cpm c s e = e
  command_call ping_it c s e = e
  command_call copy c s e = e
  command_call send c s e = e
  command_call spy c s e = e
  command_call test c s e = e
  command_call serve_it c s e = e
  command_call other c s e = cc
  command_call (port p) c s e = cc
  command_call (dst n) c s e = cc

  settled :
      (b : Arg) (at : List Bytes) (pre : List Found) (a : Arg) (s : Settings)
      → call_of a
          (or_port (last_port pre) (or_port (own_port b) s.port_name))
          (or_student atoi (last_dst pre) (or_student atoi (own_dst b) s.student))
          (f ∷ fs)
        ≡ call_of a
            (or_port (last_port ((b, at) ∷ pre)) s.port_name)
            (or_student atoi (last_dst ((b, at) ∷ pre)) s.student)
            (f ∷ fs)
  settled b at pre a s =
      ap₂ (λ p n. call_of a p n (f ∷ fs)) (or_port-else (last_port pre) (own_port b) s.port_name)
        (or_student-else atoi (last_dst pre) (own_dst b) s.student)

  settings_call :
      (pre : List Found) (a : Arg) (c : Call) (s : Settings)
      → All (λ b. IsSetting b.0) pre
      → call_of a
          (or_port (last_port pre) s.port_name)
          (or_student atoi (last_dst pre) s.student)
          (f ∷ fs)
        ≡ some c
      → first_call (main_loop atoi (pre ++ (a, f ∷ fs) ∷ post) s).calls ≡ some c
  unfolding main_loop
  settings_call [] a c s h e = command_call a c s e
  settings_call ((verbose, at) ∷ pre) a c s (h, hs) e =
      settings_call pre a c (record s { level = log_verbose }) hs (settled verbose at pre a s ∙ e)
  settings_call ((morbose, at) ∷ pre) a c s (h, hs) e =
      settings_call pre a c (record s { level = log_morbose }) hs (settled morbose at pre a s ∙ e)
  settings_call ((port p, at) ∷ pre) a c s (h, hs) e =
      settings_call pre a c (record s { port_name = p }) hs (settled (port p) at pre a s ∙ e)
  settings_call ((dst n, at) ∷ pre) a c s (h, hs) e =
      settings_call pre a c (record s { student = student_of atoi n }) hs
        (settled (dst n) at pre a s ∙ e)
  settings_call ((cpm, at) ∷ pre) a c s (h, hs) e = absurd h
  settings_call ((ping_it, at) ∷ pre) a c s (h, hs) e = absurd h
  settings_call ((copy, at) ∷ pre) a c s (h, hs) e = absurd h
  settings_call ((send, at) ∷ pre) a c s (h, hs) e = absurd h
  settings_call ((spy, at) ∷ pre) a c s (h, hs) e = absurd h
  settings_call ((test, at) ∷ pre) a c s (h, hs) e = absurd h
  settings_call ((serve_it, at) ∷ pre) a c s (h, hs) e = absurd h
  settings_call ((other, at) ∷ pre) a c s (h, hs) e = absurd h

-- Where there are only options that set something in front of a command, and `argv` has files behind the
-- place that `getopt_long_only` has reached when it finds the command: the first thing that `main` calls is
-- that command, with these files, on the port of the last `--port` and for the workstation of the last
-- `--dst` in front of it, or else the default port and all workstations. The options that are found later
-- change none of this.
pub main-first_call :
    (atoi : Bytes → ℕ) (f : Bytes) (fs : List Bytes) (pre post : List Found) (a : Arg) (c : Call)
    → All (λ b. IsSetting b.0) pre
    → call_of a (or_port (last_port pre) ioport) (or_student atoi (last_dst pre) 127) (f ∷ fs)
      ≡ some c
    → first_call (main atoi (pre ++ (a, f ∷ fs) ∷ post)).calls ≡ some c
unfolding main
main-first_call atoi f fs pre post a c h e = settings_call atoi f fs post pre a c _ h e
