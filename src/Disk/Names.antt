-- ===== src/Disk/Names.antt =====
-- The files of the model of the C library, by their names.
use yamashnik.Prelude.{◌≡◌, ◌≢◌, refl, inl, inr, some, Option, Bytes, arith, true, Bool-cases}
use yamashnik.Globor.Match.{equal_iff}
use yamashnik.Disk.{Host, Files, put, fopen}

pub fopen-allowed :
    (host : Host) (name content : Bytes) (files : Files)
    → fopen host name files ≡ some content
    → host.allowed name ≡ true
unfolding fopen
fopen-allowed host name content files h = elim (Bool-cases (host.allowed name)) [
  | inl may ↦ may
  | inr barred ↦ ground (arith, barred)
]

pub fopen-put_same :
    (host : Host) (name : Bytes) (new : Option Bytes) (files : Files)
    → host.allowed name ≡ true
    → fopen host name (put name new files) ≡ new
unfolding fopen put
fopen-put_same host name new files may = rw (may, (equal_iff name name).1 refl) refl

pub fopen-put_other :
    (host : Host) (name other : Bytes) (new : Option Bytes) (files : Files)
    → other ≢ name
    → fopen host other (put name new files) ≡ fopen host other files
unfolding fopen put
fopen-put_other host name other new files h = ground (arith, equal_iff other name)
