-- ===== src/Elf/Examples.antt =====
-- A program of one segment, and one whose segment starts in the middle of a page.
use dionysus.Prelude.{zero, suc, ◌≡◌, refl, true, false, some, [], ◌∷◌, arith}
use dionysus.Errno.{err, enoexec}
use dionysus.Elf.{Ehdr, Phdr, Image, Memory, File, failed, load_segments, int_exec}
use dionysus.Elf.Loading.{ArePlaced, HoldsAll, load_segments-HoldsAll}

abbrev text : Phdr
text = record { kind = 1; offset = 4096; vaddr = 134512640; filesz = 5000; memsz = 6000; flags = 5 }

-- two bytes over the end of a page
abbrev straddling : Phdr
straddling = record { kind = 1; offset = 4095; vaddr = 8191; filesz = 2; memsz = 2; flags = 6 }

abbrev header : Ehdr
header = record {
  ident = 127 ∷ 69 ∷ 76 ∷ 70 ∷ 1 ∷ 1 ∷ [];
  kind = 2;
  machine = 3;
  version = 1;
  entry = 134512640;
}

abbrev file : File
file = record { setuid = true; setgid = false; uid = 7; gid = 8 }

abbrev blank : Memory
blank a = 0

text-ArePlaced : ArePlaced (text ∷ [])
text-ArePlaced zero h e =
    let same : text ≡ h = ground arith in rw (← same) record { aligned = refl; fits = omega arith }
text-ArePlaced (suc i) h e = ground arith

load_segments-HoldsAll_example :
    (im : Image) × (load_segments (text ∷ []) ≡ some im) × HoldsAll im (text ∷ [])
load_segments-HoldsAll_example = load_segments-HoldsAll (text ∷ []) text-ArePlaced

-- A file that is no program: the call fails, and the effective user id has changed.
not_program_test :
    int_exec true true file (record header { kind = 1 }) [] [] [] blank 1000
    ≡ (7, failed (err enoexec))
unfolding int_exec
not_program_test = refl

abbrev text_image : Image
text_image = record {
  start = 134512640;
  limit = 134520832;
  pages = (134512640, false) ∷ (134516736, false) ∷ [];
  reads = (134512640, 5000, 4096) ∷ [];
}
