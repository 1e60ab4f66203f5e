-- ===== src/Devfs/Names/Unlink.antt =====
-- Names that are taken away: `unlink`.
use dionysus.Prelude.{
  ℕ, ◌+◌, ◌-◌, ◌%◌, ◌^◌, ◌<◌, ◌≡◌, ◌≢◌, refl, sym, ap, ◌∙◌, true, ◌&&◌, Option, none, some, List,
  ◌==◌, arith, Bool-cases, Option-cases, inl, inr,
}
use mathlib.Core.Option.{some-injective}
use dionysus.Prelude.Int.{ℤ, pos}
use dionysus.Prelude.Str.{Str}
use dionysus.Errno.{err, enoent}
use dionysus.Devfs.{Dirent, DevFile, get_inode, update_file, file_remove, is_zero, with_code}
use dionysus.Devfs.Table.{
  IsTable-Above, get_inode-inode, get_inode-update_self, get_inode-update_other,
}
use dionysus.Devfs.Changes.{without, file_remove-without}
use dionysus.Devfs.Linked.{count, count_in, expected, nlink_in, IsLinked, IsShort}
use dionysus.Devfs.Names.{
  find_entry, remove_entry, drop_entry, finddir, search, file_of, unlink_file, unlink_child,
  unlink_master, unlink,
}
use dionysus.Devfs.Names.Create.{IsDir, Leaves}
use dionysus.Devfs.Names.Counts.{
  count-remove_entry, drop_entry-IsShort, unlinked-IsLinked, without-IsLinked,
}

-- a file that may be unlinked: no directory with entries
pub record MayGo (f : DevFile) : Type 0 where
  pub small : f.nlink < 2 ^ 32
  pub empty : (k : ℕ) → count_in k f.entries ≡ 0

-- the file, in the table that its entry is gone from
record IsCopy (i : ℕ) (fs : List DevFile) (f f1 : DevFile) : Type 0 where
  at : get_inode i fs ≡ some f1
  nlink : f1.nlink ≡ f.nlink
  empty : (k : ℕ) → count_in k f1.entries ≡ 0

no_root : (fs : List DevFile) → IsLinked fs → nlink_in (get_inode 0 fs) ≡ 0 → ⊥
no_root fs linked e = let c = linked.counts 0 in omega (arith, c, e)

pub removed-Leaves :
    (code : ℤ) (i : ℕ) (fs : List DevFile) (f1 : DevFile)
    → IsLinked fs
    → get_inode i fs ≡ some f1
    → f1.nlink ≡ 0
    → ((k : ℕ) → count_in k f1.entries ≡ 0)
    → Leaves (with_code code (file_remove i fs))
removed-Leaves code i fs f1 linked at gone empty =
    let ne : i ≢ 0 = λ z. no_root fs linked (rw z at (ap nlink_in at ∙ gone)) in
    (
      code,
      without i fs,
      ap (with_code code) (file_remove-without i fs f1 linked.table ne at),
      without-IsLinked i fs f1 linked at gone empty ne,
    )

last_count :
    (i : ℕ) (fs : List DevFile) → IsShort i fs → nlink_in (get_inode i fs) ≡ expected i fs + 1
last_count i fs short = let s : i == i ≡ true = ground arith in rw s at (short.counts i)

unlink_file-Leaves :
    (i : ℕ) (fs : List DevFile) (f f1 : DevFile)
    → IsShort i fs
    → IsCopy i fs f f1
    → f.inode ≡ i
    → f.nlink < 2 ^ 32
    → Leaves (unlink_file f fs)
unfolding unlink_file
unlink_file-Leaves i fs f f1 short copy here small =
    let linked_once : f.nlink ≡ expected i fs + 1 =
      sym copy.nlink ∙ sym (ap nlink_in copy.at) ∙ last_count i fs short in
    let left : (f.nlink + 2 ^ 32 - 1) % 2 ^ 32 ≡ f.nlink - 1 = omega arith in
    let g : DevFile → DevFile = λ x. record x { nlink = f.nlink - 1 } in
    let fs' = update_file i g fs in
    let linked : IsLinked fs' =
      unlinked-IsLinked i (f.nlink - 1) fs f1 short copy.at (omega (arith, copy.nlink)) in
    let at' =
      get_inode-update_self 0 i g fs f1 (λ _. refl) (IsTable-Above fs short.table) copy.at in
    rw (left, here)
      (elim (Bool-cases (f.nlink - 1 == 0 && is_zero f.refcount)) [
        | inl gone ↦
            rw gone (removed-Leaves (pos 0) i fs' (g f1) linked at' (ground arith) copy.empty)
        | inr stays ↦ rw stays (pos 0, fs', refl, linked)
      ])

drop_entry-IsCopy :
    (p : ℕ) (fname : Str) (fs : List DevFile) (q f : DevFile) (ds : List Dirent) (d : Dirent)
    → IsLinked fs
    → get_inode p fs ≡ some q
    → q.entries ≡ some ds
    → find_entry fname ds ≡ some d
    → get_inode d.ino fs ≡ some f
    → MayGo f
    → IsCopy d.ino (update_file p (drop_entry fname) fs) f f
drop_entry-IsCopy p fname fs q f ds d linked at e found here may =
    let h = IsTable-Above fs linked.table in
    elim (Bool-cases (d.ino == p)) [
      | inl same ↦
          let eq : d.ino ≡ p = ground arith in
          let own : q ≡ f =
            some-injective q f (sym at ∙ ap (λ (k : ℕ). get_inode k fs) (sym eq) ∙ here) in
          let none_left : count_in d.ino q.entries ≡ 0 = rw own (may.empty d.ino) in
          let no_count : count d.ino ds ≡ 0 = rw e at none_left in
          let one : d.ino == d.ino ≡ true = ground arith in
          let c = count-remove_entry fname d.ino ds d found in
          let c' : count d.ino (remove_entry fname ds) + 1 ≡ count d.ino ds = rw one at c in
          absurd (omega (arith, c', no_count))
      | inr away ↦ record {
        at =
            get_inode-update_other 0 p d.ino (drop_entry fname) fs (λ _. refl) h (ground arith)
            ∙ here;
        nlink = refl;
        empty = may.empty;
      }
    ]

child-Leaves :
    (p : ℕ) (fname : Str) (fs : List DevFile) (q : DevFile) (ds : List Dirent) (d : Dirent)
    (o : Option DevFile)
    → IsLinked fs
    → get_inode p fs ≡ some q
    → q.entries ≡ some ds
    → find_entry fname ds ≡ some d
    → get_inode d.ino fs ≡ o
    → ((f : DevFile) → o ≡ some f → MayGo f)
    → Leaves (unlink_child p fname (some o) fs)
unfolding unlink_child
child-Leaves p fname fs q ds d none linked at e found here may = (err enoent, fs, refl, linked)
child-Leaves p fname fs q ds d (some f) linked at e found here may =
    let go = may f refl in
    unlink_file-Leaves d.ino (update_file p (drop_entry fname) fs) f f
      (drop_entry-IsShort p fname fs q ds d linked at e found)
      (drop_entry-IsCopy p fname fs q f ds d linked at e found here go)
      (get_inode-inode 0 d.ino fs f (IsTable-Above fs linked.table) here).0 go.small

-- what `finddir` finds, by the directory's entries
pub finddir-entries :
    (p : ℕ) (fname : Str) (fs : List DevFile) (q : DevFile) (ds : List Dirent)
    → get_inode p fs ≡ some q
    → q.entries ≡ some ds
    → finddir p fname fs ≡ file_of fs (some (find_entry fname ds))
unfolding finddir search
finddir-entries p fname fs q ds at e = rw (at, e) refl

-- In a table with counted links, `unlink` from a directory that is there keeps the links counted, if what
-- the name stands for is no directory with entries and has less than 2^32 links.
pub unlink-Leaves :
    (p : ℕ) (fname : Str) (fs : List DevFile)
    → IsLinked fs
    → IsDir p fs
    → ((f : DevFile) → finddir p fname fs ≡ some (some f) → MayGo f)
    → Leaves (unlink p fname fs)
unfolding unlink unlink_master file_of unlink_child
unlink-Leaves p fname fs linked (q, ds, at, e) may =
    let names = finddir-entries p fname fs q ds at e in
    rw at (elim (Option-cases (find_entry fname ds)) [
      | inl missing ↦
          let names' : finddir p fname fs ≡ some none =
            names ∙ ap (λ (o : Option Dirent). file_of fs (some o)) missing in
          rw names' (err enoent, fs, refl, linked)
      | inr (d, found) ↦
          let names' : finddir p fname fs ≡ some (get_inode d.ino fs) =
            names ∙ ap (λ (o : Option Dirent). file_of fs (some o)) found in
          rw names' (
            child-Leaves p fname fs q ds d (get_inode d.ino fs) linked at e found refl
              (λ f here. may f (names' ∙ ap some here)))
    ])
