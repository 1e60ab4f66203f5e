-- ===== src/Devfs/Names/Counts.antt =====
-- The counts of links when a name is taken away.
use dionysus.Prelude.{
  ℕ, ◌+◌, ◌≡◌, ◌≢◌, refl, ap, ◌∙◌, some, List, [], ◌∷◌, ◌==◌, if◌then◌else◌, arith, Bool-cases, inl,
  inr,
}
use mathlib.Core.Option.{some-injective}
use dionysus.Prelude.Str.{Str, str_eq}
use dionysus.Devfs.{Dirent, DevFile, get_inode, update_file}
use dionysus.Devfs.Table.{IsTable-Above, update_file-IsTable}
use dionysus.Devfs.Changes.{
  without, without-IsTable, get_inode-without_self, get_inode-without_other,
}
use dionysus.Devfs.Linked.{
  count, count_in, expected, nlink_in, expected-same, nlink_self, nlink_other, nlink-update_file,
  links-update_file, links-without, IsLinked, IsShort,
}
use dionysus.Devfs.Names.{find_entry, remove_entry, drop_entry}

pub count-remove_entry :
    (fname : Str) (k : ℕ) (ds : List Dirent) (d : Dirent)
    → find_entry fname ds ≡ some d
    → count k (remove_entry fname ds) + (if k == d.ino then 1 else 0) ≡ count k ds
unfolding find_entry remove_entry
count-remove_entry fname k [] d e = ground arith
count-remove_entry fname k (a ∷ ds) d e = elim (Bool-cases (str_eq a.name fname)) [
  | inl here ↦
      let e' : some a ≡ some d = rw here at e in
      let same : a ≡ d = some-injective a d e' in rw here (rw same (ground arith))
  | inr away ↦
      let rest = count-remove_entry fname k ds d (rw away at e) in rw away (omega (arith, rest))
]

-- the entry off the list
pub drop_entry-IsShort :
    (p : ℕ) (fname : Str) (fs : List DevFile) (f : DevFile) (ds : List Dirent) (d : Dirent)
    → IsLinked fs
    → get_inode p fs ≡ some f
    → f.entries ≡ some ds
    → find_entry fname ds ≡ some d
    → IsShort d.ino (update_file p (drop_entry fname) fs)
drop_entry-IsShort p fname fs f ds d linked at e found =
    let g : DevFile → DevFile = drop_entry fname in
    let h = IsTable-Above fs linked.table in
    record {
      table = update_file-IsTable p g fs (λ _. refl) linked.table;
      counts = λ k.
          let c : count_in k (g f).entries + (if k == d.ino then 1 else 0) ≡ count_in k f.entries =
            rw e (count-remove_entry fname k ds d found) in
          let l = links-update_file 0 p k g fs f h at in
          nlink-update_file p k g fs f (λ _. refl) (λ _. refl) h at
          ∙ linked.counts k
          ∙ omega (arith, c, l);
    }

-- the file has one link less
pub unlinked-IsLinked :
    (i n : ℕ) (fs : List DevFile) (f : DevFile)
    → IsShort i fs
    → get_inode i fs ≡ some f
    → n + 1 ≡ f.nlink
    → IsLinked (update_file i (λ g. record g { nlink = n }) fs)
unlinked-IsLinked i n fs f short at less =
    let g : DevFile → DevFile = λ x. record x { nlink = n } in
    let h = IsTable-Above fs short.table in
    record {
      table = update_file-IsTable i g fs (λ _. refl) short.table;
      counts = λ k.
          let x = expected-same i g fs f (λ _. refl) h at k refl in
          let c = short.counts k in
          elim (Bool-cases (k == i)) [
            | inl same ↦
                let here : k ≡ i = ground arith in
                let before : nlink_in (get_inode k fs) ≡ f.nlink = rw here (ap nlink_in at) in
                let now : nlink_in (get_inode k (update_file i g fs)) ≡ n =
                  rw here (nlink_self i g fs f (λ _. refl) h at) in
                let c' : nlink_in (get_inode k fs) ≡ expected k fs + 1 = rw same at c in
                omega (arith, x, before, now, c', less)
            | inr away ↦
                let kept = nlink_other i g fs f (λ _. refl) h at k (ground arith) in
                let c' : nlink_in (get_inode k fs) ≡ expected k fs + 0 = rw away at c in
                omega (arith, x, kept, c')
          ];
    }

-- a file with no links and no entries is removed
pub without-IsLinked :
    (i : ℕ) (fs : List DevFile) (f : DevFile)
    → IsLinked fs
    → get_inode i fs ≡ some f
    → f.nlink ≡ 0
    → ((k : ℕ) → count_in k f.entries ≡ 0)
    → i ≢ 0
    → IsLinked (without i fs)
without-IsLinked i fs f linked at unlinked empty ne =
    let h = IsTable-Above fs linked.table in
    record {
      table = without-IsTable i fs linked.table ne;
      counts = λ k.
          let l = links-without 0 i k fs f h at in
          let c = linked.counts k in
          elim (Bool-cases (k == i)) [
            | inl same ↦
                let here : k ≡ i = ground arith in
                let before : nlink_in (get_inode k fs) ≡ 0 = rw here (ap nlink_in at ∙ unlinked) in
                let now : nlink_in (get_inode k (without i fs)) ≡ 0 =
                  rw here (ap nlink_in (get_inode-without_self 0 i fs h)) in
                omega (arith, l, empty k, before, now, c)
            | inr away ↦
                let kept = ap nlink_in (get_inode-without_other 0 i k fs h (ground arith)) in
                omega (arith, l, empty k, kept, c)
          ];
    }
