-- ===== src/Devfs/Linked.antt =====
-- The links to a file: the entries with its inode in all directories.
use dionysus.Prelude.{
  ℕ, suc, ◌+◌, ◌<◌, ◌≡◌, ◌≢◌, refl, sym, ap, ◌∙◌, true, false, Option, none, some, List, [], ◌∷◌,
  ◌++◌, ltb, ◌==◌, if◌then◌else◌, arith, Bool-cases, inl, inr,
}
use mathlib.Core.Option.{some-injective}
use dionysus.Devfs.{Dirent, DevFile, get_inode, update_file, insert_behind}
use dionysus.Devfs.Table.{
  Above, IsTable, get_inode-below, IsTable-Above, KeepsInode, get_inode-here, get_inode-other,
  nothing_there, get_inode-update_self, get_inode-update_other, update_file-IsTable,
}
use dionysus.Devfs.Changes.{without}

abbrev pub count : ℕ → List Dirent → ℕ
count k [] = 0
count k (d ∷ ds) = (if d.ino == k then 1 else 0) + count k ds

abbrev pub count_in : ℕ → Option (List Dirent) → ℕ
count_in k none = 0
count_in k (some ds) = count k ds

pub links : ℕ → List DevFile → ℕ
links k [] = 0
links k (f ∷ fs) = count_in k f.entries + links k fs

-- how often a file is to be linked, with one link for the root, and how often it says that it is
abbrev pub expected : ℕ → List DevFile → ℕ
expected k fs = (if k == 0 then 1 else 0) + links k fs

abbrev pub nlink_in : Option DevFile → ℕ
nlink_in none = 0
nlink_in (some f) = f.nlink

-- A table of files in which `nlink` of each file is the number of its links, and no entry names a file that
-- is not there.
pub record IsLinked (fs : List DevFile) : Type 0 where
  pub table : IsTable fs
  pub counts : (k : ℕ) → nlink_in (get_inode k fs) ≡ expected k fs

pub links-update_file :
    (lo p k : ℕ) (g : DevFile → DevFile) (fs : List DevFile) (f : DevFile)
    → Above lo fs
    → get_inode p fs ≡ some f
    → links k (update_file p g fs) + count_in k f.entries ≡ links k fs + count_in k (g f).entries
unfolding update_file links
links-update_file lo p k g [] f h e = absurd (nothing_there p f e)
links-update_file lo p k g (a ∷ fs) f h e = elim (Bool-cases (a.inode == p)) [
  | inl here ↦
      let same : a ≡ f = some-injective a f (sym (get_inode-here p a fs here) ∙ e) in
      rw here (rw same (omega arith))
  | inr away ↦
      let rest =
        links-update_file (suc a.inode) p k g fs f h.1
          (sym (get_inode-other lo p a fs h away) ∙ e) in
      rw away (omega (arith, rest))
]

pub links-insert_behind :
    (k : ℕ) (file : DevFile) (fs : List DevFile)
    → links k (insert_behind file fs) ≡ links k fs + count_in k file.entries
unfolding insert_behind links
links-insert_behind k file [] = omega arith
links-insert_behind k file (f ∷ fs) = elim (Bool-cases (ltb file.inode f.inode)) [
  | inl before ↦ rw before (omega arith)
  | inr behind ↦ rw behind (omega (arith, links-insert_behind k file fs))
]

pub links-without :
    (lo i k : ℕ) (fs : List DevFile) (f : DevFile)
    → Above lo fs
    → get_inode i fs ≡ some f
    → links k (without i fs) + count_in k f.entries ≡ links k fs
unfolding links
links-without lo i k [] f h e = absurd (nothing_there i f e)
links-without lo i k (a ∷ fs) f h e = elim (Bool-cases (a.inode == i)) [
  | inl here ↦
      let same : a ≡ f = some-injective a f (sym (get_inode-here i a fs here) ∙ e) in
      rw here (rw same (omega arith))
  | inr away ↦
      let rest =
        links-without (suc a.inode) i k fs f h.1 (sym (get_inode-other lo i a fs h away) ∙ e) in
      rw away (omega (arith, rest))
]

-- One entry for the inode `e` is missing.
pub record IsShort (e : ℕ) (fs : List DevFile) : Type 0 where
  pub table : IsTable fs
  pub counts : (k : ℕ) → nlink_in (get_inode k fs) ≡ expected k fs + (if k == e then 1 else 0)

abbrev pub KeepsNlink : (DevFile → DevFile) → Type 0
KeepsNlink g = (f : DevFile) → (g f).nlink ≡ f.nlink

pub nlink-update_file :
    (p k : ℕ) (g : DevFile → DevFile) (fs : List DevFile) (f : DevFile)
    → KeepsInode g
    → KeepsNlink g
    → Above 0 fs
    → get_inode p fs ≡ some f
    → nlink_in (get_inode k (update_file p g fs)) ≡ nlink_in (get_inode k fs)
nlink-update_file p k g fs f keeps same h e = elim (Bool-cases (k == p)) [
  | inl here ↦
      let at : k ≡ p = ground arith in
      rw at
        (ap nlink_in (get_inode-update_self 0 p g fs f keeps h e) ∙ same f ∙ sym (ap nlink_in e))
  | inr away ↦ ap nlink_in (get_inode-update_other 0 p k g fs keeps h (ground arith))
]

pub count-append :
    (k : ℕ) (ds : List Dirent) (d : Dirent)
    → count k (ds ++ d ∷ []) ≡ count k ds + (if d.ino == k then 1 else 0)
count-append k [] d = omega arith
count-append k (a ∷ ds) d = omega (arith, count-append k ds d)

-- A change of a directory's entries that adds the missing one.
pub IsShort-IsLinked :
    (p e : ℕ) (g : DevFile → DevFile) (fs : List DevFile) (f : DevFile)
    → KeepsInode g
    → KeepsNlink g
    → get_inode p fs ≡ some f
    → ((k : ℕ) → count_in k (g f).entries ≡ count_in k f.entries + (if k == e then 1 else 0))
    → IsShort e fs
    → IsLinked (update_file p g fs)
IsShort-IsLinked p e g fs f keeps same at more short =
    let h = IsTable-Above fs short.table in
    record {
      table = update_file-IsTable p g fs keeps short.table;
      counts = λ k.
          nlink-update_file p k g fs f keeps same h at
          ∙ short.counts k
          ∙ omega (arith, links-update_file 0 p k g fs f h at, more k);
    }

-- A change of a file that keeps its entries: the links stay, and only its own number of links may change.
module _ (i : ℕ) (g : DevFile → DevFile) (fs : List DevFile) (f : DevFile) (keeps : KeepsInode g)
    (h : Above 0 fs) (at : get_inode i fs ≡ some f) where
  pub expected-same :
      (k : ℕ) → (g f).entries ≡ f.entries → expected k (update_file i g fs) ≡ expected k fs
  expected-same k e =
      let c : count_in k (g f).entries ≡ count_in k f.entries = ap (count_in k) e in
      omega (arith, links-update_file 0 i k g fs f h at, c)

  pub nlink_self : nlink_in (get_inode i (update_file i g fs)) ≡ (g f).nlink
  nlink_self = ap nlink_in (get_inode-update_self 0 i g fs f keeps h at)

  pub nlink_other :
      (k : ℕ) → k ≢ i → nlink_in (get_inode k (update_file i g fs)) ≡ nlink_in (get_inode k fs)
  nlink_other k ne = ap nlink_in (get_inode-update_other 0 i k g fs keeps h ne)

-- the table of a root alone
pub root-IsLinked :
    (f : DevFile) → f.inode ≡ 0 → f.nlink ≡ 1 → f.entries ≡ some [] → IsLinked (f ∷ [])
unfolding links
root-IsLinked f own once no_entries = record {
  table = (own, tt);
  counts = λ k.
      let l : count_in k f.entries ≡ 0 = rw no_entries refl in
      elim (Bool-cases (f.inode == k)) [
        | inl here ↦
            let n : nlink_in (get_inode k (f ∷ [])) ≡ 1 =
              ap nlink_in (get_inode-here k f [] here) ∙ once in
            let k0 : k == 0 ≡ true = ground arith in rw k0 (omega (arith, n, l))
        | inr away ↦
            let rest = get_inode-below (suc k) k [] tt (omega arith) in
            let n : nlink_in (get_inode k (f ∷ [])) ≡ 0 =
              ap nlink_in (get_inode-other 0 k f [] (omega arith, tt) away ∙ rest) in
            let k1 : k == 0 ≡ false = ground arith in rw k1 (omega (arith, n, l))
      ];
}

-- a file with links is there
linked-there : (k : ℕ) (o : Option DevFile) → 0 < nlink_in o → (g : DevFile) × (o ≡ some g)
linked-there k none less = absurd (omega arith)
linked-there k (some g) less = (g, refl)

-- What an entry of a directory names is there.
pub entry-there :
    (p k : ℕ) (fs : List DevFile) (f : DevFile)
    → IsLinked fs
    → get_inode p fs ≡ some f
    → 0 < count_in k f.entries
    → (g : DevFile) × (get_inode k fs ≡ some g)
entry-there p k fs f linked at less =
    let l = links-without 0 p k fs f (IsTable-Above fs linked.table) at in
    linked-there k (get_inode k fs) (omega (arith, l, linked.counts k))
