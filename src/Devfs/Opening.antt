-- ===== src/Devfs/Opening.antt =====
-- Files that are opened and closed.
use dionysus.Prelude.{
  ℕ, suc, ◌≡◌, ◌≢◌, refl, sym, ap, ◌∙◌, Bool, true, false, not, ◌&&◌, Option, none, some, List, [],
  ◌∷◌, ◌==◌, if◌then◌else◌, arith, Bool-cases, inl, inr,
}
use mathlib.Core.Option.{some-injective}
use dionysus.Prelude.Int.{ℤ, pos, ◌+ℤ◌, ◌-ℤ◌, +ℤ_cancel}
use dionysus.Devfs.{
  DevFile, Done, get_inode, update_file, is_zero, open_master, devfs_open, close_master,
  devfs_close,
}
use dionysus.Devfs.Table.{
  Above, IsTable, IsTable-Above, KeepsInode, get_inode-inode, get_inode-here, get_inode-other,
  get_inode-update_self, update_file-IsTable,
}
use dionysus.Devfs.Linked.{count_in, expected-same, nlink-update_file, KeepsNlink, IsLinked}
use dionysus.Devfs.Names.Unlink.{removed-Leaves}
use dionysus.Devfs.Names.Create.{Leaves, Leaves-if}

-- a change that keeps the entries
abbrev pub KeepsEntries : (DevFile → DevFile) → Type 0
KeepsEntries g = (f : DevFile) → (g f).entries ≡ f.entries

pub update_file-IsLinked :
    (i : ℕ) (g : DevFile → DevFile) (fs : List DevFile) (f : DevFile)
    → KeepsInode g
    → KeepsNlink g
    → KeepsEntries g
    → get_inode i fs ≡ some f
    → IsLinked fs
    → IsLinked (update_file i g fs)
update_file-IsLinked i g fs f keeps same entries at linked =
    let h = IsTable-Above fs linked.table in
    record {
      table = update_file-IsTable i g fs keeps linked.table;
      counts = λ k.
          nlink-update_file i k g fs f keeps same h at
          ∙ linked.counts k
          ∙ sym (expected-same i g fs f keeps h at k (entries f));
    }

open_master-IsLinked :
    (i : ℕ) (ret : ℤ) (fs : List DevFile) (o : Option DevFile)
    → IsLinked fs
    → get_inode i fs ≡ o
    → IsLinked (open_master ret o fs).1
unfolding open_master
open_master-IsLinked i ret fs none linked at = linked
open_master-IsLinked i ret fs (some f) linked at =
    let own = (get_inode-inode 0 i fs f (IsTable-Above fs linked.table) at).0 in
    elim (Bool-cases (f.nlink == 0)) [
      | inl gone ↦ rw gone linked
      | inr stays ↦ elim (Bool-cases (not (is_zero ret))) [
        | inl failed ↦ rw (stays, failed) linked
        | inr fine ↦
            rw (stays, fine)
              (rw own (update_file-IsLinked i _ fs f (λ _. refl) (λ _. refl) (λ _. refl) at linked))
      ]
    ]

-- `open` keeps the links counted.
pub devfs_open-IsLinked :
    (i : ℕ) (ret : ℤ) (fs : List DevFile) → IsLinked fs → IsLinked (devfs_open i ret fs).1
unfolding devfs_open
devfs_open-IsLinked i ret fs linked = open_master-IsLinked i ret fs (get_inode i fs) linked refl

-- a file that may be closed for good: without links it has no entries
abbrev pub MayClose : Option DevFile → Type 0
MayClose none = Unit
MayClose (some f) = f.nlink ≡ 0 → (k : ℕ) → count_in k f.entries ≡ 0

close_master-Leaves :
    (i : ℕ) (ret : ℤ) (fs : List DevFile) (o : Option DevFile)
    → IsLinked fs
    → get_inode i fs ≡ o
    → MayClose o
    → Leaves (close_master ret o fs)
unfolding close_master
close_master-Leaves i ret fs none linked at may = (pos 0, fs, refl, linked)
close_master-Leaves i ret fs (some f) linked at may =
    let h = IsTable-Above fs linked.table in
    let own = (get_inode-inode 0 i fs f h at).0 in
    let left = f.refcount -ℤ pos 1 in
    let g : DevFile → DevFile = λ x. record x { refcount = left } in
    let linked' : IsLinked (update_file i g fs) =
      update_file-IsLinked i g fs f (λ _. refl) (λ _. refl) (λ _. refl) at linked in
    let at' = get_inode-update_self 0 i g fs f (λ _. refl) h at in
    rw own (
      Leaves-if _ _ (not (is_zero left)) (pos 0, update_file i g fs, refl, linked')
        (elim (Bool-cases (is_zero ret && f.nlink == 0)) [
          | inl last ↦
              let gone : f.nlink ≡ 0 = ground arith in
              rw last (removed-Leaves ret i (update_file i g fs) (g f) linked' at' gone (may gone))
          | inr stays ↦ rw stays (ret, update_file i g fs, refl, linked')
        ]))

-- `close` always returns and keeps the links counted, if a file without links has no entries.
pub devfs_close-Leaves :
    (i : ℕ) (ret : ℤ) (fs : List DevFile)
    → IsLinked fs
    → MayClose (get_inode i fs)
    → Leaves (devfs_close i ret fs)
unfolding devfs_close
devfs_close-Leaves i ret fs linked may =
    close_master-Leaves i ret fs (get_inode i fs) linked refl may

-- two changes of one file
update_file-twice :
    (i : ℕ) (g k : DevFile → DevFile) (fs : List DevFile)
    → KeepsInode g
    → update_file i k (update_file i g fs) ≡ update_file i (λ x. k (g x)) fs
unfolding update_file
update_file-twice i g k [] keeps = refl
update_file-twice i g k (f ∷ fs) keeps = elim (Bool-cases (f.inode == i)) [
  | inl here ↦ let here' : (g f).inode == i ≡ true = rw (keeps f) here in rw (here, here') refl
  | inr away ↦ rw (away, away) (ap (λ (r : List DevFile). f ∷ r) (update_file-twice i g k fs keeps))
]

-- a change that leaves the file as it is
update_file_same :
    (lo i : ℕ) (g : DevFile → DevFile) (fs : List DevFile) (f : DevFile)
    → Above lo fs
    → get_inode i fs ≡ some f
    → g f ≡ f
    → update_file i g fs ≡ fs
unfolding update_file
update_file_same lo i g [] f h at same = refl
update_file_same lo i g (a ∷ fs) f h at same = elim (Bool-cases (a.inode == i)) [
  | inl here ↦
      let e : a ≡ f = some-injective a f (sym (get_inode-here i a fs here) ∙ at) in
      rw here (ap (λ (r : DevFile). r ∷ fs) (ap g e ∙ same ∙ sym e))
  | inr away ↦ rw away (
      ap (λ (r : List DevFile). a ∷ r)
        (update_file_same (suc a.inode) i g fs f h.1 (sym (get_inode-other lo i a fs h away) ∙ at)
          same))
]

refcount_back :
    (i : ℕ) (n : ℤ) (fs : List DevFile) (f : DevFile)
    → Above 0 fs
    → get_inode i fs ≡ some f
    → n ≡ f.refcount
    → update_file i
        (λ g. record g { refcount = n })
        (update_file i (λ g. record g { refcount = g.refcount +ℤ pos 1 }) fs)
      ≡ fs
refcount_back i n fs f h at e =
    update_file-twice i (λ g. record g { refcount = g.refcount +ℤ pos 1 })
      (λ g. record g { refcount = n }) fs (λ _. refl)
    ∙ update_file_same 0 i (λ g. record g { refcount = n }) fs f h at
        (ap (λ (m : ℤ). record f { refcount = m }) e)

if_same : (b : Bool) (o : Done) → (if b then o else o) ≡ o
if_same true o = refl
if_same false o = refl

-- A file with links that is opened and closed again, where the driver lets it: `open` gives 0, and `close`
-- gives 0 and the files that were there before.
pub devfs_close-devfs_open :
    (i : ℕ) (fs : List DevFile) (f : DevFile)
    → IsTable fs
    → get_inode i fs ≡ some f
    → f.nlink ≢ 0
    → ((devfs_open i (pos 0) fs).0 ≡ pos 0)
      × (devfs_close i (pos 0) (devfs_open i (pos 0) fs).1 ≡ some (pos 0, fs))
unfolding devfs_open devfs_close open_master close_master
devfs_close-devfs_open i fs f table at kept =
    let h = IsTable-Above fs table in
    let own = (get_inode-inode 0 i fs f h at).0 in
    let g : DevFile → DevFile = λ x. record x { refcount = x.refcount +ℤ pos 1 } in
    let linked_to : f.nlink == 0 ≡ false = ground arith in
    let at' = get_inode-update_self 0 i g fs f (λ _. refl) h at in
    let back =
      refcount_back i (f.refcount +ℤ pos 1 -ℤ pos 1) fs f h at (+ℤ_cancel f.refcount (pos 1)) in
    rw (at, linked_to, own, at', linked_to, own, back)
      (refl, if_same (not (is_zero (f.refcount +ℤ pos 1 -ℤ pos 1))) (some (pos 0, fs)))
