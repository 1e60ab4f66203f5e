-- ===== src/Devfs/Names/Create.antt =====
-- New files: `create`.
use dionysus.Prelude.{
  ℕ, ◌+◌, ◌^◌, ◌<◌, ◌≡◌, refl, sym, ap, ◌∙◌, Bool, true, false, not, ◌&&◌, ◌||◌, none, some, List,
  ◌==◌, if◌then◌else◌, length, arith, Bool-cases, inl, inr,
}
use dionysus.Prelude.Int.{ℤ, pos}
use dionysus.Prelude.Str.{Str}
use dionysus.Errno.{err, einval, enomem}
use dionysus.Devfs.{
  Dirent, DevFile, Done, get_inode, update_file, insert_behind, file_insert, get_empty_inode,
  vfs_dir, vfs_type,
}
use dionysus.Devfs.Table.{IsTable, IsTable-Above}
use dionysus.Devfs.Changes.{file_insert-behind, get_inode-insert_self, get_inode-insert_other}
use dionysus.Devfs.Inodes.{get_empty_inode-IsLeastFree}
use dionysus.Devfs.Linked.{
  count_in, nlink_in, IsLinked, IsShort, links-insert_behind, count-append, IsShort-IsLinked,
}
use dionysus.Devfs.Names.{Allocs, append_entry, insert_entry, create_entry, new_file, create}

-- The directory is there and has a list of entries.
abbrev pub IsDir : ℕ → List DevFile → Type 0
IsDir p fs = (f : DevFile) × (ds : List Dirent) × (get_inode p fs ≡ some f) × (f.entries ≡ some ds)

-- What a call leaves: a table in which the links are counted.
abbrev pub Leaves : Done → Type 0
Leaves o = (code : ℤ) × (fs : List DevFile) × (o ≡ some (code, fs)) × IsLinked fs

append_entry-count :
    (d : Dirent) (f : DevFile) (ds : List Dirent) (k : ℕ)
    → f.entries ≡ some ds
    → count_in k (append_entry true d f).entries
      ≡ count_in k f.entries + (if k == d.ino then 1 else 0)
append_entry-count d f ds k e = rw e (ground (arith, count-append k ds d))

pub insert_entry-Leaves :
    (p : ℕ) (d : Dirent) (fs : List DevFile)
    → IsDir p fs
    → IsShort d.ino fs
    → Leaves (insert_entry true p d (get_inode p fs) fs)
unfolding insert_entry
insert_entry-Leaves p d fs (f, ds, at, e) short = (
  pos 0,
  update_file p (append_entry true d) fs,
  rw at refl,
  IsShort-IsLinked p d.ino (append_entry true d) fs f (λ _. refl) (λ _. refl) at
      (λ k. append_entry-count d f ds k e) short,
)

new_file-count :
    (inode uid gid mode dev k : ℕ) → count_in k (new_file inode uid gid mode dev).entries ≡ 0
unfolding new_file
new_file-count inode uid gid mode dev k = elim (Bool-cases (vfs_dir mode)) [
  | inl dir ↦ rw dir refl
  | inr other ↦ rw other refl
]

insert_behind-IsShort :
    (file : DevFile) (fs : List DevFile)
    → IsLinked fs
    → get_inode file.inode fs ≡ none
    → file.nlink ≡ 1
    → ((k : ℕ) → count_in k file.entries ≡ 0)
    → IsShort file.inode (insert_behind file fs)
insert_behind-IsShort file fs linked new one empty =
    let h = IsTable-Above fs linked.table in
    record {
      table = (file_insert-behind file fs linked.table new).1;
      counts = λ k.
          let l = links-insert_behind k file fs in
          elim (Bool-cases (k == file.inode)) [
            | inl same ↦
                let at : k ≡ file.inode = ground arith in
                let before : nlink_in (get_inode k fs) ≡ 0 = rw at (ap nlink_in new) in
                let now : nlink_in (get_inode k (insert_behind file fs)) ≡ 1 =
                  rw at (ap nlink_in (get_inode-insert_self 0 file fs (omega arith) h new) ∙ one) in
                rw same (omega (arith, now, before, linked.counts k, l, empty k))
            | inr away ↦
                let kept =
                  ap nlink_in
                    (get_inode-insert_other 0 k file fs (omega arith) h new (ground arith)) in
                rw away (omega (arith, kept, linked.counts k, l, empty k))
          ];
    }

pub Leaves-if : (o o' : Done) (b : Bool) → Leaves o → Leaves o' → Leaves (if b then o else o')
Leaves-if o o' true h k = h
Leaves-if o o' false h k = k

insert_behind-IsDir :
    (p : ℕ) (file : DevFile) (fs : List DevFile)
    → IsTable fs
    → get_inode file.inode fs ≡ none
    → IsDir p fs
    → IsDir p (insert_behind file fs)
insert_behind-IsDir p file fs table new (f, ds, at, e) = elim (Bool-cases (p == file.inode)) [
  | inl same ↦
      let eq : p ≡ file.inode = ground arith in
      let gone : get_inode p fs ≡ none = rw eq new in
      let c : none ≡ some f = sym gone ∙ at in ground arith
  | inr away ↦ (
    f,
    ds,
    get_inode-insert_other 0 p file fs (omega arith) (IsTable-Above fs table) new (ground arith)
        ∙ at,
    e,
  )
]

create_entry-Leaves :
    (p inode uid gid mode dev : ℕ) (fname : Str) (fs : List DevFile)
    → IsLinked fs
    → get_inode inode fs ≡ none
    → IsDir p fs
    → Leaves (
        create_entry true p
          (record { ino = inode; name = fname })
          (file_insert (new_file inode uid gid mode dev) fs))
unfolding create_entry new_file
create_entry-Leaves p inode uid gid mode dev fname fs linked new dir =
    let file = new_file inode uid gid mode dev in
    let short =
      insert_behind-IsShort file fs linked new refl
        (λ k. new_file-count inode uid gid mode dev k) in
    rw ((file_insert-behind file fs linked.table new).0) (
      insert_entry-Leaves p (record { ino = inode; name = fname }) (insert_behind file fs)
        (insert_behind-IsDir p file fs linked.table new dir) short)

-- In a table with counted links, less than 2^32 files and a directory that is there, `create` keeps the
-- links counted, whatever it returns, as long as the node of the directory's list can be allocated.
pub create-Leaves :
    (allocs : Allocs) (p : ℕ) (fname : Str) (uid gid mode dev : ℕ) (fs : List DevFile)
    → IsLinked fs
    → length fs < 2 ^ 32
    → IsDir p fs
    → allocs.node ≡ true
    → Leaves (create allocs p fname uid gid mode dev fs)
unfolding create
create-Leaves allocs p fname uid gid mode dev fs linked small dir node =
    let new = (get_empty_inode-IsLeastFree fs linked.table small).unused in
    rw node (
      Leaves-if _ _
        (not ((vfs_type mode == 2 ^ 17) || (vfs_type mode == 2 ^ 18) || (vfs_type mode == 2 ^ 19)))
        (err einval, fs, refl, linked)
        (Leaves-if _ _ (not allocs.file || not allocs.dirent || (vfs_dir mode && not allocs.list))
          (err enomem, fs, refl, linked)
          (create_entry-Leaves p (get_empty_inode fs) uid gid mode dev fname fs linked new dir)))
