-- ===== src/Devfs/Names/Found.antt =====
-- A name that was created is found.
use dionysus.Prelude.{
  ℕ, ◌^◌, ◌<◌, ◌≡◌, ◌≢◌, refl, sym, ap, ◌∙◌, Bool, true, ◌||◌, Option, none, some, List, [], ◌∷◌,
  ◌++◌, ◌==◌, length, arith, Bool-cases, inl, inr,
}
use dionysus.Prelude.Int.{pos}
use dionysus.Prelude.Str.{Str, str_eq, str_eq_self}
use dionysus.Devfs.{
  Dirent, DevFile, get_inode, update_file, insert_behind, file_insert, get_empty_inode, vfs_dir,
  vfs_type,
}
use dionysus.Devfs.Table.{IsTable, IsTable-Above, get_inode-update_self, get_inode-update_other}
use dionysus.Devfs.Changes.{file_insert-behind, get_inode-insert_self, get_inode-insert_other}
use dionysus.Devfs.Inodes.{get_empty_inode-IsLeastFree}
use dionysus.Devfs.Names.{
  Allocs, append_entry, insert_entry, create_entry, new_file, create, find_entry, finddir, file_of,
  map_entries,
}
use dionysus.Devfs.Names.Unlink.{finddir-entries}

find_entry-append :
    (fname : Str) (d : Dirent) (ds : List Dirent)
    → find_entry fname ds ≡ none
    → str_eq d.name fname ≡ true
    → find_entry fname (ds ++ d ∷ []) ≡ some d
unfolding find_entry
find_entry-append fname d [] missing named = rw named refl
find_entry-append fname d (a ∷ ds) missing named = elim (Bool-cases (str_eq a.name fname)) [
  | inl here ↦ let c : some a ≡ none = rw here at missing in ground arith
  | inr away ↦ rw away (find_entry-append fname d ds (rw away at missing) named)
]

-- every allocation succeeds
abbrev pub all_allocs : Allocs
all_allocs = record { file = true; dirent = true; list = true; node = true }

abbrev pub is_devfs_type : ℕ → Bool
is_devfs_type mode =
    (vfs_type mode == 2 ^ 17) || (vfs_type mode == 2 ^ 18) || (vfs_type mode == 2 ^ 19)

created :
    (parent : ℕ) (fname : Str) (uid gid mode dev : ℕ) (fs : List DevFile)
    → is_devfs_type mode ≡ true
    → create all_allocs parent fname uid gid mode dev fs
      ≡ create_entry true parent
          (record { ino = get_empty_inode fs; name = fname })
          (file_insert (new_file (get_empty_inode fs) uid gid mode dev) fs)
unfolding create
created parent fname uid gid mode dev fs type = elim (Bool-cases (vfs_dir mode)) [
  | inl dir ↦ rw (type, dir) refl
  | inr device ↦ rw (type, device) refl
]

-- With less than 2^32 files and all allocations, `create` of a directory or a device under a name that the
-- directory does not have returns 0, and then `finddir` finds the new file under the name: the one with the
-- chosen inode, the owner, mode and device that were asked for, and one link.
pub finddir-create :
    (parent : ℕ) (fname : Str) (uid gid mode dev : ℕ) (fs : List DevFile) (f : DevFile)
    (ds : List Dirent)
    → IsTable fs
    → length fs < 2 ^ 32
    → is_devfs_type mode ≡ true
    → get_inode parent fs ≡ some f
    → f.entries ≡ some ds
    → find_entry fname ds ≡ none
    → (fs' : List DevFile) × (create all_allocs parent fname uid gid mode dev fs
        ≡ some (pos 0, fs'))
      × (finddir parent fname fs' ≡ some (some (new_file (get_empty_inode fs) uid gid mode dev)))
unfolding create_entry insert_entry new_file file_of
finddir-create parent fname uid gid mode dev fs f ds table few type at e missing =
    let file = new_file (get_empty_inode fs) uid gid mode dev in
    let d : Dirent = record { ino = get_empty_inode fs; name = fname } in
    let free = (get_empty_inode-IsLeastFree fs table few).unused in
    let (inserted, table') = file_insert-behind file fs table free in
    let ne : parent ≢ get_empty_inode fs = λ same.
      let c : none ≡ some f = sym free ∙ ap (λ (k : ℕ). get_inode k fs) (sym same) ∙ at in
      ground arith in
    let h = IsTable-Above fs table in
    let h' = IsTable-Above (insert_behind file fs) table' in
    let at_parent : get_inode parent (insert_behind file fs) ≡ some f =
      get_inode-insert_other 0 parent file fs (omega arith) h free ne ∙ at in
    let g : DevFile → DevFile = append_entry true d in
    let fs' = update_file parent g (insert_behind file fs) in
    let at_parent' =
      get_inode-update_self 0 parent g (insert_behind file fs) f (λ _. refl) h' at_parent in
    let at_file : get_inode (get_empty_inode fs) fs' ≡ some file =
      get_inode-update_other 0 parent (get_empty_inode fs) g (insert_behind file fs) (λ _. refl) h'
        (λ same. ne (sym same))
      ∙ get_inode-insert_self 0 file fs (omega arith) h free in
    let found = find_entry-append fname d ds missing (str_eq_self fname) in
    (
      fs',
      created parent fname uid gid mode dev fs type ∙ rw (inserted, at_parent) refl,
      finddir-entries parent fname fs' (g f) (ds ++ d ∷ []) at_parent'
            (ap (map_entries (λ xs. xs ++ d ∷ [])) e)
          ∙ ap (λ (o : Option Dirent). file_of fs' (some o)) found
          ∙ ap (λ (o : Option DevFile). some o) at_file,
    )
