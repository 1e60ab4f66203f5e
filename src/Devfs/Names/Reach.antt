-- ===== src/Devfs/Names/Reach.antt =====
-- All calls in any order, from a new file system on.
use dionysus.Prelude.{
  ℕ, ◌+◌, ◌^◌, ◌<◌, ◌≡◌, refl, sym, ap, ◌∙◌, true, Option, none, some, List, ◌==◌, length, arith,
}
use mathlib.Core.Option.{some-injective}
use dionysus.Prelude.Int.{ℤ}
use dionysus.Prelude.Str.{Str}
use dionysus.Devfs.{Dirent, DevFile, Done, get_inode, return_sb, devfs_open, devfs_close}
use dionysus.Devfs.Table.{IsTable-Above, get_inode-inode}
use dionysus.Devfs.Linked.{count, IsLinked, root-IsLinked, entry-there}
use dionysus.Devfs.Opening.{update_file-IsLinked, devfs_open-IsLinked, MayClose, devfs_close-Leaves}
use dionysus.Devfs.Names.{
  Allocs, find_entry, remove_entry, change, chmod, chown, create, link, unlink, finddir, file_of,
}
use dionysus.Devfs.Names.Create.{IsDir, Leaves, create-Leaves}
use dionysus.Devfs.Names.Link.{link-Leaves}
use dionysus.Devfs.Names.Unlink.{MayGo, unlink-Leaves, finddir-entries}
use dionysus.Devfs.Names.Counts.{count-remove_entry}

-- A call, with what it needs to keep the links counted.
pub data Step (fs : List DevFile) : List DevFile → Type 0 where
  opens : (i : ℕ) (ret : ℤ) → Step fs (devfs_open i ret fs).1
  closes :
      (i : ℕ) (ret code : ℤ) (fs' : List DevFile)
      → MayClose (get_inode i fs)
      → devfs_close i ret fs ≡ some (code, fs')
      → Step fs fs'
  changes_mode : (i mode : ℕ) → Step fs (chmod i mode fs).1
  changes_owner : (i uid gid : ℕ) → Step fs (chown i uid gid fs).1
  creates :
      (allocs : Allocs) (p : ℕ) (fname : Str) (uid gid mode dev : ℕ) (code : ℤ) (fs' : List DevFile)
      → length fs < 2 ^ 32
      → IsDir p fs
      → allocs.node ≡ true
      → create allocs p fname uid gid mode dev fs ≡ some (code, fs')
      → Step fs fs'
  adds_link :
      (allocs : Allocs) (p child : ℕ) (fname : Str) (f : DevFile) (code : ℤ) (fs' : List DevFile)
      → IsDir p fs
      → get_inode child fs ≡ some f
      → f.nlink + 1 < 2 ^ 32
      → allocs.node ≡ true
      → link allocs p child fname fs ≡ some (code, fs')
      → Step fs fs'
  unlinks :
      (p : ℕ) (fname : Str) (code : ℤ) (fs' : List DevFile)
      → IsDir p fs
      → ((f : DevFile) → finddir p fname fs ≡ some (some f) → MayGo f)
      → unlink p fname fs ≡ some (code, fs')
      → Step fs fs'

pub data Reach (s : List DevFile) : List DevFile → Type 0 where
  here : Reach s s
  next : {t u : List DevFile} → Reach s t → Step t u → Reach s u

Leaves-IsLinked :
    (o : Done) (code : ℤ) (fs : List DevFile) → Leaves o → o ≡ some (code, fs) → IsLinked fs
Leaves-IsLinked o code fs (code', fs', e, linked) is =
    let same : fs' ≡ fs =
      ap (λ (x : ℤ × List DevFile). x.1) (some-injective (code', fs') (code, fs) (sym e ∙ is)) in
    rw (sym same) linked

change-IsLinked :
    (i : ℕ) (g : DevFile → DevFile) (fs : List DevFile) (o : Option DevFile)
    → ((f : DevFile) → (g f).inode ≡ f.inode)
    → ((f : DevFile) → (g f).nlink ≡ f.nlink)
    → ((f : DevFile) → (g f).entries ≡ f.entries)
    → get_inode i fs ≡ o
    → IsLinked fs
    → IsLinked (change i g o fs).1
unfolding change
change-IsLinked i g fs none keeps nlink entries at linked = linked
change-IsLinked i g fs (some f) keeps nlink entries at linked =
    update_file-IsLinked i g fs f keeps nlink entries at linked

chmod-IsLinked : (i mode : ℕ) (fs : List DevFile) → IsLinked fs → IsLinked (chmod i mode fs).1
unfolding chmod
chmod-IsLinked i mode fs linked =
    change-IsLinked i _ fs (get_inode i fs) (λ _. refl) (λ _. refl) (λ _. refl) refl linked

chown-IsLinked : (i uid gid : ℕ) (fs : List DevFile) → IsLinked fs → IsLinked (chown i uid gid fs).1
unfolding chown
chown-IsLinked i uid gid fs linked =
    change-IsLinked i _ fs (get_inode i fs) (λ _. refl) (λ _. refl) (λ _. refl) refl linked

Step-IsLinked : (fs fs' : List DevFile) → Step fs fs' → IsLinked fs → IsLinked fs'
Step-IsLinked fs _ (opens i ret) linked = devfs_open-IsLinked i ret fs linked
Step-IsLinked fs _ (closes i ret code fs' may e) linked =
    Leaves-IsLinked _ code fs' (devfs_close-Leaves i ret fs linked may) e
Step-IsLinked fs _ (changes_mode i mode) linked = chmod-IsLinked i mode fs linked
Step-IsLinked fs _ (changes_owner i uid gid) linked = chown-IsLinked i uid gid fs linked
Step-IsLinked fs _ (creates allocs p fname uid gid mode dev code fs' few dir node e) linked =
    Leaves-IsLinked _ code fs'
      (create-Leaves allocs p fname uid gid mode dev fs linked few dir node) e
Step-IsLinked fs _ (adds_link allocs p child fname f code fs' dir at few node e) linked =
    Leaves-IsLinked _ code fs' (link-Leaves allocs p child fname fs f linked dir at few node) e
Step-IsLinked fs _ (unlinks p fname code fs' dir may e) linked =
    Leaves-IsLinked _ code fs' (unlink-Leaves p fname fs linked dir may) e

-- the table of a new file system
return_sb-IsLinked : (fs : List DevFile) → return_sb 0 true ≡ some fs → IsLinked fs
unfolding return_sb
return_sb-IsLinked fs e =
    let same = some-injective _ fs e in rw (sym same) (root-IsLinked _ refl refl refl)

Reach-from : (s fs : List DevFile) → Reach s fs → IsLinked s → IsLinked fs
Reach-from s _ here linked = linked
Reach-from s fs (next {t} before step) linked =
    Step-IsLinked t fs step (Reach-from s t before linked)

-- After any sequence of the calls on a new file system, each made with its conditions, the number of links
-- that each file says is the number of its entries in all directories, with one more for the root.
pub Reach-IsLinked : (s fs : List DevFile) → return_sb 0 true ≡ some s → Reach s fs → IsLinked fs
Reach-IsLinked s fs new reach = Reach-from s fs reach (return_sb-IsLinked s new)

-- After any sequence of the calls on a new file system, each made with its conditions, what `finddir` finds
-- for an entry of a directory is a file: `unlink` never returns where it does not expect to.
pub Reach-finddir :
    (s fs : List DevFile) (p : ℕ) (fname : Str) (f : DevFile) (ds : List Dirent) (d : Dirent)
    → return_sb 0 true ≡ some s
    → Reach s fs
    → get_inode p fs ≡ some f
    → f.entries ≡ some ds
    → find_entry fname ds ≡ some d
    → (g : DevFile) × (finddir p fname fs ≡ some (some g)) × (g.inode ≡ d.ino)
unfolding file_of
Reach-finddir s fs p fname f ds d new reach at e found =
    let linked = Reach-IsLinked s fs new reach in
    let c = count-remove_entry fname d.ino ds d found in
    let same : d.ino == d.ino ≡ true = ground arith in
    let c' : count d.ino (remove_entry fname ds) + 1 ≡ count d.ino ds = rw same at c in
    let one : 0 < count d.ino ds = omega (arith, c') in
    let (g, there) = entry-there p d.ino fs f linked at (rw e one) in
    (
      g,
      finddir-entries p fname fs f ds at e
          ∙ ap (λ (o : Option Dirent). file_of fs (some o)) found
          ∙ ap (λ (o : Option DevFile). some o) there,
      (get_inode-inode 0 d.ino fs g (IsTable-Above fs linked.table) there).0,
    )
