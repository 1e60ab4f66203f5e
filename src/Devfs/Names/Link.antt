-- ===== src/Devfs/Names/Link.antt =====
-- New names of files: `link`.
use dionysus.Prelude.{
  ℕ, ◌+◌, ◌%◌, ◌^◌, ◌<◌, ◌≡◌, refl, ap, ◌∙◌, true, not, some, List, ◌==◌, arith, Bool-cases, inl,
  inr,
}
use dionysus.Prelude.Str.{Str}
use dionysus.Errno.{err, enomem}
use dionysus.Devfs.{DevFile, get_inode, update_file}
use dionysus.Devfs.Table.{
  IsTable, IsTable-Above, get_inode-update_self, get_inode-update_other, update_file-IsTable,
}
use dionysus.Devfs.Linked.{nlink_in, expected-same, nlink_self, nlink_other, IsLinked, IsShort}
use dionysus.Devfs.Names.Create.{IsDir, Leaves, Leaves-if, insert_entry-Leaves}
use dionysus.Devfs.Names.{Allocs, link_master, link}

link_count :
    (child : ℕ) (fs : List DevFile) (f : DevFile)
    → IsLinked fs
    → get_inode child fs ≡ some f
    → f.nlink + 1 < 2 ^ 32
    → IsShort child (update_file child (λ g. record g { nlink = (g.nlink + 1) % 2 ^ 32 }) fs)
link_count child fs f linked at small =
    let g : DevFile → DevFile = λ x. record x { nlink = (x.nlink + 1) % 2 ^ 32 } in
    let h = IsTable-Above fs linked.table in
    let one_more : (f.nlink + 1) % 2 ^ 32 ≡ f.nlink + 1 = omega arith in
    record {
      table = update_file-IsTable child g fs (λ _. refl) linked.table;
      counts = λ k.
          let x = expected-same child g fs f (λ _. refl) h at k refl in
          elim (Bool-cases (k == child)) [
            | inl same ↦
                let here : k ≡ child = ground arith in
                let before : nlink_in (get_inode k fs) ≡ f.nlink = rw here (ap nlink_in at) in
                let now : nlink_in (get_inode k (update_file child g fs)) ≡ f.nlink + 1 =
                  rw here (nlink_self child g fs f (λ _. refl) h at ∙ one_more) in
                rw same (omega (arith, x, before, now, linked.counts k))
            | inr away ↦
                let kept = nlink_other child g fs f (λ _. refl) h at k (ground arith) in
                rw away (omega (arith, x, kept, linked.counts k))
          ];
    }

update_file-IsDir :
    (p i : ℕ) (g : DevFile → DevFile) (fs : List DevFile)
    → ((f : DevFile) → (g f).inode ≡ f.inode)
    → ((f : DevFile) → (g f).entries ≡ f.entries)
    → IsTable fs
    → IsDir p fs
    → IsDir p (update_file i g fs)
update_file-IsDir p i g fs keeps entries table (f, ds, at, e) =
    let h = IsTable-Above fs table in
    elim (Bool-cases (p == i)) [
      | inl same ↦
          let eq : p ≡ i = ground arith in
          (g f, ds, rw eq (get_inode-update_self 0 i g fs f keeps h (rw eq at at)), entries f ∙ e)
      | inr away ↦ (f, ds, get_inode-update_other 0 i p g fs keeps h (ground arith) ∙ at, e)
    ]

-- `link` of a file that is there, with less than 2^32 - 1 links, keeps the links counted, as long as the
-- node of the directory's list can be allocated.
pub link-Leaves :
    (allocs : Allocs) (p child : ℕ) (fname : Str) (fs : List DevFile) (f : DevFile)
    → IsLinked fs
    → IsDir p fs
    → get_inode child fs ≡ some f
    → f.nlink + 1 < 2 ^ 32
    → allocs.node ≡ true
    → Leaves (link allocs p child fname fs)
unfolding link link_master
link-Leaves allocs p child fname fs f linked dir at small node =
    let g : DevFile → DevFile = λ x. record x { nlink = (x.nlink + 1) % 2 ^ 32 } in
    rw (node, at)
      (Leaves-if _ _ (not allocs.dirent) (err enomem, fs, refl, linked)
        (insert_entry-Leaves p (record { ino = child; name = fname }) (update_file child g fs)
          (update_file-IsDir p child g fs (λ _. refl) (λ _. refl) linked.table dir)
          (link_count child fs f linked at small)))
