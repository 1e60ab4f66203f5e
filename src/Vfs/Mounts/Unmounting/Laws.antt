-- ===== src/Vfs/Mounts/Unmounting/Laws.antt =====
-- Where `umount` comes to, and what it does to the tree.
use dionysus.Prelude.{
  ℕ, zero, suc, ◌≤◌, ◌≡◌, refl, sym, ap, ◌∙◌, Bool, Option, some, List, [], ◌∷◌, ◌++◌, length, drop,
  arith,
}
use mathlib.Core.Path.{fun_ext}
use dionysus.Prelude.Bits.{test_bit}
use dionysus.Prelude.Int.{ℤ}
use dionysus.Prelude.Str.{Str}
use dionysus.Vfs.Canonical.{canonical, spell, canonicalize_path}
use dionysus.Vfs.Canonical.Tokens.{AreText, buffer, string_at-append}
use dionysus.Vfs.Canonical.Names.{ArePlain, spell-Lays}
use dionysus.Vfs.Mounts.{
  MountNode, sb_of, children_of, find_child, Walked, ascend, at_root, result_of,
}
use dionysus.Vfs.Mounts.Unmounting.{descend, umount_super, umount_from, umount_path, umount}

-- `umount` along names
umount_names : (close_fs : ℕ → ℤ) → (detach : Bool) → List Str → MountNode → Option Walked
unfolding find_child umount_super ascend
umount_names close_fs detach [] n = some (umount_super close_fs detach (sb_of n) n)
umount_names close_fs detach (s ∷ names) n =
    descend s n (find_child s (children_of n)) (umount_names close_fs detach names)

-- the names that the loop looks at in a depth, each second turn of which it spends on a NUL
half : ℕ → List Str → List Str
half zero names = []
half (suc depth) [] = []
half (suc zero) (s ∷ names) = s ∷ []
half (suc (suc depth)) (s ∷ names) = s ∷ half depth names

drop_string : (s : Str) (rest : List ℕ) → drop (length s) (s ++ rest) ≡ rest
drop_string [] rest = refl
drop_string (c ∷ s) rest = drop_string s rest

umount_from-half :
    (close_fs : ℕ → ℤ) (detach : Bool) (depth : ℕ) (names : List Str) (n : MountNode)
    → depth ≤ length names
    → ArePlain names
    → AreText names
    → umount_from close_fs detach depth (buffer names) n
      ≡ umount_names close_fs detach (half depth names) n
unfolding umount_from umount_names half
umount_from-half close_fs detach zero names n le plain text = refl
umount_from-half close_fs detach (suc depth) [] n le plain text = absurd (omega arith)
umount_from-half close_fs detach (suc depth) ([] ∷ names) n le plain text =
    absurd (omega (arith, plain.0.some_byte))
umount_from-half close_fs detach (suc depth) ((zero ∷ s) ∷ names) n le plain text =
    absurd (omega arith)
umount_from-half close_fs detach (suc zero) ((suc c ∷ s) ∷ names) n le plain text =
    rw (string_at-append (suc c ∷ s) (buffer names) text.0)
      (ap (descend (suc c ∷ s) n (find_child (suc c ∷ s) (children_of n))) (fun_ext (λ m. refl)))
umount_from-half close_fs detach (suc (suc depth)) ((suc c ∷ s) ∷ names) n le plain text =
    rw (string_at-append (suc c ∷ s) (buffer names) text.0, drop_string s (0 ∷ buffer names))
      (ap (descend (suc c ∷ s) n (find_child (suc c ∷ s) (children_of n))) (
        fun_ext (λ m. umount_from-half close_fs detach depth names m (omega arith) plain.1 text.1)))

umount_path-half :
    (close_fs : ℕ → ℤ) (detach : Bool) (s : Str) (names : List Str) (n : MountNode)
    → ArePlain (s ∷ names)
    → umount_path close_fs detach (canonical (spell (s ∷ names))) (some n)
      ≡ result_of (at_root (umount_names close_fs detach (half (length (s ∷ names)) (s ∷ names)) n))
unfolding umount_path umount_from
umount_path-half close_fs detach s names n plain =
    let l = spell-Lays s names plain in
    rw (l.bytes, l.depth)
      (ap (λ (o : Option Walked). result_of (at_root o))
        (umount_from-half close_fs detach (length (s ∷ names)) (s ∷ names) n (omega arith) plain
          l.text.1))

-- For a canonical path of two names, `umount` is `umount` of the first name alone: it takes down what is
-- mounted there, whatever is mounted at the path itself.
pub umount-first :
    (close_fs : ℕ → Bool → ℤ) (cwd relpath relpath' : Str) (flags : ℕ) (s t : Str) (n : MountNode)
    → canonicalize_path cwd relpath ≡ canonical (spell (s ∷ t ∷ []))
    → canonicalize_path cwd relpath' ≡ canonical (spell (s ∷ []))
    → ArePlain (s ∷ t ∷ [])
    → umount close_fs cwd relpath flags (some n) ≡ umount close_fs cwd relpath' flags (some n)
unfolding umount half
umount-first close_fs cwd relpath relpath' flags s t n path path' plain =
    let close = λ (sb : ℕ). close_fs sb (test_bit 1 flags) in
    let detach = test_bit 2 flags in
    rw (path, path')
      (umount_path-half close detach s (t ∷ []) n plain
        ∙ sym (umount_path-half close detach s [] n (plain.0, tt)))
