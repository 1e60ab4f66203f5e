-- ===== src/Vfs/Mounts/Walks.antt =====
-- The walk over a path's buffer is one over the path's names.
use dionysus.Prelude.{
  ℕ, zero, suc, ◌≡◌, refl, ap, ◌∙◌, Bool, true, false, Option, List, [], ◌∷◌, length, arith,
}
use dionysus.Prelude.Str.{Str}
use dionysus.Vfs.Canonical.{spell, tokenize, tokenize_depth}
use dionysus.Vfs.Canonical.Tokens.{AreText, buffer, named, string_at-append, skip_string-append}
use dionysus.Vfs.Canonical.Names.{ArePlain, named-plain, spell-Lays}
use dionysus.Vfs.Mounts.{
  MountNode, Walked, children_of, find_child, child_or_new, ascend, mount_here, mount_from,
}

-- `mount` along names
unfoldable pub mount_names :
    (super : Option ℕ) → List Str → (entry : Bool) → MountNode → Option Walked
unfolding find_child ascend mount_here
mount_names super [] entry n = mount_here super entry n
mount_names super (s ∷ names) entry n =
    ascend s n (mount_names super names true (child_or_new s (find_child s (children_of n))))

pub mount_from-names :
    (super : Option ℕ) (segs : List Str) (entry : Bool) (n : MountNode)
    → AreText segs
    → mount_from super (length segs) (buffer segs) entry n ≡ mount_names super (named segs) entry n
unfolding mount_from mount_names named
mount_from-names super [] entry n t = refl
mount_from-names super ([] ∷ segs) entry n t = mount_from-names super segs entry n t.1
mount_from-names super ((zero ∷ s) ∷ segs) entry n t = absurd (omega arith)
mount_from-names super ((suc c ∷ s) ∷ segs) entry n t =
    let m = child_or_new (suc c ∷ s) (find_child (suc c ∷ s) (children_of n)) in
    rw
      (
        string_at-append (suc c ∷ s) (buffer segs) t.0,
        skip_string-append (suc c ∷ s) (buffer segs) t.0,
      )
      (ap (ascend (suc c ∷ s) n) (mount_from-names super segs true m t.1))

-- `mount` along a canonical path with names
pub mount_from-spell :
    (super : Option ℕ) (s : Str) (names : List Str) (n : MountNode)
    → ArePlain (s ∷ names)
    → mount_from super (tokenize_depth (spell (s ∷ names))) (tokenize (spell (s ∷ names))) false n
      ≡ mount_names super (s ∷ names) false n
unfolding named
mount_from-spell super s names n plain =
    let l = spell-Lays s names plain in
    let same : named ([] ∷ s ∷ names) ≡ s ∷ names = named-plain (s ∷ names) plain in
    rw (l.bytes, l.depth)
      (mount_from-names super ([] ∷ s ∷ names) false n l.text
        ∙ ap (λ (r : List Str). mount_names super r false n) same)
