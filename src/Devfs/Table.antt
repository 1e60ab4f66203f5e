-- ===== src/Devfs/Table.antt =====
-- The list of files by ascending inode: searches after the changes of the list.
use dionysus.Prelude.{
  ℕ, suc, ◌≤◌, ◌<◌, ◌≡◌, ◌≢◌, refl, sym, ap, ◌∙◌, true, false, Option, none, some, List, [], ◌∷◌,
  ltb, ◌==◌, if◌then◌else◌, arith, Bool-cases, inl, inr,
}
use mathlib.Core.Option.{some-injective}
use dionysus.Devfs.{DevFile, get_inode, update_file}

-- ascending, from a number on
abbrev pub Above : ℕ → List DevFile → Type 0
Above lo [] = Unit
Above lo (f ∷ fs) = (lo ≤ f.inode) × Above (suc f.inode) fs

-- the root first
abbrev pub IsTable : List DevFile → Type 0
IsTable [] = ⊥
IsTable (f ∷ fs) = (f.inode ≡ 0) × Above 1 fs

abbrev pub on_some : {A : Type 0} → (A → A) → Option A → Option A
on_some g none = none
on_some g (some a) = some (g a)

pub IsTable-Above : (fs : List DevFile) → IsTable fs → Above 0 fs
IsTable-Above [] h = tt
IsTable-Above (f ∷ fs) (e, h) = (omega arith, rw e h)

pub Above-le : (lo lo' : ℕ) (fs : List DevFile) → Above lo' fs → lo ≤ lo' → Above lo fs
Above-le lo lo' [] h le = tt
Above-le lo lo' (f ∷ fs) (l, h) le = (omega arith, h)

pub get_inode-below : (lo k : ℕ) (fs : List DevFile) → Above lo fs → k < lo → get_inode k fs ≡ none
unfolding get_inode
get_inode-below lo k [] h less = refl
get_inode-below lo k (f ∷ fs) (l, h) less =
    let e : f.inode == k ≡ false = ground arith in
    let e' : ltb k f.inode ≡ true = ground arith in rw (e, e') refl

-- one step of the search, without its early end
get_inode-step :
    (lo k : ℕ) (f : DevFile) (fs : List DevFile)
    → Above lo (f ∷ fs)
    → get_inode k (f ∷ fs) ≡ (if f.inode == k then some f else get_inode k fs)
unfolding get_inode
get_inode-step lo k f fs (l, h) = elim (Bool-cases (ltb k f.inode)) [
  | inl less ↦
      let e : f.inode == k ≡ false = ground arith in
      rw (less, e) (sym (get_inode-below (suc f.inode) k fs h (ground arith)))
  | inr other ↦ rw other refl
]

pub get_inode-other :
    (lo k : ℕ) (f : DevFile) (fs : List DevFile)
    → Above lo (f ∷ fs)
    → (f.inode == k) ≡ false
    → get_inode k (f ∷ fs) ≡ get_inode k fs
get_inode-other lo k f fs h other = get_inode-step lo k f fs h ∙ rw other refl

pub get_inode-here :
    (k : ℕ) (f : DevFile) (fs : List DevFile)
    → (f.inode == k) ≡ true
    → get_inode k (f ∷ fs) ≡ some f
unfolding get_inode
get_inode-here k f fs here = rw here refl

found :
    (g f : DevFile) (k lo : ℕ)
    → some g ≡ some f
    → g.inode ≡ k
    → lo ≤ g.inode
    → (f.inode ≡ k) × (lo ≤ k)
found g f k lo e here l =
    let same = ap (λ (x : DevFile). x.inode) (some-injective g f e) in
    (sym same ∙ here, omega arith)

pub nothing_there : (k : ℕ) (f : DevFile) → get_inode k [] ≡ some f → ⊥
unfolding get_inode
nothing_there k f e = ground arith

pub get_inode-inode :
    (lo k : ℕ) (fs : List DevFile) (f : DevFile)
    → Above lo fs
    → get_inode k fs ≡ some f
    → (f.inode ≡ k) × (lo ≤ k)
unfolding get_inode
get_inode-inode lo k [] f h e = ground arith
get_inode-inode lo k (g ∷ fs) f h e = elim (Bool-cases (g.inode == k)) [
  | inl here ↦ let e' : some g ≡ some f = rw here at e in found g f k lo e' (ground arith) h.0
  | inr other ↦
      let e' : get_inode k fs ≡ some f = sym (get_inode-other lo k g fs h other) ∙ e in
      let (same, l) = get_inode-inode (suc g.inode) k fs f h.1 e' in (same, omega (arith, h.0))
]

-- a change that keeps the inode
abbrev pub KeepsInode : (DevFile → DevFile) → Type 0
KeepsInode g = (f : DevFile) → (g f).inode ≡ f.inode

pub update_file-Above :
    (lo p : ℕ) (g : DevFile → DevFile) (fs : List DevFile)
    → KeepsInode g
    → Above lo fs
    → Above lo (update_file p g fs)
unfolding update_file
update_file-Above lo p g [] keeps h = tt
update_file-Above lo p g (f ∷ fs) keeps (l, h) = elim (Bool-cases (f.inode == p)) [
  | inl here ↦ rw here (rw (keeps f) (l, h))
  | inr other ↦ rw other (l, update_file-Above (suc f.inode) p g fs keeps h)
]

pub update_file-tail :
    (lo p : ℕ) (g : DevFile → DevFile) (f : DevFile) (fs : List DevFile)
    → KeepsInode g
    → Above lo (f ∷ fs)
    → Above lo (f ∷ update_file p g fs)
update_file-tail lo p g f fs keeps (l, h) = (l, update_file-Above (suc f.inode) p g fs keeps h)

pub changed-Above :
    (lo : ℕ) (g : DevFile → DevFile) (f : DevFile) (fs : List DevFile)
    → KeepsInode g
    → Above lo (f ∷ fs)
    → Above lo (g f ∷ fs)
changed-Above lo g f fs keeps h = rw (keeps f) h

pub get_inode-update_self :
    (lo p : ℕ) (g : DevFile → DevFile) (fs : List DevFile) (f : DevFile)
    → KeepsInode g
    → Above lo fs
    → get_inode p fs ≡ some f
    → get_inode p (update_file p g fs) ≡ some (g f)
unfolding update_file
get_inode-update_self lo p g [] f keeps h e = absurd (nothing_there p f e)
get_inode-update_self lo p g (a ∷ fs) f keeps h e = elim (Bool-cases (a.inode == p)) [
  | inl here ↦
      let same : a ≡ f = some-injective a f (sym (get_inode-here p a fs here) ∙ e) in
      let here' : (g a).inode == p ≡ true = rw (keeps a) here in
      rw here (get_inode-here p (g a) fs here' ∙ ap (λ (x : DevFile). some (g x)) same)
  | inr other ↦ rw other (
      get_inode-other lo p a (update_file p g fs) (update_file-tail lo p g a fs keeps h) other
      ∙ get_inode-update_self (suc a.inode) p g fs f keeps h.1
          (sym (get_inode-other lo p a fs h other) ∙ e))
]

pub get_inode-update_other :
    (lo p k : ℕ) (g : DevFile → DevFile) (fs : List DevFile)
    → KeepsInode g
    → Above lo fs
    → k ≢ p
    → get_inode k (update_file p g fs) ≡ get_inode k fs
unfolding update_file
get_inode-update_other lo p k g [] keeps h ne = refl
get_inode-update_other lo p k g (a ∷ fs) keeps h ne = elim (Bool-cases (a.inode == p)) [
  | inl here ↦
      let away : a.inode == k ≡ false = ground arith in
      let away' : (g a).inode == k ≡ false = rw (keeps a) away in
      rw here (
        get_inode-other lo k (g a) fs (changed-Above lo g a fs keeps h) away'
        ∙ sym (get_inode-other lo k a fs h away))
  | inr other ↦ rw other (elim (Bool-cases (a.inode == k)) [
    | inl there ↦ get_inode-here k a (update_file p g fs) there ∙ sym (get_inode-here k a fs there)
    | inr away ↦
        get_inode-other lo k a (update_file p g fs) (update_file-tail lo p g a fs keeps h) away
        ∙ get_inode-update_other (suc a.inode) p k g fs keeps h.1 ne
        ∙ sym (get_inode-other lo k a fs h away)
  ])
]

pub update_file-IsTable :
    (p : ℕ) (g : DevFile → DevFile) (fs : List DevFile)
    → KeepsInode g
    → IsTable fs
    → IsTable (update_file p g fs)
unfolding update_file
update_file-IsTable p g [] keeps table = table
update_file-IsTable p g (f ∷ fs) keeps (root, h) = elim (Bool-cases (f.inode == p)) [
  | inl here ↦ rw here (keeps f ∙ root, h)
  | inr other ↦ rw other (root, update_file-Above 1 p g fs keeps h)
]
