-- ===== src/Devfs/Changes.antt =====
-- The files after one is inserted or removed, and the inode that is chosen for a new one.
use dionysus.Prelude.{
  ℕ, suc, ◌≤◌, ◌≡◌, ◌≢◌, refl, sym, ap, ◌∙◌, false, none, some, List, [], ◌∷◌, ltb, ◌==◌,
  if◌then◌else◌, arith, Bool-cases, inl, inr,
}
use dionysus.Devfs.{
  DevFile, get_inode, insert_behind, file_insert, and_file, remove_behind, file_remove,
}
use dionysus.Devfs.Table.{
  Above, IsTable, IsTable-Above, get_inode-below, get_inode-here, get_inode-other, nothing_there,
  Above-le,
}

-- a search that finds nothing, at its first file
pub none-away :
    (k : ℕ) (f : DevFile) (fs : List DevFile) → get_inode k (f ∷ fs) ≡ none → (f.inode == k) ≡ false
none-away k f fs e = elim (Bool-cases (f.inode == k)) [
  | inl here ↦ let e' : some f ≡ none = sym (get_inode-here k f fs here) ∙ e in ground arith
  | inr away ↦ away
]

pub insert_behind-Above :
    (lo : ℕ) (file : DevFile) (fs : List DevFile)
    → lo ≤ file.inode
    → Above lo fs
    → get_inode file.inode fs ≡ none
    → Above lo (insert_behind file fs)
unfolding insert_behind
insert_behind-Above lo file [] le h e = (le, tt)
insert_behind-Above lo file (f ∷ fs) le (l, h) e =
    let away = none-away file.inode f fs e in
    elim (Bool-cases (ltb file.inode f.inode)) [
      | inl before ↦ rw before (le, (ground arith, h))
      | inr behind ↦ rw behind (
        l,
        insert_behind-Above (suc f.inode) file fs (ground arith) h
            (sym (get_inode-other lo file.inode f fs (l, h) away) ∙ e),
      )
    ]

pub get_inode-insert_self :
    (lo : ℕ) (file : DevFile) (fs : List DevFile)
    → lo ≤ file.inode
    → Above lo fs
    → get_inode file.inode fs ≡ none
    → get_inode file.inode (insert_behind file fs) ≡ some file
unfolding insert_behind
get_inode-insert_self lo file [] le h e = get_inode-here file.inode file [] (ground arith)
get_inode-insert_self lo file (f ∷ fs) le h e =
    let away = none-away file.inode f fs e in
    let e' = sym (get_inode-other lo file.inode f fs h away) ∙ e in
    elim (Bool-cases (ltb file.inode f.inode)) [
      | inl before ↦ rw before (get_inode-here file.inode file (f ∷ fs) (ground arith))
      | inr behind ↦
          let le' : suc f.inode ≤ file.inode = ground arith in
          rw behind (
            get_inode-other lo file.inode f (insert_behind file fs)
              (h.0, insert_behind-Above (suc f.inode) file fs le' h.1 e') away
            ∙ get_inode-insert_self (suc f.inode) file fs le' h.1 e')
    ]

pub get_inode-insert_other :
    (lo k : ℕ) (file : DevFile) (fs : List DevFile)
    → lo ≤ file.inode
    → Above lo fs
    → get_inode file.inode fs ≡ none
    → k ≢ file.inode
    → get_inode k (insert_behind file fs) ≡ get_inode k fs
unfolding insert_behind
get_inode-insert_other lo k file [] le h e ne = get_inode-other lo k file [] (le, tt) (ground arith)
get_inode-insert_other lo k file (f ∷ fs) le h e ne =
    let away = none-away file.inode f fs e in
    let e' = sym (get_inode-other lo file.inode f fs h away) ∙ e in
    elim (Bool-cases (ltb file.inode f.inode)) [
      | inl before ↦
          let a : Above lo (file ∷ f ∷ fs) = (le, (ground arith, h.1)) in
          rw before (get_inode-other lo k file (f ∷ fs) a (ground arith))
      | inr behind ↦
          let le' : suc f.inode ≤ file.inode = ground arith in
          let a : Above lo (f ∷ insert_behind file fs) =
            (h.0, insert_behind-Above (suc f.inode) file fs le' h.1 e') in
          rw behind (elim (Bool-cases (f.inode == k)) [
            | inl here ↦
                get_inode-here k f (insert_behind file fs) here ∙ sym (get_inode-here k f fs here)
            | inr there ↦
                get_inode-other lo k f (insert_behind file fs) a there
                ∙ get_inode-insert_other (suc f.inode) k file fs le' h.1 e' ne
                ∙ sym (get_inode-other lo k f fs h there)
          ])
    ]

-- the list without the first file with an inode
abbrev pub without : ℕ → List DevFile → List DevFile
without i [] = []
without i (f ∷ fs) = if f.inode == i then fs else f ∷ without i fs

pub without-Above : (lo i : ℕ) (fs : List DevFile) → Above lo fs → Above lo (without i fs)
without-Above lo i [] h = tt
without-Above lo i (f ∷ fs) (l, h) = elim (Bool-cases (f.inode == i)) [
  | inl here ↦ rw here (Above-le lo (suc f.inode) fs h (omega arith))
  | inr there ↦ rw there (l, without-Above (suc f.inode) i fs h)
]

pub get_inode-without_self :
    (lo i : ℕ) (fs : List DevFile) → Above lo fs → get_inode i (without i fs) ≡ none
unfolding get_inode
get_inode-without_self lo i [] h = refl
get_inode-without_self lo i (f ∷ fs) h = elim (Bool-cases (f.inode == i)) [
  | inl here ↦ rw here (get_inode-below (suc f.inode) i fs h.1 (ground arith))
  | inr there ↦ rw there (
      get_inode-other lo i f (without i fs) (h.0, without-Above (suc f.inode) i fs h.1) there
      ∙ get_inode-without_self (suc f.inode) i fs h.1)
]

pub get_inode-without_other :
    (lo i k : ℕ) (fs : List DevFile)
    → Above lo fs
    → k ≢ i
    → get_inode k (without i fs) ≡ get_inode k fs
get_inode-without_other lo i k [] h ne = refl
get_inode-without_other lo i k (f ∷ fs) h ne = elim (Bool-cases (f.inode == i)) [
  | inl here ↦ rw here (sym (get_inode-other lo k f fs h (ground arith)))
  | inr there ↦ rw there (elim (Bool-cases (f.inode == k)) [
    | inl found ↦ get_inode-here k f (without i fs) found ∙ sym (get_inode-here k f fs found)
    | inr away ↦
        get_inode-other lo k f (without i fs) (h.0, without-Above (suc f.inode) i fs h.1) away
        ∙ get_inode-without_other (suc f.inode) i k fs h.1 ne
        ∙ sym (get_inode-other lo k f fs h away)
  ])
]

remove_behind-without :
    (lo i : ℕ) (fs : List DevFile) (f : DevFile)
    → Above lo fs
    → get_inode i fs ≡ some f
    → remove_behind i fs ≡ some (without i fs)
unfolding remove_behind
remove_behind-without lo i [] f h e = absurd (nothing_there i f e)
remove_behind-without lo i (a ∷ fs) f h e = elim (Bool-cases (a.inode == i)) [
  | inl here ↦ rw here refl
  | inr there ↦
      let e' = sym (get_inode-other lo i a fs h there) ∙ e in
      elim (Bool-cases (ltb i a.inode)) [
        | inl before ↦
            let gone = get_inode-below (suc a.inode) i fs h.1 (ground arith) in
            let c : none ≡ some f = sym gone ∙ e' in ground arith
        | inr behind ↦
            rw (there, behind) (ap (and_file a) (remove_behind-without (suc a.inode) i fs f h.1 e'))
      ]
]

-- Of a file that is there, and is not the root, `file_remove` leaves the others.
pub file_remove-without :
    (i : ℕ) (fs : List DevFile) (f : DevFile)
    → IsTable fs
    → i ≢ 0
    → get_inode i fs ≡ some f
    → file_remove i fs ≡ some (without i fs)
unfolding file_remove
file_remove-without i [] f table ne e = elim table [ ]
file_remove-without i (a ∷ fs) f (root, h) ne e =
    let away : a.inode == i ≡ false = ground arith in
    let behind : ltb i a.inode ≡ false = ground arith in
    let above = IsTable-Above (a ∷ fs) (root, h) in
    rw (away, behind)
      (ap (and_file a)
        (remove_behind-without 1 i fs f h (sym (get_inode-other 0 i a fs above away) ∙ e)))

pub without-IsTable : (i : ℕ) (fs : List DevFile) → IsTable fs → i ≢ 0 → IsTable (without i fs)
without-IsTable i [] table ne = table
without-IsTable i (a ∷ fs) (root, h) ne =
    let away : a.inode == i ≡ false = ground arith in rw away (root, without-Above 1 i fs h)

pub file_insert-behind :
    (file : DevFile) (fs : List DevFile)
    → IsTable fs
    → get_inode file.inode fs ≡ none
    → (file_insert file fs ≡ some (insert_behind file fs)) × IsTable (insert_behind file fs)
unfolding file_insert insert_behind
file_insert-behind file [] table e = elim table [ ]
file_insert-behind file (a ∷ fs) (root, h) e =
    let away = none-away file.inode a fs e in
    let above = IsTable-Above (a ∷ fs) (root, h) in
    let behind : ltb file.inode a.inode ≡ false = ground arith in
    let e' = sym (get_inode-other 0 file.inode a fs above away) ∙ e in
    rw behind (refl, (root, insert_behind-Above 1 file fs (ground arith) h e'))
