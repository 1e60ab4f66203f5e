-- ===== src/Devfs/Inodes.antt =====
-- The inode that is chosen for a new file.
use dionysus.Prelude.{
  ℕ, suc, ◌+◌, ◌%◌, ◌^◌, ◌≤◌, ◌<◌, ◌≡◌, ◌≢◌, sym, ◌∙◌, Bool, true, false, none, some, List, [], ◌∷◌,
  ltb, ◌==◌, length, arith, Bool-cases, inl, inr,
}
use dionysus.Devfs.{DevFile, get_inode, empty_from, get_empty_inode}
use dionysus.Devfs.Table.{Above, IsTable, IsTable-Above, get_inode-below, get_inode-other}
use dionysus.Devfs.Changes.{none-away}

-- whether an inode is used
abbrev pub has_inode : List DevFile → ℕ → Bool
has_inode fs k = elim (get_inode k fs) [ none ↦ false | some f ↦ true ]

-- the least inode from `lo` on that no file has
pub record IsLeastFree (lo : ℕ) (fs : List DevFile) (k : ℕ) : Type 0 where
  pub low : lo ≤ k
  pub bound : k ≤ lo + length fs
  pub unused : get_inode k fs ≡ none
  pub used : (j : ℕ) → lo ≤ j → j < k → get_inode j fs ≢ none

empty_from-IsLeastFree :
    (lo : ℕ) (fs : List DevFile)
    → Above lo fs
    → lo + length fs < 2 ^ 32
    → IsLeastFree lo fs (empty_from lo fs)
unfolding empty_from
empty_from-IsLeastFree lo [] h small = record {
  low = omega arith;
  bound = omega arith;
  unused = get_inode-below (suc lo) lo [] tt (omega arith);
  used = λ j l k. absurd (omega arith);
}
empty_from-IsLeastFree lo (f ∷ fs) h small = elim (Bool-cases (ltb lo f.inode)) [
  | inl gap ↦ rw gap record {
    low = omega arith;
    bound = omega arith;
    unused = get_inode-below (suc lo) lo (f ∷ fs) (ground arith, h.1) (omega arith);
    used = λ j l k. absurd (omega arith);
  }
  | inr no_gap ↦
      let here : f.inode ≡ lo = ground arith in
      let next : (f.inode + 1) % 2 ^ 32 ≡ suc f.inode = omega arith in
      let r = empty_from-IsLeastFree (suc f.inode) fs h.1 (omega arith) in
      rw (no_gap, next)
        record {
          low = omega (arith, r.low);
          bound = omega (arith, r.bound);
          unused = get_inode-other lo _ f fs h (ground (arith, r.low)) ∙ r.unused;
          used = λ j l k. elim (Bool-cases (f.inode == j)) [
            | inl same ↦ λ e. (let a = none-away j f fs e in ground arith)
            | inr away ↦ λ e. r.used j (ground arith) k (sym (get_inode-other lo j f fs h away) ∙ e)
          ];
        }
]

-- `get_empty_inode` chooses the least inode that no file has, with less than 2^32 files.
pub get_empty_inode-IsLeastFree :
    (fs : List DevFile) → IsTable fs → length fs < 2 ^ 32 → IsLeastFree 0 fs (get_empty_inode fs)
unfolding get_empty_inode
get_empty_inode-IsLeastFree fs table small =
    empty_from-IsLeastFree 0 fs (IsTable-Above fs table) (omega arith)
