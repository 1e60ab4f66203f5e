-- ===== src/Vfs/Canonical/Tokens.antt =====
-- The walks over a tokenized buffer are walks over the segments of the path between delimiters.
use dionysus.Prelude.{
  ℕ, zero, suc, ◌+◌, ◌<◌, ◌≡◌, refl, true, List, [], ◌∷◌, ◌++◌, arith, ◌==◌, if◌then◌else◌, length,
  drop, inl, inr, Bool-cases, ap, ◌∙◌,
}
use dionysus.Prelude.Str.{Str, str_eq, str_eq→eq}
use mathlib.Core.Path.{fun_ext}
use mathlib.Core.List.{append_assoc, append-nil}
use dionysus.Vfs.Canonical.{
  delimiter, this_dir, parent_dir, tokenize, tokenize_depth, string_at, skip_string, Prev, last,
  Walk, done, collect, walk, remove_prev,
}

abbrev pub cons_first : ℕ → List Str → List Str
cons_first c [] = (c ∷ []) ∷ []
cons_first c (s ∷ segs) = (c ∷ s) ∷ segs

-- the segments of a path
unfoldable pub split : Str → List Str
split [] = [] ∷ []
split (c ∷ path) = if c == delimiter then [] ∷ split path else cons_first c (split path)

-- the segments laid out as `vfs_tokenize` leaves them, each with its NUL
abbrev pub buffer : List Str → List ℕ
buffer [] = []
buffer (s ∷ segs) = s ++ 0 ∷ buffer segs

-- no byte of the string is NUL
abbrev pub IsText : Str → Type 0
IsText [] = Unit {0}
IsText (c ∷ s) = (0 < c) × IsText s

abbrev pub AreText : List Str → Type 0
AreText [] = Unit {0}
AreText (s ∷ segs) = IsText s × AreText segs

pub record Lays (path : Str) (segs : List Str) : Type 0 where
  pub bytes : tokenize path ≡ buffer segs
  pub depth : tokenize_depth path ≡ length segs
  pub text : AreText segs
  pub some_segment : 0 < length segs

pub tokenize-Lays : (path : Str) → IsText path → Lays path (split path)
unfolding tokenize tokenize_depth split
tokenize-Lays [] t = record {
  bytes = refl;
  depth = refl;
  text = (tt, tt);
  some_segment = omega arith;
}
tokenize-Lays (c ∷ path) t = go (split path) (tokenize-Lays path t.1)
  where
    go :
        (segs : List Str)
        → Lays path segs
        → Lays (c ∷ path) (if c == delimiter then [] ∷ segs else cons_first c segs)
    go [] l = absurd (omega (arith, l.some_segment))
    go (s ∷ segs) l = elim (Bool-cases (c == delimiter)) [
      | inl e ↦ rw e (record {
        bytes = rw (e, l.bytes);
        depth = rw e (omega (arith, l.depth));
        text = (tt, l.text);
        some_segment = omega arith;
      })
      | inr e ↦ rw e (record {
        bytes = rw (e, l.bytes);
        depth = rw e (omega (arith, l.depth));
        text = ((t.0, l.text.0), l.text.1);
        some_segment = omega arith;
      })
    ]

pub string_at-append : (s : Str) (rest : List ℕ) → IsText s → string_at (s ++ 0 ∷ rest) ≡ s
unfolding string_at
string_at-append [] rest t = refl
string_at-append (zero ∷ s) rest t = absurd (omega arith)
string_at-append (suc c ∷ s) rest t = rw (string_at-append s rest t.1)

pub drop-append : (s : Str) (rest : List ℕ) → drop (length s + 1) (s ++ 0 ∷ rest) ≡ rest
drop-append [] rest = refl
drop-append (c ∷ s) rest =
    let e : length (c ∷ s) + 1 ≡ suc (length s + 1) = omega arith in rw e (drop-append s rest)

pub skip_string-append : (s : Str) (rest : List ℕ) → IsText s → skip_string (s ++ 0 ∷ rest) ≡ rest
unfolding skip_string
skip_string-append s rest t = rw (string_at-append s rest t) (drop-append s rest)

-- the segments that are not empty
unfoldable pub named : List Str → List Str
named [] = []
named ([] ∷ segs) = named segs
named ((c ∷ s) ∷ segs) = (c ∷ s) ∷ named segs

pub collect-buffer :
    (segs fifo : List Str)
    → AreText segs
    → collect (length segs) (buffer segs) fifo ≡ done (fifo ++ named segs)
unfolding collect named
collect-buffer [] fifo t = rw append-nil
collect-buffer ([] ∷ segs) fifo t = collect-buffer segs fifo t.1
collect-buffer ((zero ∷ s) ∷ segs) fifo t = absurd (omega arith)
collect-buffer ((suc c ∷ s) ∷ segs) fifo t =
    rw
      (
        string_at-append (suc c ∷ s) (buffer segs) t.0,
        skip_string-append (suc c ∷ s) (buffer segs) t.0,
        collect-buffer segs (fifo ++ (suc c ∷ s) ∷ []) t.1,
      )
      (ap done (append_assoc fifo ((suc c ∷ s) ∷ []) (named segs)))

-- One component of the path, on the list and `prev`: the body of the second loop.
abbrev pub component : Str → List Str → Prev → (List Str → Prev → Walk) → Walk
component s fifo prev next =
    if str_eq s this_dir
    then next fifo prev
    else if str_eq s parent_dir
    then remove_prev fifo prev next
    else next (fifo ++ s ∷ []) last

-- the second loop over components
unfoldable pub walk_named : List Str → List Str → Prev → Walk
walk_named [] fifo prev = done fifo
walk_named (s ∷ segs) fifo prev = let next = walk_named segs in component s fifo prev next

module _ (c : ℕ) (s : Str) (segs : List Str) (t : IsText (suc c ∷ s)) where
  this_dir-rest :
      str_eq (suc c ∷ s) this_dir ≡ true → drop 2 (suc c ∷ (s ++ 0 ∷ buffer segs)) ≡ buffer segs
  this_dir-rest e =
      ap (λ (z : Str). drop 2 (z ++ 0 ∷ buffer segs)) (str_eq→eq (suc c ∷ s) this_dir e)

  parent_dir-rest :
      str_eq (suc c ∷ s) parent_dir ≡ true → drop 3 (suc c ∷ (s ++ 0 ∷ buffer segs)) ≡ buffer segs
  parent_dir-rest e =
      ap (λ (z : Str). drop 3 (z ++ 0 ∷ buffer segs)) (str_eq→eq (suc c ∷ s) parent_dir e)

  walk-step :
      (fifo : List Str) (prev : Prev)
      → walk (suc (length segs)) (suc c ∷ (s ++ 0 ∷ buffer segs)) fifo prev
        ≡ component (suc c ∷ s) fifo prev (walk (length segs) (buffer segs))
  unfolding walk
  walk-step fifo prev =
      rw
        (
          string_at-append (suc c ∷ s) (buffer segs) t,
          skip_string-append (suc c ∷ s) (buffer segs) t,
        )
        (elim (Bool-cases (str_eq (suc c ∷ s) this_dir)) [
          | inl this ↦ rw (this, this_dir-rest this)
          | inr other ↦ rw other (elim (Bool-cases (str_eq (suc c ∷ s) parent_dir)) [
            | inl up ↦ rw (up, parent_dir-rest up)
            | inr down ↦ rw down
          ])
        ])

pub walk-buffer :
    (segs fifo : List Str) (prev : Prev)
    → AreText segs
    → walk (length segs) (buffer segs) fifo prev ≡ walk_named (named segs) fifo prev
unfolding named walk_named walk
walk-buffer [] fifo prev t = refl
walk-buffer ([] ∷ segs) fifo prev t = walk-buffer segs fifo prev t.1
walk-buffer ((zero ∷ s) ∷ segs) fifo prev t = absurd (omega arith)
walk-buffer ((suc c ∷ s) ∷ segs) fifo prev t =
    walk-step c s segs t.0 fifo prev
    ∙ ap (component (suc c ∷ s) fifo prev) (fun_ext λ f. fun_ext λ p. walk-buffer segs f p t.1)

-- The components of a path.
abbrev pub components : Str → List Str
components path = named (split path)

-- The two loops over a tokenized path never read past its buffer, and see its components.
pub collect-components :
    (path : Str)
    → IsText path
    → collect (tokenize_depth path) (tokenize path) [] ≡ done (components path)
collect-components path t =
    let l = tokenize-Lays path t in rw (l.bytes, l.depth) (collect-buffer (split path) [] l.text)

pub walk-components :
    (path : Str) (fifo : List Str) (prev : Prev)
    → IsText path
    → walk (tokenize_depth path) (tokenize path) fifo prev ≡ walk_named (components path) fifo prev
walk-components path fifo prev t =
    let l = tokenize-Lays path t in
    rw (l.bytes, l.depth) (walk-buffer (split path) fifo prev l.text)
