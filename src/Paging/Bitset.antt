-- ===== src/Paging/Bitset.antt =====
-- The bitset as a set of frames in use.
use dionysus.Prelude.{
  ℕ, zero, suc, ◌+◌, ◌-◌, ◌*◌, ◌/◌, ◌%◌, ◌≤◌, ◌<◌, ◌^◌, ◌≡◌, refl, inl, inr, Bool, true, false, not,
  ◌||◌, ◌&&◌, Option, none, some, ◌==◌, if◌then◌else◌, get_or, length, get_or-set, arith,
  Bool-cases, sym, ◌∙◌,
}
use dionysus.Prelude.Bits.{test_bit, set_bit, clear_bit, test_bit-set_bit, test_bit-clear_bit}
use dionysus.Prelude.Search.{AllUsed, FirstFree, free_at, all_used, FirstFree-after}
use dionysus.Prelude.Table.{holds_below, of-holds_below}
use dionysus.Paging.{
  Frames, page_size, no_frame, set_frame, clear_frame, first_bit, or_else, first_word, first_frame,
}

-- the frame is in use
abbrev pub in_use : Frames → ℕ → Bool
in_use fs k = test_bit (k % 32) (get_or fs.words (k / 32) 0)

-- the bitset has a word for every 32 frames
abbrev pub Covers : Frames → ℕ → Type 0
Covers fs frame = frame / 32 < length fs.words

same_word : (k f : ℕ) → k / 32 ≡ f / 32 → (k % 32 == f % 32) ≡ (k == f)
same_word k f e = ground arith

other_word : (k f : ℕ) → f / 32 == k / 32 ≡ false → (k == f) ≡ false
other_word k f e = ground arith

-- Setting the frame of an address marks that frame and no other.
pub set_frame-in_use :
    (addr k : ℕ) (fs : Frames)
    → Covers fs (addr / page_size)
    → in_use (set_frame addr fs) k ≡ ((k == addr / page_size) || in_use fs k)
unfolding set_frame
set_frame-in_use addr k fs c =
    let f = addr / page_size in
    let w = get_or fs.words (f / 32) 0 in
    rw (get_or-set fs.words (f / 32) (k / 32) (set_bit (f % 32) w) 0 c)
      (elim (Bool-cases (f / 32 == k / 32)) [
        | inl same ↦
            let e : k / 32 ≡ f / 32 = ground arith in
            rw (same, test_bit-set_bit (f % 32) (k % 32) w, e, same_word k f e)
        | inr other ↦ rw (other, other_word k f other)
      ])

-- Clearing the frame of an address frees that frame and no other.
pub clear_frame-in_use :
    (addr k : ℕ) (fs : Frames)
    → Covers fs (addr / page_size)
    → in_use (clear_frame addr fs) k ≡ (not (k == addr / page_size) && in_use fs k)
unfolding clear_frame
clear_frame-in_use addr k fs c =
    let f = addr / page_size in
    let w = get_or fs.words (f / 32) 0 in
    rw (get_or-set fs.words (f / 32) (k / 32) (clear_bit (f % 32) w) 0 c)
      (elim (Bool-cases (f / 32 == k / 32)) [
        | inl same ↦
            let e : k / 32 ≡ f / 32 = ground arith in
            rw (same, test_bit-clear_bit (f % 32) (k % 32) w, e, same_word k f e)
        | inr other ↦ rw (other, other_word k f other)
      ])

first_bit-FirstFree :
    (left j hi w : ℕ) → j + left ≡ hi → FirstFree (λ k. test_bit k w) j hi (first_bit left j w)
unfolding first_bit
first_bit-FirstFree zero j hi w e = all_used (λ k low high. absurd (omega arith))
first_bit-FirstFree (suc left) j hi w e = elim (Bool-cases (test_bit j w)) [
  | inl used ↦ rw used (
      FirstFree-after (λ k low high. let e : k ≡ j = omega arith in rw (e, used)) (omega arith)
        (first_bit-FirstFree left (suc j) hi w (omega arith)))
  | inr free ↦
      rw free (free_at free (omega arith) (omega arith) (λ k low high. absurd (omega arith)))
]

-- the result of `first_frame` as an option
abbrev pub found : ℕ → Option ℕ
found r = if r == no_frame then none else some r

-- a frame by its word and its bit
in_use-word :
    (fs : Frames) (i k w : ℕ)
    → w ≡ get_or fs.words i 0
    → i * 32 ≤ k
    → k < i * 32 + 32
    → in_use fs k ≡ test_bit (k - i * 32) w
in_use-word fs i k w e low high =
    let q : k / 32 ≡ i = omega arith in let r : k % 32 ≡ k - i * 32 = omega arith in rw (q, r, e)

full_word : (k : ℕ) → k < 32 → test_bit k no_frame ≡ true
unfolding holds_below test_bit
full_word k h = of-holds_below 32 (λ j. test_bit j no_frame) k refl h

found-some : (n : ℕ) → n < no_frame → found n ≡ some n
found-some n h = ground arith

module _ (fs : Frames) (i hi w : ℕ) (is : w ≡ get_or fs.words i 0) (bound : hi ≤ no_frame)
    (room : i * 32 + 32 ≤ hi) where
  -- the word is searched, and then the rest
  or_else-FirstFree :
      (r : Option ℕ) (rest : ℕ)
      → FirstFree (λ k. test_bit k w) 0 32 r
      → FirstFree (in_use fs) (i * 32 + 32) hi (found rest)
      → FirstFree (in_use fs) (i * 32) hi (found (or_else r i rest))
  unfolding or_else
  or_else-FirstFree none rest (all_used all) others =
      FirstFree-after
        (λ k low high.
          in_use-word fs i k w is low high ∙ all (k - i * 32) (omega arith) (omega arith))
        (omega arith) others
  or_else-FirstFree (some b) rest (free_at free low high least) others =
      let back : i * 32 + b - i * 32 ≡ b = omega arith in
      rw (found-some (i * 32 + b) (omega arith)) (
        free_at (in_use-word fs i (i * 32 + b) w is (omega arith) (omega arith) ∙ rw back free)
          (omega arith) (omega arith)
          (λ k l h.
            in_use-word fs i k w is l (omega arith)
            ∙ least (k - i * 32) (omega arith) (omega arith)))

full_frames :
    (fs : Frames) (i : ℕ)
    → get_or fs.words i 0 ≡ no_frame
    → AllUsed (in_use fs) (i * 32) (suc i * 32)
full_frames fs i e k low high =
    in_use-word fs i k no_frame (sym e) low (omega arith) ∙ full_word (k - i * 32) (omega arith)

first_word-FirstFree :
    (left i hi : ℕ) (fs : Frames)
    → (i + left) * 32 ≡ hi
    → hi ≤ no_frame
    → FirstFree (in_use fs) (i * 32) hi (found (first_word left i fs.words))
unfolding first_word or_else
first_word-FirstFree zero i hi fs e bound = all_used (λ k low high. absurd (omega arith))
first_word-FirstFree (suc left) i hi fs e bound =
    let w = get_or fs.words i 0 in
    let next : suc i * 32 ≡ i * 32 + 32 = omega arith in
    let others = first_word-FirstFree left (suc i) hi fs (omega arith) bound in
    elim (Bool-cases (w == no_frame)) [
      | inl full ↦ rw full (FirstFree-after (full_frames fs i (ground arith)) (omega arith) others)
      | inr part ↦ rw part (
          or_else-FirstFree fs i hi w refl bound (omega arith) _ _
            (first_bit-FirstFree 32 0 32 w refl) (rw (← next) others))
    ]

-- With at most 2^20 frames, `first_frame` returns the least frame that is not in use, among those that
-- the bitset's whole words hold, or 0xFFFFFFFF if all of them are in use.
pub first_frame-FirstFree :
    (fs : Frames)
    → fs.nframes ≤ 2 ^ 20
    → FirstFree (in_use fs) 0 (fs.nframes / 32 * 32) (found (first_frame fs))
unfolding first_frame
first_frame-FirstFree fs h =
    first_word-FirstFree (fs.nframes / 32) 0 (fs.nframes / 32 * 32) fs (omega arith) (omega arith)
