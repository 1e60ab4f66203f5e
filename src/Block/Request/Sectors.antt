-- ===== src/Block/Request/Sectors.antt =====
-- `end_request` and `add_bio_to_request_blkdev` by the sectors that a request has left to transfer.
use dionysus.Prelude.{
  ℕ, zero, suc, ◌+◌, ◌-◌, ◌*◌, ◌||◌, ◌%◌, ◌^◌, ◌≤◌, ◌<◌, ◌≡◌, ◌∙◌, refl, Bool, true, false, Option,
  none, some, List, [], ◌∷◌, ◌++◌, leb, ◌==◌, if◌then◌else◌, drop, length, length-append, ap, arith,
  Bool-cases, inl, inr,
}
use dionysus.Prelude.Int.{ℤ, pos, ltb_ℤ}
use dionysus.Block.Request.{
  Status, Bio, Request, trim, trimmed, settle, finished, intr, end_request,
}

-- the addresses of the sectors of a run of `n`, from `start`
abbrev pub run : (start ss n : ℕ) → List ℕ
run start ss zero = []
run start ss (suc n) = (start % 2 ^ 32) ∷ run (start + ss) ss n

-- the addresses in memory of the sectors that the transfers have left, in order
abbrev pub sectors : ℕ → List Bio → List ℕ
sectors ss [] = []
sectors ss (b ∷ bs) = run (b.page + b.offset) ss b.nsectors ++ sectors ss bs

run_congr : (a b ss n : ℕ) → a % 2 ^ 32 ≡ b % 2 ^ 32 → run a ss n ≡ run b ss n
run_congr a b ss zero e = refl
run_congr a b ss (suc n) e = rw (e, run_congr (a + ss) (b + ss) ss n (omega arith))

mod_shift : (p o x : ℕ) → (p + (o + x) % 2 ^ 32) % 2 ^ 32 ≡ (p + o + x) % 2 ^ 32
mod_shift p o x = omega arith

drop-run : (start ss k n : ℕ) → drop k (run start ss n) ≡ run (start + k * ss) ss (n - k)
drop-run start ss zero n =
    let e : n - 0 ≡ n = omega arith in rw e (run_congr start (start + 0 * ss) ss n (ground arith))
drop-run start ss (suc k) zero = let e : 0 - suc k ≡ 0 = omega arith in rw e
drop-run start ss (suc k) (suc n) =
    let e : suc n - suc k ≡ n - k = omega arith in
    rw (e, drop-run (start + ss) ss k n) (ap (λ a. run a ss (n - k)) (ground arith))

drop-append_le :
    {A : Type 0} (k : ℕ) (xs ys : List A)
    → length xs ≤ k
    → drop k (xs ++ ys) ≡ drop (k - length xs) ys
drop-append_le k [] ys h = let e : k - 0 ≡ k = omega arith in rw e
drop-append_le zero (x ∷ xs) ys h = absurd (omega arith)
drop-append_le (suc k) (x ∷ xs) ys h =
    let e : suc k - suc (length xs) ≡ k - length xs = omega arith in
    rw e (drop-append_le k xs ys (omega arith))

drop-append_lt :
    {A : Type 0} (k : ℕ) (xs ys : List A) → k ≤ length xs → drop k (xs ++ ys) ≡ drop k xs ++ ys
drop-append_lt zero xs ys h = refl
drop-append_lt (suc k) [] ys h = absurd (omega arith)
drop-append_lt (suc k) (x ∷ xs) ys h = drop-append_lt k xs ys (omega arith)

drop-nil : {A : Type 0} (n : ℕ) → [] ≡ drop {A = A} n []
drop-nil zero = refl
drop-nil (suc n) = refl

length-run : (start ss n : ℕ) → length (run start ss n) ≡ n
length-run start ss zero = refl
length-run start ss (suc n) = omega (arith, length-run (start + ss) ss n)

abbrev pub total : List Bio → ℕ
total [] = 0
total (b ∷ bs) = b.nsectors + total bs

length-sectors : (ss : ℕ) (bs : List Bio) → length (sectors ss bs) ≡ total bs
length-sectors ss [] = refl
length-sectors ss (b ∷ bs) = rw (
  length-append (run (b.page + b.offset) ss b.nsectors) (sectors ss bs),
  length-run (b.page + b.offset) ss b.nsectors,
  length-sectors ss bs,
)

-- the loop drops the sectors that are done
record Trimmed (ss n : ℕ) (bs : List Bio) (r : Option (List Bio)) : Type 0 where
  rest : List Bio
  returns : r ≡ some rest
  left : sectors ss rest ≡ drop n (sectors ss bs)
  count : total rest ≡ total bs - n

trim-Trimmed : (ss n : ℕ) (bs : List Bio) → n ≤ total bs → Trimmed ss n bs (trim ss n bs)
unfolding trim
trim-Trimmed ss n [] h = record {
  rest = [];
  returns = ground arith;
  left = drop-nil n;
  count = omega arith;
}
trim-Trimmed ss n (b ∷ bs) h = elim (Bool-cases (leb b.nsectors n)) [
  | inl all ↦
      let t = trim-Trimmed ss (n - b.nsectors) bs (ground arith) in
      let here = run (b.page + b.offset) ss b.nsectors in
      let len : length here ≡ b.nsectors = length-run (b.page + b.offset) ss b.nsectors in
      record {
        rest = t.rest;
        returns = rw all t.returns;
        left = rw (drop-append_le n here (sectors ss bs) (ground (arith, len)), len) t.left;
        count = ground (arith, t.count);
      }
  | inr part ↦
      let here = run (b.page + b.offset) ss b.nsectors in
      let len : length here ≡ b.nsectors = length-run (b.page + b.offset) ss b.nsectors in
      record {
        rest = record b { offset = (b.offset + n * ss) % 2 ^ 32; nsectors = b.nsectors - n } ∷ bs;
        returns = rw part;
        left =
            rw
              (
                drop-append_lt n here (sectors ss bs) (ground (arith, len)),
                drop-run (b.page + b.offset) ss n b.nsectors,
              )
              (ap (λ a. a ++ sectors ss bs)
                (run_congr (b.page + (b.offset + n * ss) % 2 ^ 32) (b.page + b.offset + n * ss) ss
                  (b.nsectors - n) (mod_shift b.page b.offset (n * ss))));
        count = ground arith;
      }
]

trim-overrun : (ss n : ℕ) (bs : List Bio) → total bs < n → trim ss n bs ≡ none
unfolding trim
trim-overrun ss n [] h = ground arith
trim-overrun ss n (b ∷ bs) h = ground (arith, trim-overrun ss (n - b.nsectors) bs)

-- the count of a request is that of its transfers
pub record IsValid (req : Request) : Type 0 where
  pub counts : req.nsectors ≡ total req.bios
  pub fits : req.nsectors < 2 ^ 32

abbrev pub is_intr : Status → Bool
is_intr intr = true
is_intr _ = false

-- What ending `n` sectors of a request leaves and returns.
pub record Ends (req : Request) (n : ℕ) (r : Option (ℤ × Request)) : Type 0 where
  pub after : Request
  pub returns :
      r ≡ some ((if is_intr req.status || (req.nsectors == n) then pos 0 else pos 1), after)
  pub valid : IsValid after
  pub left : sectors req.sector_size after.bios ≡ drop n (sectors req.sector_size req.bios)
  pub first : after.first_sector ≡ (req.first_sector + n) % 2 ^ 32
  pub status :
      after.status
      ≡ (if is_intr req.status then intr else if req.nsectors == n then finished else req.status)
  pub wakes :
      after.wakes ≡ (if is_intr req.status || (req.nsectors == n) then suc req.wakes else req.wakes)

-- what `settle` returns, whatever the status
abbrev settled : Request → Request
settled req = record req {
  status = if is_intr req.status then intr else if req.nsectors == 0 then finished else req.status;
  wakes = if is_intr req.status || (req.nsectors == 0) then suc req.wakes else req.wakes;
}

settle-settled :
    (req : Request)
    → settle req
      ≡ ((if is_intr req.status || (req.nsectors == 0) then pos 0 else pos 1), settled req)
unfolding settle
settle-settled req = ground arith

trimmed-Ends :
    (req : Request) (k : ℕ) (r : Option (List Bio))
    → IsValid req
    → k ≤ req.nsectors
    → Trimmed req.sector_size k req.bios r
    → Ends req k (trimmed req k r)
unfolding trimmed
trimmed-Ends req k r v enough t =
    let less : (req.nsectors + 2 ^ 32 - k) % 2 ^ 32 ≡ req.nsectors - k = omega (arith, v.fits) in
    let all : (req.nsectors - k) == 0 ≡ (req.nsectors == k) = ground arith in
    let left = record req {
      nsectors = req.nsectors - k;
      first_sector = (req.first_sector + k) % 2 ^ 32;
      bios = t.rest;
    } in
    record {
      after = settled left;
      returns =
          rw (t.returns, trimmed)
            (ap (λ m. some (settle record left { nsectors = m })) less
              ∙ rw (settle-settled left, all));
      valid = record { counts = ground (arith, t.count, v.counts); fits = ground (arith, v.fits) };
      left = t.left;
      first = refl;
      status = rw all;
      wakes = rw all;
    }

-- the number of sectors that `end_request` takes for done
abbrev pub done : Request → ℤ → ℕ → ℕ
done req error n = if ltb_ℤ error (pos 0) then req.nsectors else n

-- On a valid request with at least the given sectors left, or with a negative error for all of them,
-- `end_request` returns: the addresses left to transfer are the old ones without the first that are
-- done, the first sector moves on by as many, the request is valid, and it is finished and its
-- waiters are woken if nothing is left. An interrupted request stays so and its waiters are woken.
-- The code is 1 if there is more to do for a request that is not interrupted, and else 0.
pub end_request-Ends :
    (req : Request) (error : ℤ) (n : ℕ)
    → IsValid req
    → done req error n ≤ req.nsectors
    → Ends req (done req error n) (end_request req error n)
unfolding end_request
end_request-Ends req error n v enough =
    let k = done req error n in
    trimmed-Ends req k _ v enough
      (trim-Trimmed req.sector_size k req.bios (omega (arith, v.counts)))

-- Ending more sectors than a valid request has left, without an error, fails the ASSERT.
pub end_request-overrun :
    (req : Request) (error : ℤ) (n : ℕ)
    → IsValid req
    → ltb_ℤ error (pos 0) ≡ false
    → req.nsectors < n
    → end_request req error n ≡ none
unfolding end_request trimmed
end_request-overrun req error n v good over =
    rw (good, trim-overrun req.sector_size n req.bios (omega (arith, v.counts)))
