-- ===== src/Block/Request/Queue.antt =====
-- `next_ready_request_blkdev`.
use dionysus.Prelude.{
  ℕ, zero, suc, ◌<◌, ◌≡◌, refl, Bool, true, false, Option, none, some, List, [], ◌∷◌, ◌++◌, ◌&&◌,
  ap, ◌∙◌, arith, length, map,
}
use dionysus.Block.Request.{
  Status, Request, unsched, pending, running, finished, intr, woken, serve,
  next_ready_request_blkdev,
}
use dionysus.Block.Request.Sectors.{is_intr}

-- every request is interrupted
abbrev pub all_intr : List Request → Bool
all_intr [] = true
all_intr (r ∷ rs) = is_intr r.status && all_intr rs

abbrev pub wake : Request → Request
wake r = record r { wakes = suc r.wakes }

split :
    (d : Request) (off : List Request)
    → all_intr (d ∷ off) ≡ true
    → (d.status ≡ intr) × (all_intr off ≡ true)
split d off dead = (ground arith, ground arith)

-- Past interrupted requests, which it takes off the queue and wakes, `next_ready_request_blkdev`
-- returns the queue from the first pending request on, now running; fuel for one step each is enough.
pub next_ready_request_blkdev-pending :
    (fuel : ℕ) (off queue : List Request) (r : Request)
    → all_intr off ≡ true
    → r.status ≡ pending
    → length off < fuel
    → next_ready_request_blkdev fuel (off ++ r ∷ queue)
      ≡ some (record r { status = running } ∷ queue, map wake off)
unfolding next_ready_request_blkdev serve
next_ready_request_blkdev-pending zero off queue r dead e enough = absurd (omega arith)
next_ready_request_blkdev-pending (suc fuel) [] queue r dead e enough =
    ap
      (λ s.
        serve s r queue (next_ready_request_blkdev fuel queue)
          (next_ready_request_blkdev fuel (r ∷ queue)))
      e
next_ready_request_blkdev-pending (suc fuel) (d ∷ off) queue r dead e enough =
    let (first, others) = split d off dead in
    ap
      (λ s.
        serve s d (off ++ r ∷ queue) (next_ready_request_blkdev fuel (off ++ r ∷ queue))
          (next_ready_request_blkdev fuel (d ∷ off ++ r ∷ queue)))
      first
    ∙ ap (woken d) (next_ready_request_blkdev-pending fuel off queue r others e (omega arith))

-- With nothing but interrupted requests on the queue, it empties the queue, wakes them, and returns.
pub next_ready_request_blkdev-empty :
    (fuel : ℕ) (off : List Request)
    → all_intr off ≡ true
    → length off < fuel
    → next_ready_request_blkdev fuel off ≡ some ([], map wake off)
unfolding next_ready_request_blkdev serve
next_ready_request_blkdev-empty zero off dead enough = absurd (omega arith)
next_ready_request_blkdev-empty (suc fuel) [] dead enough = refl
next_ready_request_blkdev-empty (suc fuel) (d ∷ off) dead enough =
    let (first, others) = split d off dead in
    ap
      (λ s.
        serve s d off (next_ready_request_blkdev fuel off)
          (next_ready_request_blkdev fuel (d ∷ off)))
      first
    ∙ ap (woken d) (next_ready_request_blkdev-empty fuel off others (omega arith))

-- a status at which the loop looks again
abbrev pub spins : Status → Bool
spins pending = false
spins intr = false
spins _ = true

serve-spins :
    (s : Status) (r : Request) (queue : List Request)
    (rest again : Option (List Request × List Request))
    → spins s ≡ true
    → serve s r queue rest again ≡ again
unfolding serve
serve-spins unsched r queue rest again h = refl
serve-spins running r queue rest again h = refl
serve-spins finished r queue rest again h = refl
serve-spins pending r queue rest again h = ground arith
serve-spins intr r queue rest again h = ground arith

-- Past interrupted requests, at one that is neither pending nor interrupted, the loop runs on with
-- whatever fuel: it does not return.
pub next_ready_request_blkdev-spins :
    (fuel : ℕ) (off queue : List Request) (r : Request)
    → all_intr off ≡ true
    → spins r.status ≡ true
    → next_ready_request_blkdev fuel (off ++ r ∷ queue) ≡ none
unfolding next_ready_request_blkdev serve woken
next_ready_request_blkdev-spins zero off queue r dead e = refl
next_ready_request_blkdev-spins (suc fuel) [] queue r dead e =
    serve-spins r.status r queue _ _ e ∙ next_ready_request_blkdev-spins fuel [] queue r dead e
next_ready_request_blkdev-spins (suc fuel) (d ∷ off) queue r dead e =
    let (first, others) = split d off dead in
    ap
      (λ s.
        serve s d (off ++ r ∷ queue) (next_ready_request_blkdev fuel (off ++ r ∷ queue))
          (next_ready_request_blkdev fuel (d ∷ off ++ r ∷ queue)))
      first
    ∙ ap (woken d) (next_ready_request_blkdev-spins fuel off queue r others e)
