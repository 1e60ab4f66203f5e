-- ===== src/Block/Request.antt =====
-- kernel/block.c: a request on the queue of a device and its transfers (bios), from
-- add_bio_to_request_blkdev to free_request. A list of the kernel is the list of its payloads in order.
pub mod Sectors
pub mod Queue
pub mod Waiting
mod Examples
use dionysus.Prelude.{
  ℕ, zero, suc, ◌+◌, ◌-◌, ◌*◌, ◌%◌, ◌^◌, Bool, true, false, not, Option, none, some, List, [], ◌∷◌,
  ◌++◌, ltb, leb, ◌==◌, ◌||◌, if◌then◌else◌,
}
use dionysus.Prelude.Int.{ℤ, pos, negsuc, ltb_ℤ}
use dionysus.Errno.{err, enomem, eintr}

-- the BLOCK_REQ_ constants
pub data Status : Type 0 where
  unsched : Status
  pending : Status
  running : Status
  finished : Status
  intr : Status

-- bio_t
pub record Bio : Type 0 where
  pub page : ℕ
  pub offset : ℕ
  pub nsectors : ℕ

-- request_t; `sector_size` is that of its device, and `wakes` counts the calls of `wake_queue`
pub record Request : Type 0 where
  pub flags : ℕ
  pub first_sector : ℕ
  pub nsectors : ℕ
  pub status : Status
  pub rc : ℕ
  pub sector_size : ℕ
  pub bios : List Bio
  pub wakes : ℕ

abbrev pub is_unsched : Status → Bool
is_unsched unsched = true
is_unsched _ = false

-- A result of code with an ASSERT: `none` where one fails.
pub add_bio_to_request_blkdev : (alloc : Bool) → Request → Bio → Option (ℤ × Request)
add_bio_to_request_blkdev alloc req bio =
    if not (is_unsched req.status)
    then none
    else if not alloc
    then some (err enomem, req)
    else some (
      pos 0,
      record req { bios = req.bios ++ bio ∷ []; nsectors = (req.nsectors + bio.nsectors) % 2 ^ 32 },
    )

-- the loop of `end_request` over the transfers, which ends at one that is not all done
pub trim : (sector_size n : ℕ) → List Bio → Option (List Bio)
trim ss n [] = if n == 0 then some [] else none
trim ss n (b ∷ bs) =
    let rest = trim ss (n - b.nsectors) bs in
    if leb b.nsectors n
    then rest
    else some (record b { offset = (b.offset + n * ss) % 2 ^ 32; nsectors = b.nsectors - n } ∷ bs)

-- the end of `end_request`, from the test of the status
settle : Request → ℤ × Request
settle req = elim req.status [
  | intr ↦ (pos 0, record req { wakes = suc req.wakes })
  | _ ↦
      if req.nsectors == 0
      then (pos 0, record req { status = finished; wakes = suc req.wakes })
      else (pos 1, req)
]

trimmed : Request → (n : ℕ) → Option (List Bio) → Option (ℤ × Request)
unfolding settle
trimmed req n none = none
trimmed req n (some bs) = some (
    settle record req {
      nsectors = (req.nsectors + 2 ^ 32 - n) % 2 ^ 32;
      first_sector = (req.first_sector + n) % 2 ^ 32;
      bios = bs;
    })

pub end_request : Request → (error : ℤ) (nsectors : ℕ) → Option (ℤ × Request)
unfolding trimmed trim
end_request req error nsectors =
    let n = if ltb_ℤ error (pos 0) then req.nsectors else nsectors in
    trimmed req n (trim req.sector_size n req.bios)

-- an interrupted request is taken off the queue and woken
woken : Request → Option (List Request × List Request) → Option (List Request × List Request)
woken r none = none
woken r (some (queue, off)) = some (queue, record r { wakes = suc r.wakes } ∷ off)

-- One pass of the loop of `next_ready_request_blkdev`, by the status of the head: an interrupted
-- request is taken off the queue and woken, a pending one is run, and any other leaves the loop to
-- look at it again. `rest` and `again` are what the loop goes on to do.
serve :
    Status
    → Request
    → (queue : List Request) (rest again : Option (List Request × List Request))
    → Option (List Request × List Request)
unfolding woken
serve intr r queue rest again = woken r rest
serve pending r queue rest again = some (record r { status = running } ∷ queue, [])
serve _ r queue rest again = again

-- The loop on the queue; `none` when it is still running. The results are the queue, whose head is
-- the request to serve, and the interrupted requests taken off it, in order.
pub next_ready_request_blkdev : ℕ → List Request → Option (List Request × List Request)
unfolding serve
next_ready_request_blkdev zero queue = none
next_ready_request_blkdev (suc fuel) [] = some ([], [])
next_ready_request_blkdev (suc fuel) (r ∷ queue) =
    let rest = next_ready_request_blkdev fuel queue in
    let again = next_ready_request_blkdev fuel (r ∷ queue) in serve r.status r queue rest again

-- `list_insert` may fail to allocate its node; the handler of the driver is a parameter, which gets
-- the request and the queue with it at the end. The results are the code, the request and the queue.
pub post_request_blkdev :
    (handler : Request → List Request → ℤ × Request × List Request) (alloc : Bool)
    → (queue : List Request) → Request
    → Option (ℤ × Request × List Request)
post_request_blkdev handler alloc queue req =
    let posted = record req { status = pending } in
    if not (is_unsched req.status)
    then none
    else if not alloc
    then some (err enomem, posted, queue)
    else some (handler posted (queue ++ posted ∷ []))

-- what one `sleep_thread` of the waiting task sees: the request when it runs on, and the result
pub record Sleep : Type 0 where
  pub req : Request
  pub interrupted : Bool

abbrev pub is_finished : Status → Bool
is_finished finished = true
is_finished _ = false

-- a uint32_t returned as an int32_t
abbrev pub to_int32 : ℕ → ℤ
to_int32 n = if ltb n (2 ^ 31) then pos n else negsuc (2 ^ 32 - n - 1)

-- The loop of `wait_request_blkdev` on the sleeps that happen; `none` when it still waits after them.
pub wait_request_blkdev : List Sleep → Request → Option (ℤ × Request)
wait_request_blkdev [] req = if is_finished req.status then some (to_int32 req.rc, req) else none
wait_request_blkdev (s ∷ sleeps) req =
    let rest = wait_request_blkdev sleeps s.req in
    if is_finished req.status
    then some (to_int32 req.rc, req)
    else if s.interrupted
    then some (err eintr, record s.req { status = intr })
    else rest

-- the ASSERT of `free_request`
pub can_free : Status → Bool
can_free unsched = true
can_free finished = true
can_free intr = true
can_free _ = false
