-- ===== src/Block/Request/Waiting.antt =====
-- Posting a request and waiting for it.
use dionysus.Prelude.{◌≡◌, refl, Bool, true, false, not, ◌&&◌, some, List, [], ◌∷◌, ◌++◌, arith, ap}
use dionysus.Prelude.Int.{ℤ}
use dionysus.Errno.{err, enomem, eintr}
use dionysus.Block.Request.{
  Request, unsched, pending, intr, post_request_blkdev, can_free, Sleep, is_finished, is_unsched,
  to_int32, wait_request_blkdev,
}

-- the request as a task sees it last: after the sleeps, or as it was
abbrev pub last_seen : List Sleep → Request → Request
last_seen [] req = req
last_seen (s ∷ sleeps) req = last_seen sleeps s.req

-- no sleep is interrupted and the request is not finished before the last
abbrev pub waits : List Sleep → Request → Bool
waits [] req = true
waits (s ∷ sleeps) req = not (is_finished req.status) && not s.interrupted && waits sleeps s.req

-- Once the request is finished, after sleeps that were not interrupted, the wait returns its `rc`
-- and leaves it as it is, whatever sleeps would follow.
pub wait_request_blkdev-finished :
    (sleeps after : List Sleep) (req : Request)
    → waits sleeps req ≡ true
    → is_finished (last_seen sleeps req).status ≡ true
    → wait_request_blkdev (sleeps ++ after) req
      ≡ some (to_int32 (last_seen sleeps req).rc, last_seen sleeps req)
unfolding wait_request_blkdev
wait_request_blkdev-finished [] [] req h f = rw f
wait_request_blkdev-finished [] (s ∷ after) req h f = rw f
wait_request_blkdev-finished (s ∷ sleeps) after req h f =
    ground (arith, wait_request_blkdev-finished sleeps after s.req)

-- An interrupted sleep ends the wait with -EINTR and marks the request interrupted, even if it was
-- finished meanwhile.
pub wait_request_blkdev-interrupted :
    (sleeps after : List Sleep) (s : Sleep) (req : Request)
    → waits sleeps req ≡ true
    → is_finished (last_seen sleeps req).status ≡ false
    → s.interrupted ≡ true
    → wait_request_blkdev (sleeps ++ s ∷ after) req
      ≡ some (err eintr, record s.req { status = intr })
unfolding wait_request_blkdev
wait_request_blkdev-interrupted [] after s req h f i = rw (f, i)
wait_request_blkdev-interrupted (t ∷ sleeps) after s req h f i =
    ground (arith, wait_request_blkdev-interrupted sleeps after s t.req)

-- When the queue's node cannot be allocated, posting returns -ENOMEM with the queue as it was, and
-- leaves the request pending, so that the ASSERT of `free_request` fails for it.
pub post_request_blkdev-no_memory :
    (handler : Request → List Request → ℤ × Request × List Request) (queue : List Request)
    → (req : Request) → req.status ≡ unsched
    → (posted : Request) × (post_request_blkdev handler false queue req
        ≡ some (err enomem, posted, queue))
      × (can_free posted.status ≡ false)
unfolding post_request_blkdev can_free
post_request_blkdev-no_memory handler queue req e =
    let u : is_unsched req.status ≡ true = ap is_unsched e in
    (record req { status = pending }, rw u, refl)
