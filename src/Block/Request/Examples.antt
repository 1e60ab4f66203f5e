-- ===== src/Block/Request/Examples.antt =====
-- The theorems about requests at concrete ones, and tests.
use dionysus.Prelude.{◌≡◌, refl, Bool, none, some, List, [], ◌∷◌, arith, map}
use dionysus.Prelude.Int.{ℤ, pos}
use dionysus.Block.Request.{
  Status, Request, pending, running, intr, end_request, Sleep, next_ready_request_blkdev,
}
use dionysus.Block.Request.Sectors.{IsValid, Ends, end_request-Ends}
use dionysus.Block.Request.Queue.{
  wake, next_ready_request_blkdev-pending, next_ready_request_blkdev-spins,
}

abbrev three_sectors : Status → Request
three_sectors status = record {
  flags = 0;
  first_sector = 8;
  nsectors = 3;
  status = status;
  rc = 0;
  sector_size = 512;
  bios =
      record { page = 4096; offset = 0; nsectors = 2 }
      ∷ record { page = 8192; offset = 512; nsectors = 1 }
      ∷ [];
  wakes = 0;
}

three_sectors-IsValid : IsValid (three_sectors running)
three_sectors-IsValid = record { counts = refl; fits = omega arith }

end_request-Ends_example :
    Ends (three_sectors running) 1 (end_request (three_sectors running) (pos 0) 1)
end_request-Ends_example =
    end_request-Ends (three_sectors running) (pos 0) 1 three_sectors-IsValid (omega arith)

next_ready_request_blkdev-pending_example :
    next_ready_request_blkdev 2 (three_sectors intr ∷ three_sectors pending ∷ [])
    ≡ some (three_sectors running ∷ [], map wake (three_sectors intr ∷ []))
next_ready_request_blkdev-pending_example =
    next_ready_request_blkdev-pending 2 (three_sectors intr ∷ []) [] (three_sectors pending) refl
      refl (omega arith)

next_ready_request_blkdev-spins_example :
    next_ready_request_blkdev 100 (three_sectors intr ∷ three_sectors running ∷ []) ≡ none
next_ready_request_blkdev-spins_example =
    next_ready_request_blkdev-spins 100 (three_sectors intr ∷ []) [] (three_sectors running) refl
      refl

abbrev sleep : Status → Bool → Sleep
sleep status interrupted = record { req = three_sectors status; interrupted = interrupted }

abbrev no_handler : Request → List Request → ℤ × Request × List Request
no_handler r queue = (pos 0, r, queue)
