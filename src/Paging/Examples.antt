-- ===== src/Paging/Examples.antt =====
-- The theorems about kernel/paging.c at a bitset of 64 frames, and tests.
use dionysus.Prelude.{◌/◌, ◌≡◌, refl, true, false, not, ◌||◌, ◌&&◌, [], ◌∷◌, ◌==◌, arith}
use dionysus.Prelude.Bits.{test_bit}
use dionysus.Paging.{Frames, Page, page_size, set_frame, clear_frame, first_frame, alloc_frame}
use dionysus.Paging.Bitset.{in_use, set_frame-in_use, clear_frame-in_use}
use dionysus.Paging.Alloc.{IsValid, Allocates, alloc_frame-Allocates}

-- the frames 0 to 31 and 33 are in use
abbrev some_frames : Frames
some_frames = record { words = 4294967295 ∷ 2 ∷ []; nframes = 64 }

some_frames-IsValid : IsValid some_frames
some_frames-IsValid = record { few = omega arith; words = omega arith }

first_frame_runs : first_frame some_frames ≡ 32
unfolding first_frame test_bit
first_frame_runs = refl

set_frame-in_use_example :
    in_use (set_frame 139264 some_frames) 34 ≡ ((34 == 139264 / page_size) || in_use some_frames 34)
set_frame-in_use_example = set_frame-in_use 139264 34 some_frames (omega arith)

clear_frame-in_use_example :
    in_use (clear_frame 4096 some_frames) 1 ≡ (not (1 == 4096 / page_size) && in_use some_frames 1)
clear_frame-in_use_example = clear_frame-in_use 4096 1 some_frames (omega arith)

abbrev no_page : Page
no_page = record { present = false; rw = false; user = false; global = false; frame = 0 }

alloc_frame-Allocates_example :
    Allocates false true no_page some_frames (alloc_frame false true no_page some_frames)
alloc_frame-Allocates_example =
    alloc_frame-Allocates false true no_page some_frames some_frames-IsValid refl

abbrev page_33 : Page
page_33 = record { present = true; rw = true; user = true; global = false; frame = 33 }
