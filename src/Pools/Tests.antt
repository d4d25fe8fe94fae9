-- ===== src/Pools/Tests.antt =====
-- A buffer is taken, written and cut, put back and taken again.
use nps_mux.Base.{◌≡◌, some, List, [], ◌∷◌, All}
use nps_mux.Stream.{Slice, put_at, length-put_at}
use nps_mux.Packager.{MuxPackager}
use nps_mux.ReceiveQueue.{ListElement}
use nps_mux.Pools.{new_packager, blank_element}
use nps_mux.Pools.Runs.{Call, gets, puts, drops, Uses, run_pool}
use nps_mux.Pools.Clean.{window_pool, packager_pool, element_pool, Whole, Full, run_pool-clean}

abbrev writes : Slice → Slice
writes s = record { arr = put_at s.arr 0 (7 ∷ 8 ∷ []); len = 2 }

abbrev buffer_calls : List (Call Slice)
buffer_calls = gets 0 ∷ puts 0 writes ∷ gets 0 ∷ gets 0 ∷ []

buffers_written : All (Uses Full Whole) buffer_calls
buffers_written = (tt, ((λ s h. put_keeps s h.0), (tt, (tt, tt))))
  where
    put_keeps : (s : Slice) → Whole s → Whole (writes s)
    put_keeps s h = rw (length-put_at s.arr 0 (7 ∷ 8 ∷ [])) h

abbrev packager_calls : List (Call MuxPackager)
packager_calls = gets 0 ∷ puts 0 (λ p. record p { flag = 3; id = 9 }) ∷ gets 0 ∷ []

abbrev element_calls : List (Call ListElement)
element_calls = gets 0 ∷ puts 0 (λ e. record e { l = 5 }) ∷ drops 0 ∷ gets 0 ∷ []

run_pool-clean_example :
    ((items : List Slice) × (held : List Slice) × (run_pool window_pool buffer_calls ([], [])
        ≡ some (items, held))
      × All Full held)
    × ((items : List MuxPackager) × (held : List MuxPackager) × (run_pool packager_pool
            packager_calls
            ([], [])
          ≡ some (items, held))
        × All (λ p. p ≡ new_packager) held)
    × (items : List ListElement) × (held : List ListElement) × (run_pool element_pool element_calls
          ([], [])
        ≡ some (items, held))
    × All (λ e. e ≡ blank_element) held
run_pool-clean_example = run_pool-clean buffer_calls packager_calls element_calls buffers_written
