-- ===== src/Rate/Tests.antt =====
-- A rate of ten bytes per tick.
use nps_mux.Base.{◌+◌, ◌*◌, ◌≤◌, refl, arith, List, [], ◌∷◌}
use nps_mux.Rate.{new_rate}
use nps_mux.Rate.Bucket.{Event, ticks, gets, run_rate, run_rate-bounds}

abbrev events : List Event
events = ticks ∷ gets 7 ∷ gets 7 ∷ ticks ∷ gets 7 ∷ []

run_rate-bounds_example :
    ((run_rate events (new_rate 10)).1 + (run_rate events (new_rate 10)).0.bucket_surplus_size
      ≤ 0 + 2 * 10)
    × ((run_rate events (new_rate 10)).0.bucket_surplus_size ≤ 20)
run_rate-bounds_example = run_rate-bounds events (new_rate 10) refl (omega arith)
