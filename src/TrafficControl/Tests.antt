-- ===== src/TrafficControl/Tests.antt =====
-- Three elements, and a session in which the third command fails.
use nps_mux.Base.{ℕ, ◌≡◌, arith, Bool, true, some, List, [], ◌∷◌, ◌++◌, length, ltb}
use nps_mux.TrafficControl.{TrafficControl, Event, Runner, array_exhaustivity, run_net_range_test}
use nps_mux.TrafficControl.Subsets.{array_exhaustivity-choices}
use nps_mux.TrafficControl.Session.{plan, run_net_range_test-plan}

array_exhaustivity-choices_example :
    array_exhaustivity {A = ℕ} 0 (1 ∷ 2 ∷ 3 ∷ [])
    ≡ some (
        (1 ∷ [])
        ∷ (2 ∷ [])
        ∷ (1 ∷ 2 ∷ [])
        ∷ (3 ∷ [])
        ∷ (1 ∷ 3 ∷ [])
        ∷ (2 ∷ 3 ∷ [])
        ∷ (1 ∷ 2 ∷ 3 ∷ [])
        ∷ [])
array_exhaustivity-choices_example = array_exhaustivity-choices 0 (1 ∷ 2 ∷ 3 ∷ []) (omega arith)

abbrev third_fails : Runner
third_fails out args = ltb (length out) 3

abbrev card : TrafficControl
card = record { eth_name = "eth0"; params = [] }

run_net_range_test-plan_example :
    (tc' : TrafficControl) × (done : List Event) × (fine : Bool) × (run_net_range_test 0 third_fails
        card
      ≡ some (tc', done, fine))
    × (rest : List Event) × (done ++ rest ≡ plan "eth0")
    × (fine ≡ true → rest ≡ [])
run_net_range_test-plan_example = run_net_range_test-plan 0 third_fails card
