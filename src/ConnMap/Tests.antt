-- ===== src/ConnMap/Tests.antt =====
-- The last id and the first one are in use.
use nps_mux.Base.{ℕ, ◌≤◌, ◌≡◌, arith, none, some, List, [], ◌∷◌}
use nps_mux.ConnMap.{ConnMap, get_conn, get_id}
use nps_mux.ConnMap.Runs.{MapOp, sets, deletes}
use nps_mux.ConnMap.FreshId.{last_id, get_id-fresh}

abbrev in_use : ConnMap ℕ
in_use = (1, some 7) ∷ (last_id, some 8) ∷ []

get_id-fresh_example :
    (i : ℕ) × (get_id in_use 2147473647 ≡ some i)
    × (get_conn in_use i ≡ none)
    × (1 ≤ i)
    × (i ≤ last_id)
get_id-fresh_example = get_id-fresh in_use 2147473647 (omega arith) (omega arith)

abbrev some_ops : List (MapOp ℕ)
some_ops = sets 5 (some 9) ∷ deletes 1 ∷ []
