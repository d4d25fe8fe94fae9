-- ===== src/ConnMap/FreshId.antt =====
-- `getId` finds an id: its candidates differ for as long as there are ids, and each that is taken is another
-- entry of the map.
use nps_mux.Base.{
  ℕ, zero, suc, ◌+◌, ◌-◌, ◌≤◌, ◌<◌, ◌≡◌, ◌≢◌, arith, none, some, ltb, if◌then◌else◌, Option-cases,
  inl, inr,
}
use nps_mux.ConnMap.{ConnMap, get_conn, delete_conn, size, next_id, get_id_loop, get_id}
use nps_mux.ConnMap.Laws.{delete_conn-lt, get_conn-delete_conn}

-- The largest id that `getId` gives, which is also their number.
abbrev pub last_id : ℕ
last_id = 2147473648

-- The candidate after `k` more.
abbrev candidate : ℕ → ℕ → ℕ
candidate zero id = next_id id
candidate (suc k) id = candidate k (next_id id)

next_id-bounds : (id : ℕ) → id ≤ last_id → (1 ≤ next_id id) × (next_id id ≤ last_id)
unfolding next_id
next_id-bounds id h = ground arith

candidate_lem :
    (k id : ℕ)
    → 1 ≤ id
    → id ≤ last_id
    → k + 1 < last_id
    → candidate k id ≡ (if ltb last_id (id + k + 1) then id + k + 1 - last_id else id + k + 1)
unfolding next_id
candidate_lem zero id pos small h = ground arith
candidate_lem (suc k) id pos small h = ground (
  arith,
  candidate_lem k (next_id id) (next_id-bounds id small).0 (next_id-bounds id small).1
      (omega arith),
)

-- It does not come back to an id before all were tried.
candidate_ne : (k id : ℕ) → 1 ≤ id → id ≤ last_id → k + 1 < last_id → candidate k id ≢ id
candidate_ne k id pos small h e = absurd (ground (arith, e, candidate_lem k id pos small h))

module _ {ℓ} {A : Type ℓ} where
  -- Among one candidate more than there are entries, one is free.
  some_free :
      (n : ℕ) (m : ConnMap A) (id : ℕ)
      → id ≤ last_id
      → size m < n
      → n ≤ last_id
      → (k : ℕ) × (k < n) × (get_conn m (candidate k id) ≡ none)
  some_free zero m id small room few = absurd (omega arith)
  some_free (suc n) m id small room few = elim (Option-cases (get_conn m (next_id id))) [
    | inl free ↦ (zero, omega arith, free)
    | inr (c, taken) ↦
        let (pos, small') = next_id-bounds id small in
        let (k, lt, free) =
          some_free n (delete_conn m (next_id id)) (next_id id) small'
            (omega (arith, delete_conn-lt m (next_id id) c taken)) (omega arith) in
        let other = candidate_ne k (next_id id) pos small' (omega arith) in
        (
          suc k,
          omega (arith, lt),
          ground
              (arith, free, get_conn-delete_conn m (next_id id) (candidate k (next_id id)), other),
        )
  ]

  finds_free :
      (fuel k : ℕ) (m : ConnMap A) (id : ℕ)
      → id ≤ last_id
      → k < fuel
      → get_conn m (candidate k id) ≡ none
      → (i : ℕ) × (get_id_loop fuel m id ≡ some i) × (get_conn m i ≡ none) × (1 ≤ i) × (i ≤ last_id)
  unfolding get_id_loop
  finds_free zero k m id small lt free = absurd (omega arith)
  finds_free (suc fuel) zero m id small lt free =
      let (lo, hi) = next_id-bounds id small in (next_id id, ground (arith, free), free, lo, hi)
  finds_free (suc fuel) (suc k) m id small lt free = elim (Option-cases (get_conn m (next_id id))) [
    | inl found ↦
        let (lo, hi) = next_id-bounds id small in (next_id id, ground (arith, found), found, lo, hi)
    | inr (c, taken) ↦
        let (i, eq, none_there, lo, hi) =
          finds_free fuel k m (next_id id) (next_id-bounds id small).1 (omega arith) free in
        (i, ground (arith, taken, eq), none_there, lo, hi)
  ]

  -- With fewer than 2147473648 connections getId ends after at most one call more than there are
  -- connections, and gives an id from 1 to 2147473648 that no connection has, also where it starts
  -- again from 1.
  pub get_id-fresh :
      (m : ConnMap A) (id : ℕ)
      → id ≤ last_id
      → size m < last_id
      → (i : ℕ) × (get_id m id ≡ some i) × (get_conn m i ≡ none) × (1 ≤ i) × (i ≤ last_id)
  unfolding get_id
  get_id-fresh m id small few =
      let (k, lt, free) = some_free (suc (size m)) m id small (omega arith) (omega arith) in
      finds_free (suc (size m)) k m id small lt free
