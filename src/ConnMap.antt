-- ===== src/ConnMap.antt =====
-- map.go, connMap: the connections of a mux by their id, and getId of mux.go, which looks for an id that is
-- not in use. A `*conn` is any type `A`, and nil is none. Go's map is a list of entries with distinct keys.
pub mod Laws
pub mod FreshId
pub mod Runs
mod Tests
use nps_mux.Base.{
  ℕ, zero, suc, ◌+◌, ◌-◌, ◌^◌, Bool, true, false, Option, none, some, ◌>>=◌, List, [], ◌∷◌, length,
  ltb, ◌==◌, if◌then◌else◌,
}

abbrev pub ConnMap {ℓ} : Type ℓ → Type ℓ
ConnMap A = List (ℕ × Option A)

module _ {ℓ} {A : Type ℓ} where
  -- `NewConnMap`
  abbrev pub new_conn_map : ConnMap A
  new_conn_map = []

  -- `s.cMap[id]`, with `ok` as the outer Option
  abbrev pub lookup : ConnMap A → ℕ → Option (Option A)
  lookup [] id = none
  lookup ((key, v) ∷ m) id = if key == id then some v else lookup m id

  -- `Get`
  unfoldable pub get_conn : ConnMap A → ℕ → Option A
  get_conn m id = elim (lookup m id) [ some v ↦ v | none ↦ none ]

  -- `Set`
  unfoldable pub set_conn : ConnMap A → ℕ → Option A → ConnMap A
  set_conn [] id v = (id, v) ∷ []
  set_conn ((key, x) ∷ m) id v =
      let rest = set_conn m id v in if key == id then (key, v) ∷ m else (key, x) ∷ rest

  -- `Delete`
  unfoldable pub delete_conn : ConnMap A → ℕ → ConnMap A
  delete_conn [] id = []
  delete_conn ((key, x) ∷ m) id =
      let rest = delete_conn m id in if key == id then rest else (key, x) ∷ rest

  -- `Size`
  abbrev pub size : ConnMap A → ℕ
  size m = length m

-- `math.MaxInt32`
abbrev pub max_int32 : ℕ
max_int32 = 2 ^ 31 - 1

-- One call of `getId` up to the lookup: back to 0 near the end of int32, then one more.
unfoldable pub next_id : ℕ → ℕ
next_id id = (if ltb (max_int32 - id) 10000 then 0 else id) + 1

-- `getId` with its calls of itself; the mux's `id` is the result.
get_id_loop {ℓ} : {A : Type ℓ} → ℕ → ConnMap A → ℕ → Option ℕ
get_id_loop zero m id = none
get_id_loop (suc fuel) m id = elim (get_conn m (next_id id)) [
  | none ↦ some (next_id id)
  | some c ↦ get_id_loop fuel m (next_id id)
]

-- `getId`; one call more than there are connections.
unfoldable pub get_id {ℓ} : {A : Type ℓ} → ConnMap A → ℕ → Option ℕ
unfolding get_id_loop
get_id m id = get_id_loop (suc (size m)) m id
