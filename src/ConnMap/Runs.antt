-- ===== src/ConnMap/Runs.antt =====
-- Runs of Set and Delete: the map of the code and a plain function.
use nps_mux.Base.{ℕ, ◌≡◌, refl, ap, ◌∙◌, Option, none, List, [], ◌∷◌, ◌==◌, if◌then◌else◌}
use nps_mux.ConnMap.{ConnMap, get_conn, set_conn, delete_conn}
use nps_mux.ConnMap.Laws.{
  Distinct, updated, set_conn-Distinct, delete_conn-Distinct, get_conn-set_conn,
  get_conn-delete_conn,
}

pub data MapOp {ℓ} (A : Type ℓ) : Type ℓ where
  sets : ℕ → Option A → MapOp A
  deletes : ℕ → MapOp A

module _ {ℓ} {A : Type ℓ} where
  abbrev pub run_map : List (MapOp A) → ConnMap A → ConnMap A
  run_map [] m = m
  run_map (sets id v ∷ ops) m = run_map ops (set_conn m id v)
  run_map (deletes id ∷ ops) m = run_map ops (delete_conn m id)

  -- The same on functions from ids.
  abbrev pub run_function : List (MapOp A) → (ℕ → Option A) → ℕ → Option A
  run_function [] f = f
  run_function (sets id v ∷ ops) f = run_function ops (updated f id v)
  run_function (deletes id ∷ ops) f = run_function ops (updated f id none)

  run_ext :
      (ops : List (MapOp A)) (f g : ℕ → Option A)
      → ((i : ℕ) → f i ≡ g i)
      → (i : ℕ) → run_function ops f i ≡ run_function ops g i
  run_ext [] f g h i = h i
  run_ext (sets id v ∷ ops) f g h i =
      run_ext ops (updated f id v) (updated g id v) (λ j. ap (λ t. if id == j then v else t) (h j))
        i
  run_ext (deletes id ∷ ops) f g h i =
      run_ext ops (updated f id none) (updated g id none)
        (λ j. ap (λ t. if id == j then none else t) (h j)) i

  -- After any run of Set and Delete the map answers each Get as a plain function that is updated at
  -- the same ids, and holds no key twice.
  pub run_map-run_function :
      (ops : List (MapOp A)) (m : ConnMap A)
      → Distinct m
      → Distinct (run_map ops m)
        × ((i : ℕ) → get_conn (run_map ops m) i ≡ run_function ops (get_conn m) i)
  run_map-run_function [] m h = (h, λ i. refl)
  run_map-run_function (sets id v ∷ ops) m h =
      let (d, same) = run_map-run_function ops (set_conn m id v) (set_conn-Distinct m id v h) in
      (
        d,
        λ i.
            same i
            ∙ run_ext ops (get_conn (set_conn m id v)) (updated (get_conn m) id v)
                (get_conn-set_conn m id v) i,
      )
  run_map-run_function (deletes id ∷ ops) m h =
      let (d, same) = run_map-run_function ops (delete_conn m id) (delete_conn-Distinct m id h) in
      (
        d,
        λ i.
            same i
            ∙ run_ext ops (get_conn (delete_conn m id)) (updated (get_conn m) id none)
                (get_conn-delete_conn m id) i,
      )
