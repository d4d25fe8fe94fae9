-- ===== src/ConnMap/Laws.antt =====
-- The connection map as a finite map.
use nps_mux.Base.{
  ℕ, ◌≤◌, ◌<◌, ◌≡◌, refl, arith, Option, none, some, [], ◌∷◌, ◌==◌, if◌then◌else◌, Option-cases,
  inl, inr,
}
use nps_mux.ConnMap.{ConnMap, lookup, get_conn, set_conn, delete_conn, size}

-- The entry of `id` is replaced by `v`, and the others are those of `f`.
abbrev pub updated {ℓ} : {B : Type ℓ} → (ℕ → B) → ℕ → B → ℕ → B
updated f id v i = if id == i then v else f i

module _ {ℓ} {A : Type ℓ} where
  -- No key twice.
  abbrev pub Distinct : ConnMap A → Type ℓ
  Distinct [] = Unit {ℓ}
  Distinct ((key, v) ∷ m) = (lookup m key ≡ none) × Distinct m

  pub lookup-set_conn :
      (m : ConnMap A) (id : ℕ) (v : Option A) (i : ℕ)
      → lookup (set_conn m id v) i ≡ updated (lookup m) id (some v) i
  unfolding set_conn
  lookup-set_conn [] id v i = refl
  lookup-set_conn ((key, x) ∷ m) id v i = ground (arith, lookup-set_conn m id v i)

  pub lookup-delete_conn :
      (m : ConnMap A) (id i : ℕ) → lookup (delete_conn m id) i ≡ updated (lookup m) id none i
  unfolding delete_conn
  lookup-delete_conn [] id i = ground arith
  lookup-delete_conn ((key, x) ∷ m) id i = ground (arith, lookup-delete_conn m id i)

  pub set_conn-Distinct :
      (m : ConnMap A) (id : ℕ) (v : Option A) → Distinct m → Distinct (set_conn m id v)
  unfolding set_conn
  set_conn-Distinct [] id v h = (refl, tt)
  set_conn-Distinct ((key, x) ∷ m) id v (h, hs) =
      ground (arith, h, hs, set_conn-Distinct m id v hs, lookup-set_conn m id v key)

  pub delete_conn-Distinct : (m : ConnMap A) (id : ℕ) → Distinct m → Distinct (delete_conn m id)
  unfolding delete_conn
  delete_conn-Distinct [] id h = tt
  delete_conn-Distinct ((key, x) ∷ m) id (h, hs) =
      ground (arith, h, hs, delete_conn-Distinct m id hs, lookup-delete_conn m id key)

  delete_conn-le : (m : ConnMap A) (id : ℕ) → size (delete_conn m id) ≤ size m
  unfolding delete_conn
  delete_conn-le [] id = omega arith
  delete_conn-le ((key, x) ∷ m) id = ground (arith, delete_conn-le m id)

  -- What is there is one entry less after a deletion.
  pub delete_conn-lt :
      (m : ConnMap A) (id : ℕ) (c : A) → get_conn m id ≡ some c → size (delete_conn m id) < size m
  unfolding delete_conn get_conn
  delete_conn-lt [] id c e = ground (arith, e)
  delete_conn-lt ((key, x) ∷ m) id c e =
      ground (arith, e, delete_conn-le m id, delete_conn-lt m id c)

  pub get_conn-delete_conn :
      (m : ConnMap A) (id i : ℕ) → get_conn (delete_conn m id) i ≡ updated (get_conn m) id none i
  unfolding get_conn
  get_conn-delete_conn m id i = ground (arith, lookup-delete_conn m id i)

  pub get_conn-set_conn :
      (m : ConnMap A) (id : ℕ) (v : Option A) (i : ℕ)
      → get_conn (set_conn m id v) i ≡ updated (get_conn m) id v i
  unfolding get_conn
  get_conn-set_conn m id v i = ground (arith, lookup-set_conn m id v i)

  pub lookup_of :
      (m : ConnMap A) (id : ℕ) (c : A) → get_conn m id ≡ some c → lookup m id ≡ some (some c)
  unfolding get_conn
  lookup_of m id c e = elim (Option-cases (lookup m id)) [
    | inl missing ↦ absurd (ground (arith, e, missing))
    | inr (v, there) ↦ ground (arith, e, there)
  ]
