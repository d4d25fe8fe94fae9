-- ===== src/Pools/Runs.antt =====
-- Runs of Get and Put by those that use a pool, who write into what they hold.
use nps_mux.Base.{
  ℕ, zero, suc, ◌≡◌, refl, arith, Option, none, some, ◌>>=◌, List, [], ◌∷◌, get_elem?, All, subst,
  Option-cases, inl, inr,
}
use nps_mux.Pools.{remove}

-- A pool: its Get, at the position that sync.Pool picks, and its Put.
pub record Pool (A : Type 0) : Type 0 where
  pub fetch : List A → ℕ → Option (List A × A)
  pub give : A → List A → Option (List A)

-- Get; Put of what is held at a position, after it was used; and sync.Pool lets an item go.
pub data Call (A : Type 0) : Type 0 where
  gets : ℕ → Call A
  puts : ℕ → (A → A) → Call A
  drops : ℕ → Call A

module _ {A : Type 0} where
  -- One call on the items of the pool and on those that are held.
  abbrev pub call_pool : Pool A → Call A → List A × List A → Option (List A × List A)
  call_pool pool (gets i) (items, held) = do (left, x) ← pool.fetch items i; some (left, x ∷ held)
  call_pool pool (puts k edit) (items, held) = elim (get_elem? held k) [
    | none ↦ some (items, held)
    | some x ↦ (do items' ← pool.give (edit x) items; some (items', remove held k))
  ]
  call_pool pool (drops i) (items, held) = some (remove items i, held)

  abbrev pub run_pool : Pool A → List (Call A) → List A × List A → Option (List A × List A)
  run_pool pool [] st = some st
  run_pool pool (c ∷ cs) st = do st' ← call_pool pool c st; run_pool pool cs st'

  -- What is handed out and what is kept is `P`, if what is put back is `Q`.
  pub record Law (pool : Pool A) (P Q : A → Type 0) : Type 0 where
    pub fetch_lem :
        (items : List A) (i : ℕ)
        → All P items
        → (left : List A) × (x : A) × (pool.fetch items i ≡ some (left, x)) × All P left × P x
    pub give_lem :
        (x : A) (items : List A)
        → Q x
        → All P items
        → (items' : List A) × (pool.give x items ≡ some items') × All P items'

  -- A use keeps in what is held what Put needs.
  abbrev pub Uses : (P Q : A → Type 0) → Call A → Type 0
  Uses P Q (gets i) = Unit
  Uses P Q (puts k edit) = (x : A) → P x → Q (edit x)
  Uses P Q (drops i) = Unit

  pub remove-All : (P : A → Type 0) (xs : List A) (i : ℕ) → All P xs → All P (remove xs i)
  remove-All P [] i h = tt
  remove-All P (x ∷ xs) zero h = h.1
  remove-All P (x ∷ xs) (suc i) h = (h.0, remove-All P xs i h.1)

  pub get_elem?-All :
      (P : A → Type 0) (xs : List A) (i : ℕ) (x : A) → All P xs → get_elem? xs i ≡ some x → P x
  get_elem?-All P [] i x h e = absurd (ground (arith, e))
  get_elem?-All P (y ∷ xs) zero x h e = let same : y ≡ x = ground (arith, e) in subst P same h.0
  get_elem?-All P (y ∷ xs) (suc i) x h e = get_elem?-All P xs i x h.1 e

module _ {A : Type 0} (pool : Pool A) (P Q : A → Type 0) (law : Law pool P Q) where
  abbrev pub Kept : Option (List A × List A) → Type 0
  Kept r = (items : List A) × (held : List A) × (r ≡ some (items, held)) × All P items × All P held

  call_pool-Kept :
      (c : Call A) (items held : List A)
      → Uses P Q c
      → All P items
      → All P held
      → Kept (call_pool pool c (items, held))
  call_pool-Kept (gets i) items held used hi hh =
      let (left, x, eq, hl, hx) = law.fetch_lem items i hi in
      (left, x ∷ held, ground (arith, eq), hl, (hx, hh))
  call_pool-Kept (puts k edit) items held used hi hh = elim (Option-cases (get_elem? held k)) [
    | inl nobody ↦ (items, held, ground (arith, nobody), hi, hh)
    | inr (x, has) ↦
        let (items', eq, hi') =
          law.give_lem (edit x) items (used x (get_elem?-All P held k x hh has)) hi in
        (items', remove held k, ground (arith, has, eq), hi', remove-All P held k hh)
  ]
  call_pool-Kept (drops i) items held used hi hh =
      (remove items i, held, refl, remove-All P items i hi, hh)

  pub run_pool-Kept :
      (cs : List (Call A)) (items held : List A)
      → All (Uses P Q) cs
      → All P items
      → All P held
      → Kept (run_pool pool cs (items, held))
  run_pool-Kept [] items held used hi hh = (items, held, refl, hi, hh)
  run_pool-Kept (c ∷ cs) items held (used, rest) hi hh =
      let (items₁, held₁, eq, hi₁, hh₁) = call_pool-Kept c items held used hi hh in
      let (items₂, held₂, eq', hi₂, hh₂) = run_pool-Kept cs items₁ held₁ rest hi₁ hh₁ in
      (items₂, held₂, ground (arith, eq, eq'), hi₂, hh₂)
