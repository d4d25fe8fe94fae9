-- ===== src/ConnQueue/Pop.antt =====
-- `Pop` of the queue of connections, as `readSession` sees it.
use nps_mux.Base.{
  ◌≡◌, refl, subst, All, arith, true, none, some, List, [], ◌∷◌, Bool-cases, inl, inr, ◌⊎◌,
}
use nps_mux.Chain.Refine.{IsQueue, pop-IsQueue_empty, pop-IsQueue_cons}
use nps_mux.ConnQueue.{ConnQueue, conn_try_pop, conn_pop, conn_pop_locked}

module _ {ℓ} {A : Type ℓ} where
  -- What the other goroutines may do: they leave a chain that holds a queue.
  abbrev pub Keeps : (ConnQueue A → ConnQueue A) → Type ℓ
  Keeps other =
      (q : ConnQueue A) (xs : List A)
      → IsQueue q.chain xs
      → (ys : List A) × IsQueue (other q).chain ys

  abbrev pub Closed : ConnQueue A → Type ℓ
  Closed q = (q.stop ≡ true) × IsQueue q.chain []

  -- One attempt.
  attempt :
      (q : ConnQueue A) (xs : List A)
      → IsQueue q.chain xs
      → ((q' : ConnQueue A) × (c : A) × (conn_try_pop q ≡ some (q', some c)))
        ⊎ ((q' : ConnQueue A) × (conn_try_pop q ≡ some (q', none)) × IsQueue q'.chain [])
  unfolding conn_try_pop
  attempt q [] h =
      let (c, e, h') = pop-IsQueue_empty q.chain h in inr (record q { chain = c }, rw e refl, h')
  attempt q (x ∷ xs) h =
      let (c, e, h') = pop-IsQueue_cons q.chain x xs h in inl (record q { chain = c }, x, rw e refl)

  locked_nil :
      (others : List (ConnQueue A → ConnQueue A)) (q q' : ConnQueue A) (xs : List A)
      → All Keeps others
      → IsQueue q.chain xs
      → conn_pop_locked others q ≡ some (q', none)
      → Closed q'
  unfolding conn_pop_locked
  locked_nil [] q q' xs k s e = elim (attempt q xs s) [
    | inl (q₁, p, e') ↦ ground (arith, e')
    | inr (q₁, e', s₁) ↦ elim (Bool-cases q₁.stop) [
      | inl stopped ↦ let same : q₁ ≡ q' = ground (arith, e') in subst Closed same (stopped, s₁)
      | inr open_still ↦ ground (arith, e')
    ]
  ]
  locked_nil (other ∷ others) q q' xs k s e = elim (attempt q xs s) [
    | inl (q₁, p, e') ↦ ground (arith, e')
    | inr (q₁, e', s₁) ↦ elim (Bool-cases q₁.stop) [
      | inl stopped ↦ let same : q₁ ≡ q' = ground (arith, e') in subst Closed same (stopped, s₁)
      | inr open_still ↦
          let (ys, s₂) = k.0 q₁ [] s₁ in
          let later : conn_pop_locked others (other q₁) ≡ some (q', none) = ground (arith, e') in
          locked_nil others (other q₁) q' ys k.1 s₂ later
    ]
  ]

  -- Pop of the queue of connections returns nil only if that queue is stopped and empty, whatever
  -- the other goroutines do at its yields and waits, as long as they leave a chain that holds a
  -- queue.
  pub conn_pop-nil :
      (other : ConnQueue A → ConnQueue A) (others : List (ConnQueue A → ConnQueue A))
      (q q' : ConnQueue A) (xs : List A)
      → Keeps other
      → All Keeps others
      → IsQueue q.chain xs
      → conn_pop other others q ≡ some (q', none)
      → Closed q'
  unfolding conn_pop
  conn_pop-nil other others q q' xs k ks s e = elim (attempt q xs s) [
    | inl (q₁, p, e') ↦ ground (arith, e')
    | inr (q₁, e', s₁) ↦ elim (Bool-cases q₁.stop) [
      | inl stopped ↦ let same : q₁ ≡ q' = ground (arith, e') in subst Closed same (stopped, s₁)
      | inr open_still ↦
          let (ys, s₂) = k q₁ [] s₁ in
          elim (attempt (other q₁) ys s₂) [
            | inl (q₃, p, e'') ↦ ground (arith, e', e'')
            | inr (q₃, e'', s₃) ↦ elim (Bool-cases q₃.stop) [
              | inl stopped ↦
                  let same : q₃ ≡ q' = ground (arith, e', e'') in subst Closed same (stopped, s₃)
              | inr open_then ↦
                  let later : conn_pop_locked others q₃ ≡ some (q', none) =
                    ground (arith, e', e'') in
                  locked_nil others q₃ q' [] ks s₃ later
            ]
          ]
    ]
  ]

  -- Pop of the queue of connections, where one waits, returns the first at once, stopped or not,
  -- and leaves the others.
  pub conn_pop-cons :
      (other : ConnQueue A → ConnQueue A) (others : List (ConnQueue A → ConnQueue A))
      (q : ConnQueue A) (x : A) (xs : List A)
      → IsQueue q.chain (x ∷ xs)
      → (q' : ConnQueue A) × (conn_pop other others q ≡ some (q', some x)) × IsQueue q'.chain xs
  unfolding conn_pop conn_try_pop
  conn_pop-cons other others q x xs h =
      let (c, e, h') = pop-IsQueue_cons q.chain x xs h in (record q { chain = c }, rw e refl, h')
