-- ===== src/Chain/Refine.antt =====
-- A chain is an unbounded FIFO.
use nps_mux.Base.{
  ℕ, ◌*◌, ◌^◌, ◌≤◌, ◌<◌, ◌≡◌, refl, sym, ap, subst, ◌∙◌, arith, none, some, List, [], ◌∷◌, ◌++◌,
  length, suc,
}
use mathlib.Core.List.{append_assoc}
use native.Mathlib.Nat.{pow-suc}
use native.Mathlib.Decide.{dec_lt}
use nps_mux.Dequeue.{BufDequeue}
use nps_mux.Dequeue.Refine.{Holds, push_full, push_room, pop_empty, pop_oldest, new-Holds, push_new}
use nps_mux.Chain.{BufChain, push_last, pop_first, chain_push, chain_pop, next_size, new_chain_of}

grows : (k : ℕ) → k ≤ 30 → 2 ^ k * 2 < 2 ^ 30 → suc k ≤ 30
grows k h lt = elim (dec_lt k 30) [
  | yes p ↦ p
  | no p ↦ let e : k ≡ 30 = omega arith in absurd (omega (arith, ap (λ (t : ℕ). 2 ^ t) e))
]

module _ {ℓ} {A : Type ℓ} where
  -- The rings hold one part each of the values.
  pub data Segments : List (BufDequeue A) → List A → Type ℓ where
    last : {d : BufDequeue A} {xs : List A} → Holds d xs → Segments (d ∷ []) xs
    more :
        {d e : BufDequeue A} {ds : List (BufDequeue A)} {xs ys zs : List A}
        → Holds d xs
        → Segments (e ∷ ds) ys
        → zs ≡ xs ++ ys
        → Segments (d ∷ e ∷ ds) zs

  pub record IsQueue (c : BufChain A) (xs : List A) : Type ℓ where
    pub free : c.new_chain ≡ 0
    pub segments : Segments c.elts xs

  -- The next ring has an allowed size.
  next-size :
      (d : BufDequeue A) (xs : List A)
      → Holds d xs
      → (k : ℕ) × (k ≤ 30) × (next_size (length d.vals) ≡ 2 ^ k)
  next-size d xs h = elim (dec_lt (2 ^ h.bits * 2) (2 ^ 30)) [
    | yes p ↦ (suc h.bits, grows h.bits h.small p, ground (arith, h.size, pow-suc 2 h.bits))
    | no p ↦ (30, omega arith, ground (arith, h.size))
  ]

  -- The chain after a push to a single ring that is full: a second ring with the new value.
  push_last_full :
      (d : BufDequeue A) (xs : List A) (v : A) (h : Holds d xs)
      → length xs ≡ 2 ^ h.bits
      → (es : List (BufDequeue A)) × (push_last (d ∷ []) v ≡ some es) × Segments es (xs ++ (v ∷ []))
  unfolding push_last
  push_last_full d xs v h full =
      let (k, small, e) = next-size d xs h in
      let (d2, e2, h2) = push_new k small v in
      (d ∷ d2 ∷ [], ground (arith, push_full d xs h v full, e, e2), more h (last h2) refl)

  push_last_room :
      (d : BufDequeue A) (xs : List A) (v : A) (h : Holds d xs)
      → length xs < 2 ^ h.bits
      → (es : List (BufDequeue A)) × (push_last (d ∷ []) v ≡ some es) × Segments es (xs ++ (v ∷ []))
  unfolding push_last
  push_last_room d xs v h room =
      let (d', e, h') = push_room d xs h v room in (d' ∷ [], ground (arith, e), last h')

  -- What a push leaves: the values and the new one; the first ring stays first.
  abbrev Pushes : List (BufDequeue A) → A → List A → Type ℓ
  Pushes ds v zs =
      (e : BufDequeue A) × (es : List (BufDequeue A)) × (push_last ds v ≡ some (e ∷ es))
      × Segments (e ∷ es) zs

  cons_form :
      (ds : List (BufDequeue A)) (v : A) (zs : List A)
      → (es : List (BufDequeue A)) × (push_last ds v ≡ some es) × Segments es zs
      → Pushes ds v zs
  cons_form ds v zs (es, e, last {d} h) = (d, [], e, last h)
  cons_form ds v zs (es, e, more {d} {e = d'} {ds = r} h s q) = (d, d' ∷ r, e, more h s q)

  push_last-Segments :
      (ds : List (BufDequeue A)) (xs : List A) (v : A)
      → Segments ds xs
      → Pushes ds v (xs ++ (v ∷ []))
  unfolding push_last
  push_last-Segments ds xs v (last {d} h) =
      cons_form ds v (xs ++ (v ∷ [])) (elim (dec_lt (length xs) (2 ^ h.bits)) [
        | yes room ↦ push_last_room d xs v h room
        | no full ↦ push_last_full d xs v h (omega (arith, h.fits))
      ])
  push_last-Segments ds zs v (more {d} {e} {ds = r} {xs} {ys} h s q) =
      let (e', es, eq, s') = push_last-Segments (e ∷ r) ys v s in
      (d, e' ∷ es, rw eq, more h s' (ap (λ t. t ++ (v ∷ [])) q ∙ append_assoc xs ys (v ∷ [])))

  pop_first-empty :
      (ds : List (BufDequeue A)) (xs : List A)
      → Segments ds xs
      → xs ≡ []
      → (es : List (BufDequeue A)) × (pop_first ds ≡ some (es, none)) × Segments es []
  unfolding pop_first
  pop_first-empty ds xs (last {d} h) e =
      (d ∷ [], ground (arith, pop_empty d xs h (ap length e)), last (subst (Holds d) e h))
  pop_first-empty ds zs (more {d} {e} {ds = r} {xs = []} {ys} h s q) z =
      let (es, eq, s') = pop_first-empty (e ∷ r) ys s (sym q ∙ z) in
      (es, ground (arith, pop_empty d [] h refl, eq), s')
  pop_first-empty ds zs (more {xs = a ∷ as'} h s q) z = cc

  pop_first-cons :
      (ds : List (BufDequeue A)) (x : A) (xs zs : List A)
      → Segments ds zs
      → zs ≡ x ∷ xs
      → (es : List (BufDequeue A)) × (pop_first ds ≡ some (es, some x)) × Segments es xs
  unfolding pop_first
  pop_first-cons ds x xs zs (last {d} h) e =
      let (d', eq, h') = pop_oldest d x xs (subst (Holds d) e h) in (d' ∷ [], rw eq, last h')
  pop_first-cons ds x xs zs (more {d} {e} {ds = r} {xs = []} {ys} h s q) z =
      let (es, eq, s') = pop_first-cons (e ∷ r) x xs ys s (sym q ∙ z) in
      (es, ground (arith, pop_empty d [] h refl, eq), s')
  pop_first-cons ds x xs zs (more {d} {e} {ds = r} {xs = a ∷ as'} {ys} h s q) z =
      let (d', eq, h') = pop_oldest d a as' h in
      (d' ∷ e ∷ r, ground (arith, eq), more h' s (ground arith))

  -- A push to a chain that holds a queue never fails, and puts the value at the end of the queue,
  -- whether the last ring has room or a new ring is started.
  pub push-IsQueue :
      (c : BufChain A) (xs : List A) (v : A)
      → IsQueue c xs
      → (c' : BufChain A) × (chain_push c v ≡ some c') × IsQueue c' (xs ++ (v ∷ []))
  unfolding chain_push
  push-IsQueue c xs v q =
      let (e, es, eq, s) = push_last-Segments c.elts xs v q.segments in
      (
        record c { elts = e ∷ es },
        ground (arith, eq, q.free),
        record { free = q.free; segments = s },
      )

  -- A pop from a chain that holds no value reports that and leaves an empty queue.
  pub pop-IsQueue_empty :
      (c : BufChain A)
      → IsQueue c []
      → (c' : BufChain A) × (chain_pop c ≡ some (c', none)) × IsQueue c' []
  unfolding chain_pop
  pop-IsQueue_empty c q =
      let (es, eq, s) = pop_first-empty c.elts [] q.segments refl in
      (record c { elts = es }, rw eq, record { free = q.free; segments = s })

  -- A pop from a chain that holds a queue with a value returns its first value and leaves the rest,
  -- whichever ring holds it.
  pub pop-IsQueue_cons :
      (c : BufChain A) (x : A) (xs : List A)
      → IsQueue c (x ∷ xs)
      → (c' : BufChain A) × (chain_pop c ≡ some (c', some x)) × IsQueue c' xs
  unfolding chain_pop
  pop-IsQueue_cons c x xs q =
      let (es, eq, s) = pop_first-cons c.elts x xs (x ∷ xs) q.segments refl in
      (record c { elts = es }, rw eq, record { free = q.free; segments = s })

  pub new-IsQueue : (k : ℕ) → k ≤ 30 → IsQueue (new_chain_of {A = A} (2 ^ k)) []
  unfolding new_chain_of
  new-IsQueue k h = record { free = refl; segments = last (new-Holds k h) }
