-- ===== src/ReceiveQueue/Wait.antt =====
-- `Pop`: at once where bytes wait, and otherwise after a wait that a push ends.
use nps_mux.Base.{
  ◌≤◌, ◌<◌, ◌^◌, ◌≡◌, refl, ap, ◌∙◌, arith, Bool, true, false, Option, none, some, List, [], ◌∷◌,
  inl, inr, ◌⊎◌, subst,
}
use nps_mux.Dequeue.{pack}
use nps_mux.ReceiveQueue.{
  ListElement, ReceiveQueue, receive_push, receive_pop, pop_element, receive_try_pop, Pause,
  PopError, WaitEnd, readable, wait_push,
}
use nps_mux.ReceiveQueue.Count.{
  total, Counts, receive_len-total, receive_push-Counts, receive_try_pop-cons, Holds,
  receive_try_pop-first, receive_try_pop_empty,
}

element_cons :
    (ts : List Pause) (q : ReceiveQueue) (e : ListElement) (q' : ReceiveQueue)
    → receive_try_pop q ≡ some (q', some e)
    → pop_element ts q ≡ some (ts, q', inl e)
unfolding pop_element
element_cons [] q e q' h = rw h refl
element_cons (t ∷ ts) q e q' h = rw h refl

-- Where a byte or more waits, Pop returns the oldest element without a pause, and the length word
-- counts the rest.
pub receive_pop-cons :
    (ts : List Pause) (q : ReceiveQueue) (e : ListElement) (xs : List ListElement) (wait : Bool)
    → Counts q (e ∷ xs) wait
    → 1 ≤ total (e ∷ xs)
    → (q' : ReceiveQueue) × (receive_pop ts q ≡ some (ts, q', inl e)) × Counts q' xs wait
unfolding receive_pop
receive_pop-cons [] q e xs wait h pos =
    let (q', eq, h') = receive_try_pop-cons q e xs wait h in
    (q', ground (arith, receive_len-total q (e ∷ xs) wait h, element_cons [] q e q' eq), h')
receive_pop-cons (t ∷ ts) q e xs wait h pos =
    let (q', eq, h') = receive_try_pop-cons q e xs wait h in
    (q', ground (arith, receive_len-total q (e ∷ xs) wait h, element_cons (t ∷ ts) q e q' eq), h')

abbrev state_after : ReceiveQueue → Option (ReceiveQueue × Bool) → ReceiveQueue
state_after q none = q
state_after q (some (q', waited)) = q'

-- The queue after another goroutine pushed `e`.
abbrev pub pushes : ListElement → ReceiveQueue → ReceiveQueue
pushes e q = state_after q (receive_push [] q e)

-- The queue in which a reader sleeps.
abbrev pub asleep : ReceiveQueue → ReceiveQueue
asleep q = record q { length_wait = pack 0 1 }

asleep-Counts : (q : ReceiveQueue) (wait : Bool) → Counts q [] wait → Counts (asleep q) [] true
asleep-Counts q wait h = record { queue = h.queue; word = refl; small = h.small }

module _ (q : ReceiveQueue) (wait : Bool) (h : Counts q [] wait) (ts : List Pause) where
  -- One wait, with what the others do meanwhile.
  sleeps :
      (during : ReceiveQueue → ReceiveQueue) (ends : WaitEnd)
      → receive_pop (record { before = λ s. s; during = during; ends = ends } ∷ ts) q
        ≡ elim (wait_push ends) [
          | some e ↦ some (ts, during (asleep q), inr e)
          | none ↦ receive_pop ts (during (asleep q))
        ]
  unfolding receive_pop
  sleeps during ends = ground (arith, receive_len-total q [] wait h)

  -- The wait fails.
  pub receive_pop-error :
      (during : ReceiveQueue → ReceiveQueue) (ends : WaitEnd) (e : PopError)
      → wait_push ends ≡ some e
      → receive_pop (record { before = λ s. s; during = during; ends = ends } ∷ ts) q
        ≡ some (ts, during (asleep q), inr e)
  receive_pop-error during ends e bad = ground (arith, sleeps during ends)

  -- A Pop on an empty queue that sleeps while another goroutine pushes an element with at least one
  -- byte: the push finds the wait flag and signals, and the Pop, once signalled, returns the
  -- element and leaves an empty queue without the flag.
  pub receive_pop-push :
      (e : ListElement)
      → 1 ≤ e.l
      → e.l < 2 ^ 32
      → (q₁ : ReceiveQueue) × (receive_push [] (asleep q) e ≡ some (q₁, true))
        × (q₂ : ReceiveQueue) × (receive_pop
              (record { before = λ s. s; during = pushes e; ends = readable } ∷ ts)
              q
            ≡ some (ts, q₂, inl e))
        × Counts q₂ [] false
  receive_pop-push e pos small =
      let (q₁, eq, h₁) =
        receive_push-Counts (asleep q) [] true (asleep-Counts q wait h) e (omega arith) in
      let (q₂, eq', h₂) = receive_pop-cons ts q₁ e [] false h₁ (omega arith) in
      let after : pushes e (asleep q) ≡ q₁ = ap (state_after (asleep q)) eq in
      (q₁, eq, q₂, sleeps (pushes e) readable ∙ ap (receive_pop ts) after ∙ eq', h₂)

-- A Pop that does not pause, if it returns, takes the oldest element.
pub pop-Holds :
    (q q' : ReceiveQueue) (ts : List Pause) (res : ListElement ⊎ PopError) (xs : List ListElement)
    (wait : Bool)
    → Holds q xs wait
    → receive_pop [] q ≡ some (ts, q', res)
    → (e : ListElement) × (ys : List ListElement) × (xs ≡ e ∷ ys) × Holds q' ys wait × (res ≡ inl e)
unfolding receive_pop pop_element
pop-Holds q q' ts res [] wait h done =
    let (q₁, eq, h₁) = receive_try_pop_empty q wait h in absurd (ground (arith, done, eq))
pop-Holds q q' ts res (x ∷ xs) wait h done =
    let (q₁, eq, h₁) = receive_try_pop-first q x xs wait h in
    let same : q₁ ≡ q' = ground (arith, done, eq) in
    (x, xs, refl, subst (λ k. Holds k xs wait) same h₁, ground (arith, done, eq))
