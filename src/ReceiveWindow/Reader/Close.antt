-- ===== src/ReceiveWindow/Reader/Close.antt =====
-- `CloseWindow` of the receiver: what it leaves, and that a second call changes nothing.
use nps_mux.Base.{
  ℕ, zero, suc, ◌+◌, ◌≤◌, ◌<◌, ◌≡◌, refl, sym, ap, ◌∙◌, arith, Bool, true, Option, some, List, [],
  ◌∷◌, length, length-append, if◌then◌else◌, Option-cases, inl, inr,
}
use nps_mux.Dequeue.{BufDequeue}
use nps_mux.Chain.Refine.{Segments, last, more}
use nps_mux.ReceiveQueue.{ListElement, ReceiveQueue, receive_try_pop, stop_receive_queue}
use nps_mux.ReceiveQueue.Count.{
  Counts, Holds, Holds-Counts, receive_try_pop-first, receive_try_pop_empty,
}
use nps_mux.ReceiveWindow.{ReceiveWindow}
use nps_mux.ReceiveWindow.Reader.{
  capacity, release_loop, release, receive_stop, close_flag, receive_close,
}

-- The rings have a slot for each element.
pub length-le-capacity {ℓ} :
    {A : Type ℓ} (ds : List (BufDequeue A)) (xs : List A) → Segments ds xs → length xs ≤ capacity ds
length-le-capacity ds xs (last {d} h) = omega (arith, h.fits, h.size)
length-le-capacity ds zs (more {d} {e} {ds = r} {xs} {ys} h s q) =
    omega (arith, h.fits, h.size, length-le-capacity (e ∷ r) ys s, ap length q, length-append xs ys)

release_loop-Holds :
    (fuel : ℕ) (q : ReceiveQueue) (xs : List ListElement) (wait : Bool)
    → Holds q xs wait
    → length xs < fuel
    → (q' : ReceiveQueue) × (release_loop fuel q ≡ some q') × Counts q' [] wait
unfolding release_loop
release_loop-Holds zero q xs wait h enough = absurd (omega arith)
release_loop-Holds (suc fuel) q [] wait h enough =
    let (q', e, h') = receive_try_pop_empty q wait h in
    (q', ground (arith, e), Holds-Counts q' [] wait (omega arith) h')
release_loop-Holds (suc fuel) q (x ∷ xs) wait h enough =
    let (q₁, e, h₁) = receive_try_pop-first q x xs wait h in
    let (q₂, e', h₂) = release_loop-Holds fuel q₁ xs wait h₁ (omega arith) in
    (q₂, ground (arith, e, e'), h₂)

stop-Holds :
    (w : ReceiveWindow) (xs : List ListElement) (wait : Bool)
    → Holds w.buf_queue xs wait
    → Holds (receive_stop (close_flag w)).buf_queue xs wait
unfolding receive_stop stop_receive_queue
stop-Holds w xs wait h = ground (arith, h.queue, h.word)

try_pop_keeps_tokens :
    (q q' : ReceiveQueue) (v : Option ListElement)
    → receive_try_pop q ≡ some (q', v)
    → q'.stop_tokens ≡ q.stop_tokens
unfolding receive_try_pop
try_pop_keeps_tokens q q' v e = ground arith

release_keeps_tokens :
    (fuel : ℕ) (q q' : ReceiveQueue)
    → release_loop fuel q ≡ some q'
    → q'.stop_tokens ≡ q.stop_tokens
unfolding release_loop
release_keeps_tokens zero q q' e = cc
release_keeps_tokens (suc fuel) q q' e = elim (Option-cases (receive_try_pop q)) [
  | inl p ↦ ground (arith, p)
  | inr ((q₁, val), p) ↦ elim (Option-cases val) [
    | inl empty ↦
        let same : q₁ ≡ q' = ground (arith, p, empty) in
        ap (λ t. t.stop_tokens) (sym same) ∙ try_pop_keeps_tokens q q₁ val p
    | inr (x, full) ↦
        release_keeps_tokens fuel q₁ q' (ground (arith, p, full)) ∙ try_pop_keeps_tokens q q₁ val p
  ]
]

module _ (w : ReceiveWindow) (xs : List ListElement) (wait : Bool)
    (h : Holds w.buf_queue xs wait) where
  abbrev stopped : ReceiveWindow
  stopped = receive_stop (close_flag w)

  -- CloseWindow of a receiver always ends: it marks the window and its queue as stopped, wakes
  -- those that wait once and not again on a second call, leaves an empty queue, and does not touch
  -- the word.
  pub receive_close-empty :
      (w' : ReceiveWindow) × (receive_close w ≡ some w')
      × (w'.close_op ≡ true)
      × (w'.stop_once ≡ true)
      × (w'.close_tokens ≡ w.close_tokens + (if w.close_op then 0 else 2))
      × (w'.buf_queue.stop_tokens ≡ w.buf_queue.stop_tokens + (if w.stop_once then 0 else 2))
      × Counts w'.buf_queue [] wait
      × (w'.max_size_done ≡ w.max_size_done)
  unfolding receive_close release receive_stop stop_receive_queue
  receive_close-empty =
      let hs = stop-Holds w xs wait h in
      let fuel = suc (capacity stopped.buf_queue.chain.elts) in
      let (q, e, hq) =
        release_loop-Holds fuel stopped.buf_queue xs wait hs
          (omega (arith, length-le-capacity stopped.buf_queue.chain.elts xs hs.queue.segments)) in
      let kept = release_keeps_tokens fuel stopped.buf_queue q e in
      (
        record stopped { buf_queue = q },
        rw e refl,
        ground arith,
        ground arith,
        ground arith,
        kept ∙ ground arith,
        hq,
        ground arith,
      )
