-- ===== src/ReceiveWindow/Safe.antt =====
-- `Write` on any window: it ends, and keeps the queue of the window in order.
use nps_mux.Base.{
  ℕ, ◌≡◌, sym, subst, arith, Bool, false, Option, some, List, [], ◌∷◌, ◌++◌, Option-cases,
  Bool-cases, inl, inr,
}
use nps_mux.ReceiveQueue.{ListElement, ReceiveQueue, new_list_element}
use nps_mux.ReceiveQueue.Count.{Holds, receive_push-Holds}
use nps_mux.ReceiveWindow.{ReceiveWindow, ReceiveError, Measured, receive_write, calc_size}

-- The queue holds some elements.
abbrev pub Queued : ReceiveQueue → Type 0
Queued q = (xs : List ListElement) × (wait : Bool) × Holds q xs wait

calc_size_total :
    (t : Measured) (w : ReceiveWindow)
    → (w' : ReceiveWindow) × (calc_size [] t w ≡ some w') × (w'.buf_queue ≡ w.buf_queue)
unfolding calc_size
calc_size_total t w = elim (Option-cases (calc_size [] t w)) [
  | inl stuck ↦ absurd (ground (arith, stuck))
  | inr (w', ran) ↦ (w', ran, ground (arith, ran))
]

pub receive_write-Queued :
    (t : Measured) (w : ReceiveWindow) (buf : List ℕ) (l : ℕ) (part : Bool)
    → Queued w.buf_queue
    → (w' : ReceiveWindow) × (e : Option ReceiveError) × (ack : Option ℕ) × (receive_write [] t w
          buf l part
        ≡ some (w', e, ack))
      × Queued w'.buf_queue
unfolding receive_write
receive_write-Queued t w buf l part (xs, wait, h) =
    elim (Option-cases (receive_write [] t w buf l part)) [
      | inl stuck ↦ elim (Option-cases (new_list_element buf l part)) [
        | inl wrong ↦ absurd (ground (arith, stuck, wrong))
        | inr (e, right) ↦
            let (w₁, sized, same) = calc_size_total t w in
            let (q, pushed, hq) =
              receive_push-Holds w₁.buf_queue xs wait e
                (subst (λ k. Holds k xs wait) (sym same) h) in
            absurd (ground (arith, stuck, right, sized, pushed))
      ]
      | inr ((w', x, ack), ran) ↦ elim (Option-cases (new_list_element buf l part)) [
        | inl wrong ↦
            let same : w.buf_queue ≡ w'.buf_queue = ground (arith, ran, wrong) in
            (w', x, ack, ran, subst Queued same (xs, wait, h))
        | inr (e, right) ↦ elim (Bool-cases w.close_op) [
          | inl shut ↦
              let same : w.buf_queue ≡ w'.buf_queue = ground (arith, ran, shut) in
              (w', x, ack, ran, subst Queued same (xs, wait, h))
          | inr running ↦
              let (w₁, sized, same) = calc_size_total t w in
              let (q, pushed, hq) =
                receive_push-Holds w₁.buf_queue xs wait e
                  (subst (λ k. Holds k xs wait) (sym same) h) in
              let now : q ≡ w'.buf_queue = ground (arith, ran, running, right, sized, pushed) in
              (w', x, ack, ran, subst Queued now (xs ++ (e ∷ []), false, hq))
        ]
      ]
    ]
