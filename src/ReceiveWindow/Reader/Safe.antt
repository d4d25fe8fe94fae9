-- ===== src/ReceiveWindow/Reader/Safe.antt =====
-- `Read` where the elements that it pops are there keeps the queue of the window in order.
use nps_mux.Base.{
  ℕ, zero, suc, ◌-◌, ◌≡◌, sym, subst, arith, ◌&&◌, Option, some, [], replicate, ltb, ◌==◌,
  Option-cases, Bool-cases, inl, inr,
}
use nps_mux.ReceiveQueue.{ListElement, receive_pop, PopError}
use nps_mux.ReceiveQueue.Wait.{pop-Holds}
use nps_mux.ReceiveWindow.{ReceiveWindow, send_status}
use nps_mux.ReceiveWindow.Safe.{Queued}
use nps_mux.ReceiveWindow.Reader.{
  Reading, copy_out, next_element, serve, read_loop, receive_read, read_from_queue, start_reading,
}
use nps_mux.ReceiveWindow.Reader.Rounds.{quiet}

copy_out_keeps :
    (e : ListElement) (room : ℕ) (r r' : Reading)
    → copy_out e room r ≡ some r'
    → r'.window.buf_queue ≡ r.window.buf_queue
unfolding copy_out send_status
copy_out_keeps e room r r' done = ground (arith, done)

next_element-Queued :
    (w w' : ReceiveWindow) (err : Option PopError)
    → Queued w.buf_queue
    → next_element quiet w ≡ some (w', err)
    → Queued w'.buf_queue
unfolding next_element
next_element-Queued w w' err h done = elim (Option-cases (receive_pop [] w.buf_queue)) [
  | inl stuck ↦ absurd (ground (arith, done, stuck))
  | inr ((ts, q, res), popped) ↦
      let (xs, wait, held) = h in
      let (e, ys, _, hq, got) = pop-Holds w.buf_queue q ts res xs wait held popped in
      let same : q ≡ w'.buf_queue = ground (arith, done, popped, got) in
      subst Queued same (ys, wait, hq)
]

Keeps : (ℕ → Reading → Option Reading) → Type 0
Keeps more =
    (room : ℕ) (r r' : Reading)
    → Queued r.window.buf_queue
    → more room r ≡ some r'
    → Queued r'.window.buf_queue

serve-Queued :
    (more : ℕ → Reading → Option Reading) (e : ListElement) → Keeps more → Keeps (serve more e)
unfolding Keeps serve
serve-Queued more e keeps room r r' h done = elim (Option-cases (copy_out e room r)) [
  | inl stuck ↦ absurd (ground (arith, done, stuck))
  | inr (r₁, copied) ↦
      let h₁ : Queued r₁.window.buf_queue =
        subst Queued (sym (copy_out_keeps e room r r₁ copied)) h in
      elim (Bool-cases (ltb (r₁.n - r.n) room && e.part)) [
        | inl on ↦ keeps (room - (r₁.n - r.n)) r₁ r' h₁ (ground (arith, done, copied, on))
        | inr over ↦
            let same : r₁ ≡ r' = ground (arith, done, copied, over) in
            subst (λ t. Queued t.window.buf_queue) same h₁
      ]
]

read_loop-Queued : (k : ℕ) → Keeps (read_loop (replicate k quiet))
unfolding Keeps read_loop
read_loop-Queued zero room r r' h done = absurd (ground (arith, done))
read_loop-Queued (suc k) room r r' h done = elim (Option-cases r.window.element) [
  | inl lost ↦ absurd (ground (arith, done, lost))
  | inr (cur, has) ↦ elim (Bool-cases (r.window.off == cur.l)) [
    | inr inside ↦
        serve-Queued (read_loop (replicate k quiet)) cur (read_loop-Queued k) room r r' h
          (ground (arith, done, has, inside))
    | inl read ↦ elim (Bool-cases r.window.close_op) [
      | inl shut ↦
          let same : r.window.buf_queue ≡ r'.window.buf_queue =
            ground (arith, done, has, read, shut) in
          subst Queued same h
      | inr running ↦ elim (Option-cases (next_element quiet r.window)) [
        | inl stuck ↦ absurd (ground (arith, done, has, read, running, stuck))
        | inr ((w, err), next) ↦
            let hw = next_element-Queued r.window w err h next in
            elim (Option-cases err) [
              | inr (x, failed) ↦
                  let same : w.buf_queue ≡ r'.window.buf_queue =
                    ground (arith, done, has, read, running, next, failed) in
                  subst Queued same hw
              | inl fine ↦ elim (Option-cases w.element) [
                | inl lost ↦ absurd (ground (arith, done, has, read, running, next, fine, lost))
                | inr (e, got) ↦
                    serve-Queued (read_loop (replicate k quiet)) e (read_loop-Queued k) room
                      (record r { window = w }) r' hw
                      (ground (arith, done, has, read, running, next, fine, got))
              ]
            ]
      ]
    ]
  ]
]

pub receive_read-Queued :
    (k : ℕ) (w : ReceiveWindow) (room : ℕ) (r : Reading)
    → Queued w.buf_queue
    → receive_read (replicate k quiet) w room ≡ some r
    → Queued r.window.buf_queue
unfolding Keeps receive_read read_from_queue
receive_read-Queued k w room r h done = elim (Bool-cases w.close_op) [
  | inl shut ↦
      let same : w.buf_queue ≡ r.window.buf_queue = ground (arith, done, shut) in
      subst Queued same h
  | inr running ↦ read_loop-Queued k room (start_reading w) r h (ground (arith, done, running))
]
