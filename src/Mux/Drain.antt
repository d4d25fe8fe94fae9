-- ===== src/Mux/Drain.antt =====
-- `release`: both loops end, and leave nothing.
use nps_mux.Base.{
  ℕ, zero, suc, ◌+◌, ◌<◌, ◌≡◌, refl, ap, ◌∙◌, arith, some, List, [], ◌∷◌, length, Option-cases, inl,
  inr,
}
use nps_mux.Packager.{MuxPackager}
use nps_mux.Chain.Refine.{IsQueue, pop-IsQueue_cons, pop-IsQueue_empty}
use nps_mux.PriorityQueue.{PriorityQueue, stop_queue}
use nps_mux.PriorityQueue.Policy.{View, serve}
use nps_mux.PriorityQueue.Refine.{Shows, try_pop-Shows}
use nps_mux.PriorityQueue.Wait.{Drained, try_pop-none}
use nps_mux.ConnQueue.{ConnQueue, conn_try_pop, stop_conn_queue}
use nps_mux.ReceiveWindow.Reader.{capacity}
use nps_mux.ReceiveWindow.Reader.Close.{length-le-capacity}
use nps_mux.Mux.{Mux, drain_packs, drain_conns, slots, release_mux}

abbrev messages_of : View → ℕ
messages_of v = length v.highs + length v.middles + length v.lows

serve_lt :
    (v : View) (hs ms ls : List MuxPackager) (p : MuxPackager)
    → v.highs ≡ hs
    → v.middles ≡ ms
    → v.lows ≡ ls
    → (serve v).1 ≡ some p
    → messages_of (serve v).0 < messages_of v
serve_lt v [] [] [] p e e' e'' h = ground (arith, e, e', e'', h)
serve_lt v [] [] (l ∷ ls) p e e' e'' h = ground (arith, e, e', e'', h)
serve_lt v [] (m ∷ ms) [] p e e' e'' h = ground (arith, e, e', e'', h)
serve_lt v [] (m ∷ ms) (l ∷ ls) p e e' e'' h = ground (arith, e, e', e'', h)
serve_lt v (x ∷ hs) ms ls p e e' e'' h = ground (arith, e, e', e'', h)

drain_packs-Drained :
    (fuel : ℕ) (q : PriorityQueue) (v : View)
    → Shows q v
    → messages_of v < fuel
    → (q' : PriorityQueue) × (drain_packs fuel q ≡ some q') × (v' : View) × Shows q' v' × Drained v'
unfolding drain_packs
drain_packs-Drained zero q v s enough = absurd (omega arith)
drain_packs-Drained (suc fuel) q v s enough =
    let (q₁, eq, s₁) = try_pop-Shows q v s in
    elim (Option-cases (serve v).1) [
      | inl nil ↦
          let (over, _, _) = try_pop-none q v s q₁ (eq ∙ ap (λ t. some (q₁, t)) nil) in
          (q₁, ground (arith, eq, nil), (serve v).0, s₁, ground (arith, over))
      | inr (p, served) ↦
          let (q₂, eq', v', s', over) =
            drain_packs-Drained fuel q₁ (serve v).0 s₁
              (omega (arith, serve_lt v v.highs v.middles v.lows p refl refl refl served)) in
          (q₂, ground (arith, eq, served, eq'), v', s', over)
    ]

drain_conns-IsQueue :
    (fuel : ℕ) (q : ConnQueue ℕ) (xs : List ℕ)
    → IsQueue q.chain xs
    → length xs < fuel
    → (q' : ConnQueue ℕ) × (drain_conns fuel q ≡ some q') × IsQueue q'.chain []
unfolding drain_conns conn_try_pop
drain_conns-IsQueue zero q xs h enough = absurd (omega arith)
drain_conns-IsQueue (suc fuel) q [] h enough =
    let (c, eq, h') = pop-IsQueue_empty q.chain h in
    (record q { chain = c }, ground (arith, eq), h')
drain_conns-IsQueue (suc fuel) q (x ∷ xs) h enough =
    let (c, eq, h') = pop-IsQueue_cons q.chain x xs h in
    let (q', eq', h'') = drain_conns-IsQueue fuel (record q { chain = c }) xs h' (omega arith) in
    (q', ground (arith, eq, eq'), h'')

pub release_mux-Drained :
    (m : Mux) (v : View) (xs : List ℕ)
    → Shows m.write_queue v
    → IsQueue m.waiting.chain xs
    → (q : PriorityQueue) × (w : ConnQueue ℕ) × (release_mux m
        ≡ some (record m { write_queue = stop_queue q; waiting = stop_conn_queue w }))
      × (v' : View) × Shows q v'
      × Drained v'
      × IsQueue w.chain []
unfolding release_mux
release_mux-Drained m v xs s h =
    let enough : messages_of v < suc (slots m.write_queue) = omega (
      arith,
      length-le-capacity m.write_queue.highest_chain.elts v.highs s.highs.segments,
      length-le-capacity m.write_queue.middle_chain.elts v.middles s.middles.segments,
      length-le-capacity m.write_queue.lowest_chain.elts v.lows s.lows.segments,
    ) in
    let (q, eq, v', s', over) =
      drain_packs-Drained (suc (slots m.write_queue)) m.write_queue v s enough in
    let (w, eq', h') =
      drain_conns-IsQueue (suc (capacity m.waiting.chain.elts)) m.waiting xs h
        (omega (arith, length-le-capacity m.waiting.chain.elts xs h.segments)) in
    (q, w, ground (arith, eq, eq'), v', s', over, h')
