-- ===== src/PriorityQueue/Wait.antt =====
-- `TryPop` and `Pop` as a caller sees them.
use nps_mux.Base.{
  ◌≡◌, refl, subst, All, arith, true, none, some, List, [], ◌∷◌, Bool-cases, inl, inr, ◌⊎◌,
  Option-cases,
}
use nps_mux.Packager.{MuxPackager}
use nps_mux.PriorityQueue.{PriorityQueue, try_pop, pop, pop_locked}
use nps_mux.PriorityQueue.Policy.{View, serve}
use nps_mux.PriorityQueue.Refine.{Shows, try_pop-Shows}

abbrev pub Drained : View → Type 0
Drained v = (v.highs ≡ []) × (v.middles ≡ []) × (v.lows ≡ [])

serve_none :
    (v : View) (hs ms ls : List MuxPackager)
    → v.highs ≡ hs
    → v.middles ≡ ms
    → v.lows ≡ ls
    → (serve v).1 ≡ none
    → Drained v
serve_none v [] [] [] e e' e'' h = (e, e', e'')
serve_none v [] [] (l ∷ ls) e e' e'' h = ground arith
serve_none v [] (m ∷ ms) ls e e' e'' h = ground arith
serve_none v (p ∷ hs) ms ls e e' e'' h = ground arith

-- TryPop returns nil only if all three chains are empty, and then it takes nothing.
pub try_pop-none :
    (q : PriorityQueue) (v : View)
    → Shows q v
    → (q' : PriorityQueue) → try_pop q ≡ some (q', none)
    → Drained v × Shows q' (serve v).0 × ((serve v).1 ≡ none)
try_pop-none q v s q' e =
    let (q'', e', s') = try_pop-Shows q v s in
    let val : (serve v).1 ≡ none = cc in
    let same : q'' ≡ q' = cc in
    (
      serve_none v v.highs v.middles v.lows refl refl refl val,
      subst (λ t. Shows t (serve v).0) same s',
      val,
    )

drained_after :
    (v : View) (hs ms ls : List MuxPackager)
    → v.highs ≡ hs
    → v.middles ≡ ms
    → v.lows ≡ ls
    → (serve v).1 ≡ none
    → Drained (serve v).0
drained_after v [] [] [] e e' e'' h = ground arith
drained_after v [] [] (l ∷ ls) e e' e'' h = ground arith
drained_after v [] (m ∷ ms) ls e e' e'' h = ground arith
drained_after v (p ∷ hs) ms ls e e' e'' h = ground arith

-- What the other goroutines may do: they leave the queue consistent.
abbrev pub Keeps : (PriorityQueue → PriorityQueue) → Type 0
Keeps other = (q : PriorityQueue) (v : View) → Shows q v → (v' : View) × Shows (other q) v'

-- The answer nil, explained.
abbrev pub Closed : PriorityQueue → Type 0
Closed q = (q.stop ≡ true) × ((v : View) × Shows q v × Drained v)

-- One attempt: a message, or an empty queue.
attempt :
    (q : PriorityQueue) (v : View)
    → Shows q v
    → ((q' : PriorityQueue) × (p : MuxPackager) × (try_pop q ≡ some (q', some p)))
      ⊎ ((q' : PriorityQueue) × (v' : View) × (try_pop q ≡ some (q', none))
          × Shows q' v'
          × Drained v')
attempt q v s =
    let (q', e, s') = try_pop-Shows q v s in
    elim (Option-cases (serve v).1) [
      | inl no_val ↦ inr (
        q',
        (serve v).0,
        rw no_val at e,
        s',
        drained_after v v.highs v.middles v.lows refl refl refl no_val,
      )
      | inr (p, val) ↦ inl (q', p, rw val at e)
    ]

locked_nil :
    (others : List (PriorityQueue → PriorityQueue)) (q q' : PriorityQueue) (v : View)
    → All Keeps others
    → Shows q v
    → pop_locked others q ≡ some (q', none)
    → Closed q'
unfolding pop_locked
locked_nil [] q q' v k s e = elim (attempt q v s) [
  | inl (q₁, p, e') ↦ ground (arith, e')
  | inr (q₁, v₁, e', s₁, d) ↦ elim (Bool-cases q₁.stop) [
    | inl stopped ↦
        let same : q₁ ≡ q' = ground (arith, e') in subst Closed same (stopped, (v₁, s₁, d))
    | inr open_still ↦ ground (arith, e')
  ]
]
locked_nil (other ∷ others) q q' v k s e = elim (attempt q v s) [
  | inl (q₁, p, e') ↦ ground (arith, e')
  | inr (q₁, v₁, e', s₁, d) ↦ elim (Bool-cases q₁.stop) [
    | inl stopped ↦
        let same : q₁ ≡ q' = ground (arith, e') in subst Closed same (stopped, (v₁, s₁, d))
    | inr open_still ↦
        let (v₂, s₂) = k.0 q₁ v₁ s₁ in
        let later : pop_locked others (other q₁) ≡ some (q', none) = ground (arith, e') in
        locked_nil others (other q₁) q' v₂ k.1 s₂ later
  ]
]

-- Pop returns nil only from a queue that is stopped and in which nothing waits, whatever the other
-- goroutines do at its yields and waits, as long as they leave the queue consistent.
pub pop_nil :
    (other : PriorityQueue → PriorityQueue) (others : List (PriorityQueue → PriorityQueue))
    (q q' : PriorityQueue) (v : View)
    → Keeps other
    → All Keeps others
    → Shows q v
    → pop other others q ≡ some (q', none)
    → Closed q'
unfolding pop
pop_nil other others q q' v k ks s e = elim (attempt q v s) [
  | inl (q₁, p, e') ↦ ground (arith, e')
  | inr (q₁, v₁, e', s₁, d) ↦ elim (Bool-cases q₁.stop) [
    | inl stopped ↦
        let same : q₁ ≡ q' = ground (arith, e') in subst Closed same (stopped, (v₁, s₁, d))
    | inr open_still ↦
        let (v₂, s₂) = k q₁ v₁ s₁ in
        elim (attempt (other q₁) v₂ s₂) [
          | inl (q₃, p, e'') ↦ ground (arith, e', e'')
          | inr (q₃, v₃, e'', s₃, d₃) ↦ elim (Bool-cases q₃.stop) [
            | inl stopped ↦
                let same : q₃ ≡ q' = ground (arith, e', e'') in
                subst Closed same (stopped, (v₃, s₃, d₃))
            | inr open_then ↦
                let later : pop_locked others q₃ ≡ some (q', none) = ground (arith, e', e'') in
                locked_nil others q₃ q' v₃ ks s₃ later
          ]
        ]
  ]
]

-- Pop on a queue in which a message waits returns at once the message that the abstract queue
-- serves, stopped or not.
pub pop_ready :
    (other : PriorityQueue → PriorityQueue) (others : List (PriorityQueue → PriorityQueue))
    (q : PriorityQueue) (v : View)
    → Shows q v
    → ¬ Drained v
    → (q' : PriorityQueue) × (p : MuxPackager) × (pop other others q ≡ some (q', some p))
      × Shows q' (serve v).0
      × ((serve v).1 ≡ some p)
unfolding pop
pop_ready other others q v s waits =
    let (q', e, s') = try_pop-Shows q v s in
    elim (Option-cases (serve v).1) [
      | inl no_val ↦ absurd (waits (serve_none v v.highs v.middles v.lows refl refl refl no_val))
      | inr (p, val) ↦ (q', p, ground (arith, e, val), s', val)
    ]
