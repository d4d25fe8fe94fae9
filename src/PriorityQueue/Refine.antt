-- ===== src/PriorityQueue/Refine.antt =====
-- The three chains and their counter behave as the abstract queue.
use nps_mux.Base.{
  ℕ, ◌/◌, ◌≤◌, ◌<◌, ◌≡◌, refl, ◌∙◌, arith, Bool, false, Option, none, some, List, [], ◌∷◌, ltb,
  ltb→lt, Bool-cases, inl, inr, subst, sym,
}
use native.Mathlib.Decide.{dec_lt}
use nps_mux.Packager.{MuxPackager}
use nps_mux.Chain.{BufChain}
use nps_mux.Chain.Refine.{IsQueue, push-IsQueue, pop-IsQueue_empty, pop-IsQueue_cons, new-IsQueue}
use nps_mux.PriorityQueue.{
  PriorityQueue, push, try_pop, try_middle, try_lowest, try_middle_last, new_queue, max_starving,
  more_starving,
}
use nps_mux.PriorityQueue.Policy.{
  View, Class, high, middle, low, class_of, put, put_in, serve, serve_high, serve_middle,
}

pub record Shows (q : PriorityQueue) (v : View) : Type 0 where
  pub highs : IsQueue q.highest_chain v.highs
  pub middles : IsQueue q.middle_chain v.middles
  pub lows : IsQueue q.lowest_chain v.lows
  pub starved : q.starving ≡ v.starved
  pub stopped : q.stop ≡ v.stopped

abbrev pub no_messages : View
no_messages = record { highs = []; middles = []; lows = []; starved = 0; stopped = false }

pub new-Shows : Shows new_queue no_messages
unfolding new_queue
new-Shows = record {
  highs = new-IsQueue 2 (omega arith);
  middles = new-IsQueue 5 (omega arith);
  lows = new-IsQueue 8 (omega arith);
  starved = refl;
  stopped = refl;
}

-- One chain and the counter replaced, on both sides.
module _ {q : PriorityQueue} {v : View} (s : Shows q v) (n : ℕ) {c : BufChain MuxPackager}
    {xs : List MuxPackager} (h : IsQueue c xs) where
  in_high :
      Shows (record q { highest_chain = c; starving = n }) (record v { highs = xs; starved = n })
  in_high = record {
    highs = h;
    middles = s.middles;
    lows = s.lows;
    starved = refl;
    stopped = s.stopped;
  }

  in_middle :
      Shows (record q { middle_chain = c; starving = n }) (record v { middles = xs; starved = n })
  in_middle = record {
    highs = s.highs;
    middles = h;
    lows = s.lows;
    starved = refl;
    stopped = s.stopped;
  }

  in_low : Shows (record q { lowest_chain = c; starving = n }) (record v { lows = xs; starved = n })
  in_low = record {
    highs = s.highs;
    middles = s.middles;
    lows = h;
    starved = refl;
    stopped = s.stopped;
  }

-- A step of the code that leaves a queue and perhaps a message.
abbrev Gives : Option (PriorityQueue × Option MuxPackager) → View × Option MuxPackager → Type 0
Gives step (v, val) = (q : PriorityQueue) × (step ≡ some (q, val)) × Shows q v

abbrev Pushes : PriorityQueue → MuxPackager → View → Type 0
Pushes q p v = (q' : PriorityQueue) × (push q p ≡ some q') × Shows q' v

push_by :
    (c : Class) (q : PriorityQueue) (v : View) (p : MuxPackager)
    → class_of p.flag ≡ c
    → Shows q v
    → Pushes q p (put_in c v p)
unfolding push
push_by high q v p e s =
    let (c, eq, h) = push-IsQueue q.highest_chain v.highs p s.highs in
    (
      record q { highest_chain = c; starving = v.starved },
      ground (arith, eq, s.starved),
      in_high s v.starved h,
    )
push_by middle q v p e s =
    let (c, eq, h) = push-IsQueue q.middle_chain v.middles p s.middles in
    (
      record q { middle_chain = c; starving = v.starved },
      ground (arith, eq, s.starved),
      in_middle s v.starved h,
    )
push_by low q v p e s =
    let (c, eq, h) = push-IsQueue q.lowest_chain v.lows p s.lows in
    (
      record q { lowest_chain = c; starving = v.starved },
      ground (arith, eq, s.starved),
      in_low s v.starved h,
    )

-- A push never fails, and adds the message at the end of the list of its class.
pub push-Shows :
    (q : PriorityQueue) (v : View) (p : MuxPackager)
    → Shows q v
    → (q' : PriorityQueue) × (push q p ≡ some q') × Shows q' (put v p)
push-Shows q v p s = push_by (class_of p.flag) q v p refl s

module _ (hs : List MuxPackager) (b : Bool) where
  abbrev view : List MuxPackager → List MuxPackager → ℕ → View
  view middles lows starved = record {
    highs = hs;
    middles = middles;
    lows = lows;
    starved = starved;
    stopped = b;
  }

module _ (q : PriorityQueue) (hs : List MuxPackager) (b : Bool) (st : ℕ) where
  lowest_cons :
      (p : MuxPackager) (ms ls : List MuxPackager)
      → Shows q (view hs b ms (p ∷ ls) st)
      → Gives (try_lowest q) (view hs b ms ls (st / 2), some p)
  unfolding try_lowest
  lowest_cons p ms ls s =
      let (c, eq, h) = pop-IsQueue_cons q.lowest_chain p ls s.lows in
      (
        record q { lowest_chain = c; starving = st / 2 },
        ground (arith, eq, s.starved),
        in_low s (st / 2) h,
      )

  lowest_nil : Shows q (view hs b [] [] st) → Gives (try_lowest q) (view hs b [] [] st, none)
  unfolding try_lowest try_middle_last
  lowest_nil s =
      let (c, eq, h) = pop-IsQueue_empty q.lowest_chain s.lows in
      let (c', eq', h') = pop-IsQueue_empty q.middle_chain s.middles in
      elim (dec_lt 0 st) [
        | yes p ↦ (
          record q { lowest_chain = c; middle_chain = c'; starving = st },
          ground (arith, eq, eq', s.starved),
          in_middle (in_low s st h) st h',
        )
        | no p ↦ (
          record q { lowest_chain = c; starving = st },
          ground (arith, eq, s.starved),
          in_low s st h,
        )
      ]

  lowest_middle :
      (p : MuxPackager) (ms : List MuxPackager)
      → 0 < st
      → Shows q (view hs b (p ∷ ms) [] st)
      → Gives (try_lowest q) (view hs b ms [] (more_starving st), some p)
  unfolding try_lowest try_middle_last
  lowest_middle p ms pos s =
      let (c, eq, h) = pop-IsQueue_empty q.lowest_chain s.lows in
      let (c', eq', h') = pop-IsQueue_cons q.middle_chain p ms s.middles in
      (
        record q { lowest_chain = c; middle_chain = c'; starving = more_starving st },
        ground (arith, eq, eq', s.starved),
        in_middle (in_low s st h) (more_starving st) h',
      )

  middle_cons :
      (p : MuxPackager) (ms ls : List MuxPackager)
      → st < max_starving
      → Shows q (view hs b (p ∷ ms) ls st)
      → Gives (try_middle q) (view hs b ms ls (more_starving st), some p)
  unfolding try_middle
  middle_cons p ms ls few s =
      let (c, eq, h) = pop-IsQueue_cons q.middle_chain p ms s.middles in
      (
        record q { middle_chain = c; starving = more_starving st },
        ground (arith, eq, s.starved),
        in_middle s (more_starving st) h,
      )

  middle_skip :
      max_starving ≤ st → (v : View) → Shows q v → v.starved ≡ st → try_middle q ≡ try_lowest q
  unfolding try_middle
  middle_skip many v s e = ground (arith, s.starved)

  -- With no connection message the lowest chain is tried, whatever the counter.
  middle_nil :
      (ls : List MuxPackager)
      → Shows q (view hs b [] ls st)
      → (q' : PriorityQueue) × (try_middle q ≡ try_lowest q') × Shows q' (view hs b [] ls st)
  unfolding try_middle
  middle_nil ls s = elim (dec_lt st max_starving) [
    | yes p ↦
        let (c, eq, h) = pop-IsQueue_empty q.middle_chain s.middles in
        (
          record q { middle_chain = c; starving = st },
          ground (arith, eq, s.starved),
          in_middle s st h,
        )
    | no p ↦ (q, ground (arith, s.starved), s)
  ]

module _ (q : PriorityQueue) (hs : List MuxPackager) (b : Bool) (st : ℕ) where
  moves_by :
      (q' : PriorityQueue) {r : View × Option MuxPackager}
      → try_middle q ≡ try_lowest q'
      → Gives (try_lowest q') r
      → Gives (try_middle q) r
  moves_by q' e (q'', e', s) = (q'', e ∙ e', s)

  middle_serves :
      (ms ls : List MuxPackager)
      → Shows q (view hs b ms ls st)
      → Gives (try_middle q) (serve_middle (view hs b ms ls st) ms)
  middle_serves [] [] s =
      let (q', e, s') = middle_nil q hs b st [] s in moves_by q' e (lowest_nil q' hs b st s')
  middle_serves [] (p ∷ ls) s =
      let (q', e, s') = middle_nil q hs b st (p ∷ ls) s in
      moves_by q' e (lowest_cons q' hs b st p [] ls s')
  middle_serves (p ∷ ms) [] s = elim (Bool-cases (ltb st max_starving)) [
    | inl few ↦ rw few (middle_cons q hs b st p ms [] (ltb→lt st max_starving few) s)
    | inr many ↦
        let full : max_starving ≤ st = ground arith in
        rw many (
          moves_by q (middle_skip q hs b st full (view hs b (p ∷ ms) [] st) s refl)
            (lowest_middle q hs b st p ms (omega arith) s))
  ]
  middle_serves (p ∷ ms) (l ∷ ls) s = elim (Bool-cases (ltb st max_starving)) [
    | inl few ↦ rw few (middle_cons q hs b st p ms (l ∷ ls) (ltb→lt st max_starving few) s)
    | inr many ↦
        let full : max_starving ≤ st = ground arith in
        rw many (
          moves_by q (middle_skip q hs b st full (view hs b (p ∷ ms) (l ∷ ls) st) s refl)
            (lowest_cons q hs b st l (p ∷ ms) ls s))
  ]

pop_by :
    (hs : List MuxPackager) (q : PriorityQueue) (v : View)
    → Shows q v
    → v.highs ≡ hs
    → Gives (try_pop q) (serve_high v hs)
unfolding try_pop
pop_by [] q v s e =
    let (c, eq, h) =
      pop-IsQueue_empty q.highest_chain (subst (IsQueue q.highest_chain) e s.highs) in
    let (q', e', s') =
      middle_serves (record q { highest_chain = c; starving = v.starved }) v.highs v.stopped
        v.starved v.middles v.lows (in_high s v.starved (subst (IsQueue c) (sym e) h)) in
    (q', ground (arith, eq, e', s.starved), s')
pop_by (p ∷ hs) q v s e =
    let (c, eq, h) =
      pop-IsQueue_cons q.highest_chain p hs (subst (IsQueue q.highest_chain) e s.highs) in
    (
      record q { highest_chain = c; starving = v.starved },
      ground (arith, eq, s.starved),
      in_high s v.starved h,
    )

-- TryPop never fails, and takes the message that the abstract queue serves.
pub try_pop-Shows :
    (q : PriorityQueue) (v : View)
    → Shows q v
    → (q' : PriorityQueue) × (try_pop q ≡ some (q', (serve v).1)) × Shows q' (serve v).0
try_pop-Shows q v s = pop_by v.highs q v s refl
