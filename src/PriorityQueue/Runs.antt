-- ===== src/PriorityQueue/Runs.antt =====
-- Runs of the queue: any sequence of pushes and `TryPop`s. Order within a class, and the bound on how
-- long content waits behind connection messages.
use nps_mux.Base.{
  ℕ, ◌+◌, ◌-◌, ◌/◌, ◌≡◌, ◌≢◌, ◌≤◌, refl, sym, ap, ◌∙◌, arith, Bool, true, false, Option, none, some,
  ◌>>=◌, List, [], ◌∷◌, ◌++◌, length, length-append, ltb, ltb→lt, ◌⊎◌, if◌then◌else◌, All,
  Bool-cases, inl, inr,
}
use mathlib.Core.List.{append_assoc, append-nil}
use native.Mathlib.Decide.{dec_lt}
use nps_mux.Packager.{MuxPackager}
use nps_mux.PriorityQueue.{PriorityQueue, push, try_pop, max_starving, more_starving}
use nps_mux.PriorityQueue.Policy.{
  View, Class, high, middle, low, class_of, put, put_in, serve, serve_low, add_last,
}
use nps_mux.PriorityQueue.Refine.{Shows, push-Shows, try_pop-Shows}

pub data Op : Type 0 where
  enter : MuxPackager → Op
  leave : Op

-- The calls on the code, with what each `TryPop` returned.
pub run : List Op → PriorityQueue → Option (PriorityQueue × List (Option MuxPackager))
run [] q = some (q, [])
run (enter p ∷ ops) q = do q' ← push q p; run ops q'
run (leave ∷ ops) q = do (q', val) ← try_pop q; (q'', outs) ← run ops q'; some (q'', val ∷ outs)

unfoldable pub run_view : List Op → View → View × List (Option MuxPackager)
run_view [] v = (v, [])
run_view (enter p ∷ ops) v = run_view ops (put v p)
run_view (leave ∷ ops) v = let (v', outs) = run_view ops (serve v).0 in (v', (serve v).1 ∷ outs)

-- No sequence of pushes and TryPops tells the code from the abstract queue, and none fails.
pub run-run_view :
    (ops : List Op) (q : PriorityQueue) (v : View)
    → Shows q v
    → (q' : PriorityQueue) × (run ops q ≡ some (q', (run_view ops v).1))
      × Shows q' (run_view ops v).0
unfolding run run_view
run-run_view [] q v s = (q, refl, s)
run-run_view (enter p ∷ ops) q v s =
    let (q', e, s') = push-Shows q v p s in
    let (q'', e', s'') = run-run_view ops q' (put v p) s' in (q'', ground (arith, e, e'), s'')
run-run_view (leave ∷ ops) q v s =
    let (q', e, s') = try_pop-Shows q v s in
    let (q'', e', s'') = run-run_view ops q' (serve v).0 s' in (q'', ground (arith, e, e'), s'')

abbrev pub same : Class → Class → Bool
same high high = true
same middle middle = true
same low low = true
same _ _ = false

-- The messages of a class among those returned, among those pushed, and among those waiting.
abbrev pub returned : Class → List (Option MuxPackager) → List MuxPackager
returned c [] = []
returned c (none ∷ outs) = returned c outs
returned c (some p ∷ outs) =
    if same c (class_of p.flag) then p ∷ returned c outs else returned c outs

abbrev pub entered : Class → List Op → List MuxPackager
entered c [] = []
entered c (enter p ∷ ops) = if same c (class_of p.flag) then p ∷ entered c ops else entered c ops
entered c (leave ∷ ops) = entered c ops

abbrev pub waiting : Class → View → List MuxPackager
waiting high v = v.highs
waiting middle v = v.middles
waiting low v = v.lows

abbrev OfClass : Class → MuxPackager → Type 0
OfClass c p = class_of p.flag ≡ c

-- Each list has the messages of its class.
pub record IsClassed (v : View) : Type 0 where
  pub highs : All (OfClass high) v.highs
  pub middles : All (OfClass middle) v.middles
  pub lows : All (OfClass low) v.lows

All-add_last :
    (c : Class) (xs : List MuxPackager) (p : MuxPackager)
    → All (OfClass c) xs
    → OfClass c p
    → All (OfClass c) (add_last xs p)
All-add_last c [] p h e = (e, tt)
All-add_last c (x ∷ xs) p h e = (h.0, All-add_last c xs p h.1 e)

put-IsClassed : (v : View) (p : MuxPackager) → IsClassed v → IsClassed (put v p)
put-IsClassed v p h = go (class_of p.flag) refl
  where
    go : (c : Class) → class_of p.flag ≡ c → IsClassed (put_in c v p)
    go high e = record {
      highs = All-add_last high v.highs p h.highs e;
      middles = h.middles;
      lows = h.lows;
    }
    go middle e = record {
      highs = h.highs;
      middles = All-add_last middle v.middles p h.middles e;
      lows = h.lows;
    }
    go low e = record {
      highs = h.highs;
      middles = h.middles;
      lows = All-add_last low v.lows p h.lows e;
    }

-- What one service does: it takes nothing, or the first message of a class. Content that waits
-- stays, is served, or is passed by a message whose place in the count is taken.
record Served (v v' : View) (val : Option MuxPackager) : Type 0 where
  classed : IsClassed v'
  parts : (c : Class) → waiting c v ≡ returned c (val ∷ []) ++ waiting c v'
  fair :
      v.lows ≢ []
      → length (returned low (val ∷ [])) ≡ 0
      → (v'.lows ≡ v.lows)
        × (length (returned middle (val ∷ [])) + (max_starving - v'.starved)
            ≤ max_starving - v.starved)

abbrev ServedBy : View → View × Option MuxPackager → Type 0
ServedBy v (v', val) = Served v v' val

-- The message of class `k` as a part of the list of class `c`.
abbrev only : Class → Class → MuxPackager → List MuxPackager
only c k p = if same c k then p ∷ [] else []

returned_one : (c k : Class) (p : MuxPackager) → OfClass k p → returned c (some p ∷ []) ≡ only c k p
returned_one c k p e = rw e

sum_zero : {a b c : ℕ} → a ≡ b + c → a ≡ 0 → (b ≡ 0) × (c ≡ 0)
sum_zero e z = omega arith

module _ (st : ℕ) (b : Bool) where
  abbrev view : List MuxPackager → List MuxPackager → List MuxPackager → View
  view hs ms ls = record { highs = hs; middles = ms; lows = ls; starved = st; stopped = b }

  serve_low-Served :
      (hs ms ls : List MuxPackager) (l : MuxPackager)
      → IsClassed (view hs ms (l ∷ ls))
      → ServedBy (view hs ms (l ∷ ls)) (serve_low (view hs ms (l ∷ ls)) (l ∷ ls))
  serve_low-Served hs ms ls l h = record {
    classed = record { highs = h.highs; middles = h.middles; lows = h.lows.1 };
    parts = λ c.
        rw (returned_one c low l h.lows.0)
          (elim c
            as (λ k.
              waiting k (view hs ms (l ∷ ls))
              ≡ only k low l ++ waiting k (record (view hs ms ls) { starved = st / 2 })) [
                | high ↦ refl
                | middle ↦ refl
                | low ↦ refl
              ]);
    fair = λ ne z. absurd (omega (arith, ap length (returned_one low low l h.lows.0)));
  }

  serve_middle-Served :
      (hs ms ls : List MuxPackager) (m : MuxPackager)
      → (ltb st max_starving ≡ true) ⊎ (ls ≡ [])
      → IsClassed (view hs (m ∷ ms) ls)
      → Served
          (view hs (m ∷ ms) ls)
          (record (view hs ms ls) { starved = more_starving st })
          (some m)
  serve_middle-Served hs ms ls m ok h = record {
    classed = record { highs = h.highs; middles = h.middles.1; lows = h.lows };
    parts = λ c.
        rw (returned_one c middle m h.middles.0)
          (elim c
            as (λ k.
              waiting k (view hs (m ∷ ms) ls)
              ≡ only k middle m
                ++ waiting k (record (view hs ms ls) { starved = more_starving st })) [
                  | high ↦ refl
                  | middle ↦ refl
                  | low ↦ refl
                ]);
    fair = λ ne z. elim ok [
      | inl few ↦ (
        refl,
        omega (
          arith,
          ltb→lt st max_starving few,
          ap length (returned_one middle middle m h.middles.0),
        ),
      )
      | inr e ↦ absurd (ne e)
    ];
  }

  serve-Served :
      (hs ms ls : List MuxPackager)
      → IsClassed (view hs ms ls)
      → ServedBy (view hs ms ls) (serve (view hs ms ls))
  serve-Served [] [] [] h = record {
    classed = h;
    parts = λ c. refl;
    fair = λ ne z. (refl, omega arith);
  }
  serve-Served [] [] (l ∷ ls) h = serve_low-Served [] [] ls l h
  serve-Served [] (m ∷ ms) [] h = elim (Bool-cases (ltb st max_starving)) [
    | inl few ↦ rw few (serve_middle-Served [] ms [] m (inr refl) h)
    | inr many ↦ rw many (serve_middle-Served [] ms [] m (inr refl) h)
  ]
  serve-Served [] (m ∷ ms) (l ∷ ls) h = elim (Bool-cases (ltb st max_starving)) [
    | inl few ↦ rw few (serve_middle-Served [] ms (l ∷ ls) m (inl few) h)
    | inr many ↦ rw many (serve_low-Served [] (m ∷ ms) ls l h)
  ]
  serve-Served (p ∷ hs) ms ls h = record {
    classed = record { highs = h.highs.1; middles = h.middles; lows = h.lows };
    parts = λ c.
        rw (returned_one c high p h.highs.0)
          (elim c
            as (λ k. waiting k (view (p ∷ hs) ms ls) ≡ only k high p ++ waiting k (view hs ms ls)) [
              | high ↦ refl
              | middle ↦ refl
              | low ↦ refl
            ]);
    fair = λ ne z. (refl, omega (arith, ap length (returned_one middle high p h.highs.0)));
  }

served : (v : View) → IsClassed v → ServedBy v (serve v)
served v h = serve-Served v.starved v.stopped v.highs v.middles v.lows h

returned-append :
    (c : Class) (val : Option MuxPackager) (outs : List (Option MuxPackager))
    → returned c (val ∷ outs) ≡ returned c (val ∷ []) ++ returned c outs
returned-append c none outs = refl
returned-append c (some p) outs = ground arith

waiting-put :
    (c : Class) (v : View) (p : MuxPackager)
    → waiting c (put v p) ≡ waiting c v ++ entered c (enter p ∷ [])
waiting-put c v p = go (class_of p.flag) refl c
  where
    go :
        (k : Class)
        → class_of p.flag ≡ k
        → (c : Class) → waiting c (put_in k v p) ≡ waiting c v ++ only c (class_of p.flag) p
    go high e high = rw e
    go high e middle = rw (e, append-nil)
    go high e low = rw (e, append-nil)
    go middle e high = rw (e, append-nil)
    go middle e middle = rw e
    go middle e low = rw (e, append-nil)
    go low e high = rw (e, append-nil)
    go low e middle = rw (e, append-nil)
    go low e low = rw e

entered-append :
    (c : Class) (p : MuxPackager) (ops : List Op)
    → entered c (enter p ∷ ops) ≡ entered c (enter p ∷ []) ++ entered c ops
entered-append c p ops = ground arith

run_view-fifo :
    (ops : List Op) (v : View) (c : Class)
    → IsClassed v
    → returned c (run_view ops v).1 ++ waiting c (run_view ops v).0 ≡ waiting c v ++ entered c ops
unfolding run_view
run_view-fifo [] v c h = sym (append-nil (waiting c v))
run_view-fifo (enter p ∷ ops) v c h =
    run_view-fifo ops (put v p) c (put-IsClassed v p h)
    ∙ ap (λ t. t ++ entered c ops) (waiting-put c v p)
    ∙ append_assoc (waiting c v) (entered c (enter p ∷ [])) (entered c ops)
    ∙ ap (λ t. waiting c v ++ t) (sym (entered-append c p ops))
run_view-fifo (leave ∷ ops) v c h =
    let (v', val) = serve v in
    let (w, outs) = run_view ops v' in
    let s = served v h in
    ap (λ t. t ++ waiting c w) (returned-append c val outs)
    ∙ append_assoc (returned c (val ∷ [])) (returned c outs) (waiting c w)
    ∙ ap (λ t. returned c (val ∷ []) ++ t) (run_view-fifo ops v' c s.classed)
    ∙ sym (append_assoc (returned c (val ∷ [])) (waiting c v') (entered c ops))
    ∙ ap (λ t. t ++ entered c ops) (sym (s.parts c))

-- A push leaves the counter alone, and content that waits goes on waiting.
put_keeps :
    (v : View) (p : MuxPackager)
    → v.lows ≢ []
    → ((put v p).starved ≡ v.starved) × ((put v p).lows ≢ [])
put_keeps v p ne = go (class_of p.flag)
  where
    go : (c : Class) → ((put_in c v p).starved ≡ v.starved) × ((put_in c v p).lows ≢ [])
    go high = (refl, ne)
    go middle = (refl, ne)
    go low = (refl, λ e. absurd (omega (arith, ap length e, length-append v.lows (p ∷ []))))

length-returned :
    (c : Class) (val : Option MuxPackager) (outs : List (Option MuxPackager))
    → length (returned c (val ∷ outs)) ≡ length (returned c (val ∷ [])) + length (returned c outs)
length-returned c val outs =
    ap length (returned-append c val outs) ∙ length-append (returned c (val ∷ [])) (returned c outs)

run_view-fair :
    (ops : List Op) (v : View)
    → IsClassed v
    → v.lows ≢ []
    → length (returned low (run_view ops v).1) ≡ 0
    → length (returned middle (run_view ops v).1) ≤ max_starving - v.starved
unfolding run_view
run_view-fair [] v h ne z = omega arith
run_view-fair (enter p ∷ ops) v h ne z =
    let (same_count, still) = put_keeps v p ne in
    omega (arith, same_count, run_view-fair ops (put v p) (put-IsClassed v p h) still z)
run_view-fair (leave ∷ ops) v h ne z =
    let (v', val) = serve v in
    let outs = (run_view ops v').1 in
    let s = served v h in
    let (none_low, none_later) = sum_zero (length-returned low val outs) z in
    let (kept, bound) = s.fair ne none_low in
    omega (
      arith,
      bound,
      length-returned middle val outs,
      run_view-fair ops v' s.classed (λ e. ne (sym kept ∙ e)) none_later,
    )

module _ (ops : List Op) (q : PriorityQueue) (v : View) (s : Shows q v) (h : IsClassed v) where
  -- In any run of pushes and TryPops on a queue that shows an abstract queue, no call fails, and
  -- for each class the messages returned and then those still waiting are those that waited and
  -- then those pushed.
  pub run-fifo :
      (c : Class)
      → (q' : PriorityQueue) × (outs : List (Option MuxPackager)) × (run ops q ≡ some (q', outs))
        × (v' : View) × Shows q' v'
        × (returned c outs ++ waiting c v' ≡ waiting c v ++ entered c ops)
  run-fifo c =
      let (q', e, s') = run-run_view ops q v s in
      (q', (run_view ops v).1, e, (run_view ops v).0, s', run_view-fifo ops v c h)

  -- While a message of the lowest class waits, a run returns one of that class, or at most eight of
  -- the middle class; it never fails.
  pub run-fair :
      v.lows ≢ []
      → (q' : PriorityQueue) × (outs : List (Option MuxPackager)) × (run ops q ≡ some (q', outs))
        × ((1 ≤ length (returned low outs)) ⊎ (length (returned middle outs) ≤ max_starving))
  run-fair ne =
      let (q', e, s') = run-run_view ops q v s in
      let outs = (run_view ops v).1 in
      (
        q',
        outs,
        e,
        elim (dec_lt 0 (length (returned low outs))) [
          | yes p ↦ inl p
          | no n ↦ inr (omega (arith, run_view-fair ops v h ne (omega arith)))
        ],
      )
