-- ===== src/ReceiveQueue/Runs.antt =====
-- Any sequence of pushes and `TryPop`s on the queue of received bytes.
use nps_mux.Base.{
  ◌+◌, ◌<◌, ◌^◌, ◌≡◌, refl, sym, ap, ◌∙◌, arith, Bool, false, Option, none, some, ◌>>=◌, List, [],
  ◌∷◌, ◌++◌,
}
use mathlib.Core.List.{append_assoc, append-nil}
use nps_mux.ReceiveQueue.{ListElement, ReceiveQueue, receive_push, receive_try_pop, receive_len}
use nps_mux.ReceiveQueue.Count.{
  total, total-append, Counts, receive_len-total, receive_push-Counts, receive_try_pop-cons,
  receive_try_pop-nil,
}

pub data Call : Type 0 where
  arrives : ListElement → Call
  reads : Call

-- The calls on the code, and what each `TryPop` returns.
pub run_calls : List Call → ReceiveQueue → Option (ReceiveQueue × List (Option ListElement))
run_calls [] q = some (q, [])
run_calls (arrives e ∷ cs) q = do (q', waited) ← receive_push [] q e; run_calls cs q'
run_calls (reads ∷ cs) q = do
  (q', val) ← receive_try_pop q
  (q'', answers) ← run_calls cs q'
  some (q'', val ∷ answers)

-- The same calls on a list of elements, which has no bound and cannot fail: what each `TryPop` returns, and
-- what is left.
abbrev pub answered : List Call → List ListElement → List (Option ListElement)
answered [] xs = []
answered (arrives e ∷ cs) xs = answered cs (xs ++ (e ∷ []))
answered (reads ∷ cs) [] = none ∷ answered cs []
answered (reads ∷ cs) (x ∷ xs) = some x ∷ answered cs xs

abbrev pub waiting : List Call → List ListElement → List ListElement
waiting [] xs = xs
waiting (arrives e ∷ cs) xs = waiting cs (xs ++ (e ∷ []))
waiting (reads ∷ cs) [] = waiting cs []
waiting (reads ∷ cs) (x ∷ xs) = waiting cs xs

abbrev pub obtained : List (Option ListElement) → List ListElement
obtained [] = []
obtained (none ∷ vs) = obtained vs
obtained (some e ∷ vs) = e ∷ obtained vs

abbrev pub arrived : List Call → List ListElement
arrived [] = []
arrived (arrives e ∷ cs) = e ∷ arrived cs
arrived (reads ∷ cs) = arrived cs

-- What is obtained and what is left are what was there and what arrives, in order.
obtained-waiting :
    (cs : List Call) (xs : List ListElement)
    → obtained (answered cs xs) ++ waiting cs xs ≡ xs ++ arrived cs
obtained-waiting [] xs = sym (append-nil xs)
obtained-waiting (arrives e ∷ cs) xs =
    obtained-waiting cs (xs ++ (e ∷ [])) ∙ append_assoc xs (e ∷ []) (arrived cs)
obtained-waiting (reads ∷ cs) [] = obtained-waiting cs []
obtained-waiting (reads ∷ cs) (x ∷ xs) = ap (λ t. x ∷ t) (obtained-waiting cs xs)

-- What a run comes to.
Ends : List Call → ReceiveQueue → List ListElement → Type 0
Ends cs q xs =
    (q' : ReceiveQueue) × (run_calls cs q ≡ some (q', answered cs xs))
    × (b : Bool) × Counts q' (waiting cs xs) b

ends :
    (cs : List Call) (q : ReceiveQueue) (xs : List ListElement) (b : Bool)
    → Counts q xs b
    → total xs + total (arrived cs) < 2 ^ 32
    → Ends cs q xs
unfolding Ends run_calls
ends [] q xs b h room = (q, refl, b, h)
ends (arrives e ∷ cs) q xs b h room =
    let (q₁, eq, h₁) = receive_push-Counts q xs b h e (omega arith) in
    let (q₂, eq', b', h₂) =
      ends cs q₁ (xs ++ (e ∷ [])) false h₁ (omega (arith, total-append xs (e ∷ []))) in
    (q₂, ground (arith, eq, eq'), b', h₂)
ends (reads ∷ cs) q [] b h room =
    let (q₁, eq, h₁) = receive_try_pop-nil q b h in
    let (q₂, eq', b', h₂) = ends cs q₁ [] b h₁ room in (q₂, ground (arith, eq, eq'), b', h₂)
ends (reads ∷ cs) q (e ∷ xs) b h room =
    let (q₁, eq, h₁) = receive_try_pop-cons q e xs b h in
    let (q₂, eq', b', h₂) = ends cs q₁ xs b h₁ (omega arith) in
    (q₂, ground (arith, eq, eq'), b', h₂)

-- In any run of pushes and TryPops, of less than 2^32 bytes in all, no call fails; each TryPop
-- returns what it does on a list of elements, the oldest one that waits or nil if none does; the
-- queue then holds what is left in that list, and Len is its bytes; and what was obtained and what
-- is left are what was there and what arrived, in order.
pub run_calls-fifo :
    (cs : List Call) (q : ReceiveQueue) (xs : List ListElement) (b : Bool)
    → Counts q xs b
    → total xs + total (arrived cs) < 2 ^ 32
    → (q' : ReceiveQueue) × (run_calls cs q ≡ some (q', answered cs xs))
      × (b' : Bool) × Counts q' (waiting cs xs) b'
      × (receive_len q' ≡ total (waiting cs xs))
      × (obtained (answered cs xs) ++ waiting cs xs ≡ xs ++ arrived cs)
unfolding Ends
run_calls-fifo cs q xs b h room =
    let (q', eq, b', h') = ends cs q xs b h room in
    (q', eq, b', h', receive_len-total q' (waiting cs xs) b' h', obtained-waiting cs xs)
