-- ===== src/TrafficControl.antt =====
-- tc.go, TrafficControl: the network tests under every choice of disturbances. The commands that it runs are
-- values; whether one succeeds is an argument. Looking up the network card is left out.
pub mod Subsets
pub mod Session
mod Tests
use nps_mux.Base.{
  ℕ, zero, suc, ◌+◌, ◌-◌, ◌/◌, ◌%◌, ◌^◌, Bool, true, false, Option, none, some, ◌>>=◌, List, [],
  ◌∷◌, ◌++◌, length, get_elem?, ◌==◌, ltb, if◌then◌else◌,
}
use Prim.Native.String.{String}

-- The inner loop of `getArrayExhaustivity`, from bit `k` on; the fuel is the number itself and one more.
-- `none` is an index out of range.
bits_loop {ℓ} : {A : Type ℓ} → ℕ → List A → ℕ → ℕ → List A → Option (List A)
bits_loop zero arr s k t = none
bits_loop (suc fuel) arr s k t = if s == 0 then some t else (do
  t' ← if s % 2 == 1 then (do f ← get_elem? arr k; some (t ++ (f ∷ []))) else some t
  bits_loop fuel arr (s / 2) (k + 1) t')

-- The outer loop, for `left` more numbers from `i` on.
groups_loop {ℓ} : {A : Type ℓ} → ℕ → List A → ℕ → List (List A) → Option (List (List A))
groups_loop zero arr i result = some result
groups_loop (suc left) arr i result = do
  t ← bits_loop (suc i) arr i 0 []
  groups_loop left arr (i + 1) (result ++ (t ∷ []))

-- `int(math.Pow(2, n) - 1)` on an int of 64 bits. A float64 has 53 bits, so that from 54 on the difference
-- is rounded to the power; from 63 on that does not fit, and `beyond` is what the machine makes of it.
group_count : ℕ → ℕ → ℕ
group_count beyond n = if ltb n 54 then 2 ^ n - 1 else if ltb n 63 then 2 ^ n else beyond

-- `getArrayExhaustivity`
unfoldable pub array_exhaustivity {ℓ} : {A : Type ℓ} → ℕ → List A → Option (List (List A))
unfolding groups_loop bits_loop group_count
array_exhaustivity beyond arr = groups_loop (group_count beyond (length arr)) arr 1 []

pub record TrafficControl : Type 0 where
  pub eth_name : String
  pub params : List String

-- `delay`, `loss`, `duplicate` and `corrupt`; their argument `opt` is not used.
abbrev pub delay : TrafficControl → String → String → String → TrafficControl
delay tc val wave ratio = record tc { params = tc.params ++ ("delay" ∷ val ∷ wave ∷ ratio ∷ []) }

abbrev pub loss : TrafficControl → String → String → TrafficControl
loss tc ratio success = record tc { params = tc.params ++ ("loss" ∷ ratio ∷ success ∷ []) }

abbrev pub duplicate : TrafficControl → String → TrafficControl
duplicate tc ratio = record tc { params = tc.params ++ ("duplicate" ∷ ratio ∷ []) }

abbrev pub corrupt : TrafficControl → String → TrafficControl
corrupt tc ratio = record tc { params = tc.params ++ ("corrupt" ∷ ratio ∷ []) }

-- `getTestVariable`
abbrev pub test_variable : List (TrafficControl → TrafficControl)
test_variable =
    (λ tc. delay tc "100ms" "10ms" "30%")
    ∷ (λ tc. loss tc "1%" "30%")
    ∷ (λ tc. duplicate tc "1%")
    ∷ (λ tc. corrupt tc "0.2%")
    ∷ []

-- What happens outside: a command, or a run of the test function.
pub data Event : Type 0 where
  command : List String → Event
  test : Event

-- Whether a command succeeds, after what has happened.
abbrev pub Runner : Type 0
Runner = List Event → List String → Bool

-- `runCmd`: the events, and whether it succeeded.
abbrev pub run_cmd : Runner → List Event → List String → List Event × Bool
run_cmd runs out args = (out ++ (command args ∷ []), runs out args)

-- `Run`
unfoldable pub run_tc : Runner → List Event → TrafficControl → TrafficControl × List Event × Bool
run_tc runs out tc =
    let tc' = record tc {
      params = ("qdisc" ∷ "add" ∷ "dev" ∷ tc.eth_name ∷ "root" ∷ "netem" ∷ []) ++ tc.params;
    } in
    let (out', done) = run_cmd runs out ("tc" ∷ tc'.params) in (tc', out', done)

-- `clear` and `del`
abbrev pub clear : TrafficControl → TrafficControl
clear tc = record tc { params = [] }

unfoldable pub del : Runner → List Event → TrafficControl → TrafficControl × List Event × Bool
del runs out tc =
    let tc' = clear tc in
    let (out', done) =
      run_cmd runs out ("tc" ∷ "qdisc" ∷ "del" ∷ "dev" ∷ tc'.eth_name ∷ "root" ∷ []) in
    (tc', out', done)

abbrev pub apply_all : List (TrafficControl → TrafficControl) → TrafficControl → TrafficControl
apply_all [] tc = tc
apply_all (f ∷ fs) tc = apply_all fs (f tc)

-- The loop of `RunNetRangeTest`: the events, and whether it ended without an error.
range_loop :
    Runner
    → List (List (TrafficControl → TrafficControl))
    → List Event
    → TrafficControl
    → TrafficControl × List Event × Bool
range_loop runs [] out tc = (tc, out, true)
range_loop runs (v ∷ vs) out tc =
    let (tc₁, out₁, _) = del runs out tc in
    let (tc₂, out₂, started) = run_tc runs out₁ (apply_all v tc₁) in
    let (tc₃, out₃, removed) = del runs (out₂ ++ (test ∷ [])) tc₂ in
    let rest = range_loop runs vs out₃ tc₃ in
    if started then if removed then rest else (tc₃, out₃, false) else (tc₂, out₂, false)

-- `RunNetRangeTest`
unfoldable pub run_net_range_test :
    ℕ → Runner → TrafficControl → Option (TrafficControl × List Event × Bool)
unfolding range_loop del run_tc
run_net_range_test beyond runs tc = do
  groups ← array_exhaustivity beyond test_variable
  some (range_loop runs groups [] tc)
