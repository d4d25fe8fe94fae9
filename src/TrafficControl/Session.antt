-- ===== src/TrafficControl/Session.antt =====
-- `RunNetRangeTest` against the list of commands and tests that it is to run.
use nps_mux.Base.{
  ℕ, ◌≡◌, refl, sym, ap, ◌∙◌, subst, ◌>>=◌, if◌then◌else◌, arith, Bool, true, false, some, List, [],
  ◌∷◌, ◌++◌, map, drop, All, Bool-cases, inl, inr,
}
use mathlib.Core.List.{append_assoc}
use Prim.Native.String.{String}
use nps_mux.TrafficControl.{
  TrafficControl, Event, command, test, Runner, run_tc, clear, del, apply_all, test_variable,
  range_loop, run_net_range_test,
}
use nps_mux.TrafficControl.Subsets.{choices, with_head, array_exhaustivity-choices}

abbrev pub flatten {ℓ} : {A : Type ℓ} → List (List A) → List A
flatten [] = []
flatten (xs ∷ xss) = xs ++ flatten xss

abbrev pub remove_command : String → Event
remove_command eth = command ("tc" ∷ "qdisc" ∷ "del" ∷ "dev" ∷ eth ∷ "root" ∷ [])

abbrev pub add_command : String → List String → Event
add_command eth words = command ("tc" ∷ "qdisc" ∷ "add" ∷ "dev" ∷ eth ∷ "root" ∷ "netem" ∷ words)

-- One test under the disturbances that `words` name.
abbrev pub one_test : String → List String → List Event
one_test eth words = remove_command eth ∷ add_command eth words ∷ test ∷ remove_command eth ∷ []

-- The disturbances, as netem reads them.
abbrev pub disturbances : List (List String)
disturbances =
    ("delay" ∷ "100ms" ∷ "10ms" ∷ "30%" ∷ [])
    ∷ ("loss" ∷ "1%" ∷ "30%" ∷ [])
    ∷ ("duplicate" ∷ "1%" ∷ [])
    ∷ ("corrupt" ∷ "0.2%" ∷ [])
    ∷ []

-- A test under each choice of disturbances but the empty one.
abbrev pub plan : String → List Event
plan eth = flatten (map (λ ws. one_test eth (flatten ws)) (drop 1 (choices disturbances)))

abbrev words_of : String → List (TrafficControl → TrafficControl) → List String
words_of eth v = (apply_all v (record { eth_name = eth; params = [] })).params

abbrev tests : String → List (List (TrafficControl → TrafficControl)) → List Event
tests eth vs = flatten (map (λ v. one_test eth (words_of eth v)) vs)

abbrev Stays : List (TrafficControl → TrafficControl) → Type 0
Stays v = (tc : TrafficControl) → (apply_all v tc).eth_name ≡ tc.eth_name

abbrev Leaves : (TrafficControl → TrafficControl) → Type 0
Leaves f = (tc : TrafficControl) → (f tc).eth_name ≡ tc.eth_name

with_head-Stays :
    (f : TrafficControl → TrafficControl) (vs : List (List (TrafficControl → TrafficControl)))
    → Leaves f
    → All Stays vs
    → All Stays (with_head f vs)
with_head-Stays f [] hf h = tt
with_head-Stays f (v ∷ vs) hf (h, hs) = (h, ((λ tc. h (f tc) ∙ hf tc), with_head-Stays f vs hf hs))

choices-Stays :
    (fs : List (TrafficControl → TrafficControl)) → All Leaves fs → All Stays (choices fs)
choices-Stays [] h = ((λ tc. refl), tt)
choices-Stays (f ∷ fs) (h, hs) = with_head-Stays f (choices fs) h (choices-Stays fs hs)

-- What the loop has done is the start of what it is to do, and all of it if there was no error.
abbrev Starts : List Event → TrafficControl × List Event × Bool → Type 0
Starts todo r =
    (tc : TrafficControl) × (done : List Event) × (fine : Bool) × (r ≡ (tc, done, fine))
    × (rest : List Event) × (done ++ rest ≡ todo)
    × (fine ≡ true → rest ≡ [])

module _ (eth : String) (words : List String) (out more : List Event) where
  abbrev removed_first : List Event
  removed_first = out ++ (remove_command eth ∷ [])

  abbrev added : List Event
  added = removed_first ++ (add_command eth words ∷ [])

  abbrev removed_again : List Event
  removed_again = (added ++ (test ∷ [])) ++ (remove_command eth ∷ [])

  added-append : added ++ (test ∷ remove_command eth ∷ more) ≡ out ++ (one_test eth words ++ more)
  added-append =
      append_assoc removed_first (add_command eth words ∷ []) (test ∷ remove_command eth ∷ more)
      ∙ append_assoc out (remove_command eth ∷ [])
          (add_command eth words ∷ test ∷ remove_command eth ∷ more)

  removed_again-append : removed_again ++ more ≡ out ++ (one_test eth words ++ more)
  removed_again-append =
      append_assoc (added ++ (test ∷ [])) (remove_command eth ∷ []) more
      ∙ append_assoc added (test ∷ []) (remove_command eth ∷ more)
      ∙ added-append

abbrev tc_of : String → List String → TrafficControl
tc_of n params = record { eth_name = n; params = params }

-- One round of the loop, where the card is named `e` before the disturbances are applied and `n` after.
round :
    Runner
    → List (List (TrafficControl → TrafficControl))
    → List Event
    → (e n : String) → List String
    → TrafficControl × List Event × Bool
round runs vs out e n words =
    let add = "qdisc" ∷ "add" ∷ "dev" ∷ n ∷ "root" ∷ "netem" ∷ words in
    let out₁ = out ++ (remove_command e ∷ []) in
    let out₂ = out₁ ++ (add_command n words ∷ []) in
    let tested = out₂ ++ (test ∷ []) in
    let out₃ = tested ++ (remove_command n ∷ []) in
    let rest = range_loop runs vs out₃ (tc_of n []) in
    if runs out₁ ("tc" ∷ add)
    then if runs tested ("tc" ∷ "qdisc" ∷ "del" ∷ "dev" ∷ n ∷ "root" ∷ [])
      then rest
      else (tc_of n [], out₃, false)
    else (tc_of n add, out₂, false)

round-Starts :
    (runs : Runner) (vs : List (List (TrafficControl → TrafficControl))) (out : List Event)
    (e : String) (words : List String)
    → Starts
        (removed_again e words out [] ++ tests e vs)
        (range_loop runs vs (removed_again e words out []) (tc_of e []))
    → Starts (out ++ (one_test e words ++ tests e vs)) (round runs vs out e e words)
unfolding round
round-Starts runs vs out e words (tc, done, fine, ran, rest, start, whole) =
    let more = tests e vs in
    let add = "qdisc" ∷ "add" ∷ "dev" ∷ e ∷ "root" ∷ "netem" ∷ words in
    elim (Bool-cases (runs (removed_first e words out more) ("tc" ∷ add))) [
      | inr failed ↦ (
        tc_of e add,
        added e words out more,
        false,
        rw failed refl,
        test ∷ remove_command e ∷ more,
        added-append e words out more,
        λ f. absurd (ground (arith, f)),
      )
      | inl started ↦
          elim (Bool-cases (
            runs (added e words out more ++ (test ∷ []))
              ("tc" ∷ "qdisc" ∷ "del" ∷ "dev" ∷ e ∷ "root" ∷ []))) [
                | inr kept ↦ (
                  tc_of e [],
                  removed_again e words out more,
                  false,
                  rw (started, kept) refl,
                  more,
                  removed_again-append e words out more,
                  λ f. absurd (ground (arith, f)),
                )
                | inl removed ↦ (
                  tc,
                  done,
                  fine,
                  rw (started, removed) ran,
                  rest,
                  start ∙ removed_again-append e words out more,
                  whole,
                )
              ]
    ]

range_loop-Starts :
    (runs : Runner) (vs : List (List (TrafficControl → TrafficControl))) (out : List Event)
    (tc : TrafficControl)
    → All Stays vs
    → Starts (out ++ tests tc.eth_name vs) (range_loop runs vs out tc)
unfolding range_loop del run_tc round
range_loop-Starts runs [] out tc h = (tc, out, true, refl, [], refl, λ fine. refl)
range_loop-Starts runs (v ∷ vs) out tc (h, hs) =
    let e = tc.eth_name in
    let words = words_of e v in
    let rest = range_loop-Starts runs vs (removed_again e words out []) (tc_of e []) hs in
    subst
      (λ (n : String).
        Starts (out ++ (one_test e words ++ tests e vs)) (round runs vs out e n words))
      (sym (h (clear tc))) (round-Starts runs vs out e words rest)

-- RunNetRangeTest, whichever of its commands fail, ends without an index out of range. What it does
-- is the start of the plan: under each choice of disturbances but the empty one, in order, the old
-- settings are removed, the chosen ones are set, the test runs, and they are removed again; and it
-- is the whole plan where it returns no error.
pub run_net_range_test-plan :
    (beyond : ℕ) (runs : Runner) (tc : TrafficControl)
    → (tc' : TrafficControl) × (done : List Event) × (fine : Bool) × (run_net_range_test beyond runs
          tc
        ≡ some (tc', done, fine))
      × (rest : List Event) × (done ++ rest ≡ plan tc.eth_name)
      × (fine ≡ true → rest ≡ [])
unfolding run_net_range_test
run_net_range_test-plan beyond runs tc =
    let (tc', done, fine, ran, rest, start, whole) =
      range_loop-Starts runs (drop 1 (choices test_variable)) [] tc
        (choices-Stays test_variable
          ((λ t. refl), ((λ t. refl), ((λ t. refl), ((λ t. refl), tt))))).1 in
    (
      tc',
      done,
      fine,
      ap (λ g. g >>= (λ groups. some (range_loop runs groups [] tc)))
            (array_exhaustivity-choices beyond test_variable (omega arith))
          ∙ ap some ran,
      rest,
      start,
      whole,
    )
