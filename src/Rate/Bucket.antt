-- ===== src/Rate/Bucket.antt =====
-- How much the bucket lets through.
use nps_mux.Base.{
  ℕ, ◌+◌, ◌-◌, ◌*◌, ◌≤◌, ◌≡◌, arith, none, some, List, [], ◌∷◌, Option-cases, inl, inr, ap,
}
use native.Mathlib.Nat.{suc-mul}
use nps_mux.Rate.{Rate, add, try_get, get, session_tick}

-- What happens to a rate: a tick of the session, a `Get` that finds enough, a `Get` that waits.
pub data Event : Type 0 where
  ticks : Event
  gets : ℕ → Event

-- The rate after some events, and the bytes that were let through.
abbrev pub run_rate : List Event → Rate → Rate × ℕ
run_rate [] s = (s, 0)
run_rate (ticks ∷ es) s = run_rate es (session_tick s)
run_rate (gets size ∷ es) s = elim (try_get s size) [
  | none ↦ run_rate es s
  | some s' ↦ let (s'', n) = run_rate es s' in (s'', size + n)
]

abbrev pub count_ticks : List Event → ℕ
count_ticks [] = 0
count_ticks (ticks ∷ es) = 1 + count_ticks es
count_ticks (gets size ∷ es) = count_ticks es

suc_mul : (n a : ℕ) → (1 + n) * a ≡ a + n * a
suc_mul n a = omega (arith, suc-mul n a)

tick_lem :
    (s : Rate)
    → s.bucket_size ≡ s.bucket_add_size * 2
    → s.bucket_surplus_size ≤ s.bucket_size
    → ((session_tick s).bucket_size ≡ s.bucket_size)
      × ((session_tick s).bucket_add_size ≡ s.bucket_add_size)
      × ((session_tick s).bucket_surplus_size ≤ s.bucket_surplus_size + s.bucket_add_size)
      × ((session_tick s).bucket_surplus_size ≤ s.bucket_size)
unfolding session_tick add
tick_lem s sized inside = ground (arith, sized, inside)

-- In any run of ticks and Gets, from a bucket of twice the rate that is not overfull, the bytes let
-- through and those left in the bucket are at most those in it at the start and one rate for each
-- tick, and the bucket is never overfull.
pub run_rate-bounds :
    (es : List Event) (s : Rate)
    → s.bucket_size ≡ s.bucket_add_size * 2
    → s.bucket_surplus_size ≤ s.bucket_size
    → ((run_rate es s).1 + (run_rate es s).0.bucket_surplus_size
        ≤ s.bucket_surplus_size + count_ticks es * s.bucket_add_size)
      × ((run_rate es s).0.bucket_surplus_size ≤ s.bucket_size)
unfolding session_tick add try_get
run_rate-bounds [] s sized inside = omega (arith, inside)
run_rate-bounds (ticks ∷ es) s sized inside =
    let (size', add', le, le') = tick_lem s sized inside in
    let (bound, kept) =
      run_rate-bounds es (session_tick s) (ground (arith, size', add', sized))
        (omega (arith, size', le')) in
    (
      omega (
        arith,
        bound,
        le,
        suc_mul (count_ticks es) s.bucket_add_size,
        ap (λ (t : ℕ). count_ticks es * t) add',
      ),
      omega (arith, kept, size'),
    )
run_rate-bounds (gets size ∷ es) s sized inside = elim (Option-cases (try_get s size)) [
  | inl waits ↦ ground (arith, waits, run_rate-bounds es s sized inside)
  | inr (s', served) ↦
      let taken : s' ≡ record s { bucket_surplus_size = s.bucket_surplus_size - size } =
        ground (arith, served) in
      let enough : size ≤ s.bucket_surplus_size = ground (arith, served) in
      let (bound, kept) =
        run_rate-bounds es (record s { bucket_surplus_size = s.bucket_surplus_size - size }) sized
          (omega (arith, inside)) in
      ground (arith, served, taken, enough, bound, kept)
]

tick_fills :
    (s : Rate) (size : ℕ)
    → s.bucket_size ≡ s.bucket_add_size * 2
    → size ≤ s.bucket_add_size
    → size ≤ (session_tick s).bucket_surplus_size
unfolding session_tick add
tick_fills s size sized small = ground (arith, sized, small)

try_get_enough :
    (s : Rate) (size : ℕ) → size ≤ s.bucket_surplus_size → (s' : Rate) × (try_get s size ≡ some s')
unfolding try_get
try_get_enough s size enough =
    (record s { bucket_surplus_size = s.bucket_surplus_size - size }, ground (arith, enough))

-- A Get of at most one rate returns after one tick of the session at the latest, whatever the
-- bucket holds.
pub get-one_tick :
    (s : Rate) (size : ℕ)
    → s.bucket_size ≡ s.bucket_add_size * 2
    → size ≤ s.bucket_add_size
    → (s' : Rate) × (get (session_tick ∷ []) s size ≡ some s')
unfolding get
get-one_tick s size sized small = elim (Option-cases (try_get s size)) [
  | inl waits ↦
      let (s', served) = try_get_enough (session_tick s) size (tick_fills s size sized small) in
      (s', ground (arith, waits, served))
  | inr (s', served) ↦ (s', ground (arith, served))
]
