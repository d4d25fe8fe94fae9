-- ===== src/Rate.antt =====
-- rate.go: a bucket that a ticker fills and readers and writers empty. The connection behind `Conn` is a
-- parameter. The sizes are not negative, and below 2^62, so that the int64 do not wrap.
pub mod Bucket
mod Tests
use nps_mux.Base.{
  ℕ, zero, suc, ◌+◌, ◌-◌, ◌*◌, Bool, true, false, Option, none, some, ◌>>=◌, List, [], ◌∷◌, ltb,
  leb, if◌then◌else◌,
}

-- An int64, for `NowRate`, which may be negative.
pub data ℤ : Type 0 where
  pos negsuc : ℕ → ℤ

abbrev pub minus : ℕ → ℕ → ℤ
minus a b = if leb b a then pos (a - b) else negsuc (b - a - 1)

pub record Rate : Type 0 where
  pub bucket_size : ℕ
  pub bucket_surplus_size : ℕ
  pub bucket_add_size : ℕ
  pub now_rate : ℤ

-- `NewRate`
abbrev pub new_rate : ℕ → Rate
new_rate add_size = record {
  bucket_size = add_size * 2;
  bucket_surplus_size = 0;
  bucket_add_size = add_size;
  now_rate = pos 0;
}

-- `add`; `res < bucketAddSize` is `bucketSize < bucketSurplusSize + bucketAddSize`, also where `res` is
-- negative, and to add `res` is to fill the bucket.
unfoldable pub add : Rate → ℕ → Rate
add s size =
    if ltb s.bucket_size (s.bucket_surplus_size + s.bucket_add_size)
    then record s { bucket_surplus_size = s.bucket_size }
    else record s { bucket_surplus_size = s.bucket_surplus_size + size }

-- `ReturnBucket`
abbrev pub return_bucket : Rate → ℕ → Rate
return_bucket = add

-- One attempt of `Get`.
unfoldable pub try_get : Rate → ℕ → Option Rate
try_get s size =
    if leb size s.bucket_surplus_size
    then some (record s { bucket_surplus_size = s.bucket_surplus_size - size })
    else none

-- `Get`: what the others do until each tick of its ticker; `none`: it still waits after all of them.
unfoldable pub get : List (Rate → Rate) → Rate → ℕ → Option Rate
get [] s size = try_get s size
get (other ∷ others) s size =
    let rest = get others (other s) size in
    elim (try_get s size) [ some s' ↦ some s' | none ↦ rest ]

-- A tick of `session`
unfoldable pub session_tick : Rate → Rate
session_tick s =
    let rate =
      if ltb s.bucket_surplus_size s.bucket_add_size
      then minus s.bucket_add_size s.bucket_surplus_size
      else minus s.bucket_size s.bucket_surplus_size in
    add (record s { now_rate = rate }) s.bucket_add_size

-- `Conn.Read` and `Conn.Write` for the call `inner` of the connection, which gives its state, the count and
-- the error.
abbrev pub limited_call {ℓ κ} :
    {A : Type ℓ} {E : Type κ}
    → (A → A × ℕ × Option E)
    → List (Rate → Rate)
    → Rate
    → A
    → Option (Rate × A × ℕ × Option E)
limited_call inner others s conn =
    let (conn', n, err) = inner conn in do s' ← get others s n; some (s', conn', n, err)
