-- ===== src/Stream.antt =====
-- The parts of Go's standard library that netpackager.go stands on: slices of a byte array,
-- binary.LittleEndian, io.Writer and io.ReadFull.
use nps_mux.Base.{
  ℕ, zero, suc, ◌+◌, ◌-◌, ◌*◌, ◌/◌, ◌%◌, ◌^◌, ◌≤◌, ◌<◌, ◌≡◌, refl, ap, arith, Bool, Option, none,
  some, List, [], ◌∷◌, ◌++◌, length, length-append, take, drop, length-drop, take-append_left,
  drop-append_left, length-take, take-append-drop, leb, ◌⊎◌, inl, inr, if◌then◌else◌,
}
use native.Mathlib.Decide.{dec_le}
use native.Mathlib.Nat.{pow-suc, zero-add, suc-add}

-- A slice `s[0:len]` of a byte array; `cap(s)` is the array's length.
pub record Slice : Type 0 where
  pub arr : List ℕ
  pub len : ℕ

abbrev pub nil_slice : Slice
nil_slice = record { arr = []; len = 0 }

abbrev pub bytes : Slice → List ℕ
bytes s = take s.len s.arr

-- `s[:n]`; `none` is the panic of a slice beyond the capacity.
abbrev pub reslice : Slice → ℕ → Option Slice
reslice s n = if leb n (length s.arr) then some (record s { len = n }) else none

-- `copy(xs[i:], p)`: what does not fit is left out.
unfoldable pub put_at : List ℕ → ℕ → List ℕ → List ℕ
put_at [] i p = []
put_at (x ∷ xs) zero [] = x ∷ xs
put_at (x ∷ xs) zero (b ∷ p) = b ∷ put_at xs zero p
put_at (x ∷ xs) (suc i) p = x ∷ put_at xs i p

pub length-put_at : (xs : List ℕ) (i : ℕ) (p : List ℕ) → length (put_at xs i p) ≡ length xs
unfolding put_at
length-put_at [] i p = refl
length-put_at (x ∷ xs) zero [] = refl
length-put_at (x ∷ xs) zero (b ∷ p) = ap suc (length-put_at xs zero p)
length-put_at (x ∷ xs) (suc i) p = ap suc (length-put_at xs i p)

take-overwrite : (xs p : List ℕ) → length p ≤ length xs → take (length p) (put_at xs 0 p) ≡ p
unfolding put_at
take-overwrite [] [] h = refl
take-overwrite (x ∷ xs) [] h = refl
take-overwrite [] (b ∷ p) h = absurd (omega arith)
take-overwrite (x ∷ xs) (b ∷ p) h = ap (λ t. b ∷ t) (take-overwrite xs p (omega arith))

-- What is written at `i` follows what stood before `i`.
pub take-put_at :
    (xs : List ℕ) (i : ℕ) (p : List ℕ)
    → i + length p ≤ length xs
    → take (i + length p) (put_at xs i p) ≡ take i xs ++ p
unfolding put_at
take-put_at xs zero p h = rw zero-add (take-overwrite xs p (omega arith))
take-put_at [] (suc i) p h = absurd (omega arith)
take-put_at (x ∷ xs) (suc i) p h = rw suc-add (ap (λ t. x ∷ t) (take-put_at xs i p (omega arith)))

-- The same where the end of what is written is named.
pub take-put_at_end :
    (n : ℕ) (xs : List ℕ) (i : ℕ) (p : List ℕ)
    → i + length p ≡ n
    → n ≤ length xs
    → take n (put_at xs i p) ≡ take i xs ++ p
take-put_at_end n xs i p e h = rw (← e) (take-put_at xs i p (omega arith))

-- `xs[i:j]`
abbrev pub range : List ℕ → ℕ → ℕ → List ℕ
range xs i j = take (j - i) (drop i xs)

drop-put_at : (xs : List ℕ) (i : ℕ) (p : List ℕ) → drop i (put_at xs i p) ≡ put_at (drop i xs) 0 p
unfolding put_at
drop-put_at [] zero p = refl
drop-put_at [] (suc i) p = refl
drop-put_at (x ∷ xs) zero p = refl
drop-put_at (x ∷ xs) (suc i) p = drop-put_at xs i p

-- A field is read back from where it was written.
pub range-put_at :
    (xs : List ℕ) (i j : ℕ) (p : List ℕ)
    → i + length p ≡ j
    → j ≤ length xs
    → range (put_at xs i p) i j ≡ p
range-put_at xs i j p e h =
    let n : j - i ≡ length p = omega arith in
    rw (n, drop-put_at) (take-overwrite (drop i xs) p (omega (arith, length-drop i xs)))

-- `xs[i:j]` as the target of a write of `p`, and as a source; `none` is the panic beyond the capacity.
abbrev pub poke : Slice → ℕ → ℕ → List ℕ → Option Slice
poke s i j p = if leb j (length s.arr) then some (record s { arr = put_at s.arr i p }) else none

abbrev pub peek : Slice → ℕ → ℕ → Option (List ℕ)
peek s i j = if leb j (length s.arr) then some (range s.arr i j) else none

-- `LittleEndian.PutUint16`, `PutUint32` and `PutUint64` write 2, 4 and 8 bytes.
unfoldable pub le_bytes : ℕ → ℕ → List ℕ
le_bytes zero v = []
le_bytes (suc k) v = (v % 256) ∷ le_bytes k (v / 256)

unfoldable pub le_value : List ℕ → ℕ
le_value [] = 0
le_value (b ∷ bs) = b + 256 * le_value bs

pub length-le_bytes : (k v : ℕ) → length (le_bytes k v) ≡ k
unfolding le_bytes
length-le_bytes zero v = refl
length-le_bytes (suc k) v = ap suc (length-le_bytes k (v / 256))

-- A word of `k` bytes is read back from its bytes.
pub le_value-le_bytes : (k v : ℕ) → v < 256 ^ k → le_value (le_bytes k v) ≡ v
unfolding le_bytes le_value
le_value-le_bytes zero v h = omega arith
le_value-le_bytes (suc k) v h =
    omega (arith, pow-suc 256 k, le_value-le_bytes k (v / 256) (omega (arith, pow-suc 256 k)))

-- A connection that is written to: what it has sent, and how much more it takes before it breaks.
pub record Writer : Type 0 where
  pub sent : List ℕ
  pub room : ℕ

-- `writer.Write(p)`: the new state, and whether the call returned no error.
unfoldable pub write : Writer → List ℕ → Writer × Bool
write w p =
    if leb (length p) w.room
    then (record { sent = w.sent ++ p; room = w.room - length p }, Bool.true)
    else (record { sent = w.sent ++ take w.room p; room = 0 }, Bool.false)

pub data ReadError : Type 0 where
  eof unexpected_eof : ReadError

-- `io.ReadFull(reader, buf)` for a buffer of `n` bytes, on a connection that delivers the bytes of
-- the list and is closed then: the bytes read, those left, and the error.
unfoldable pub read_full : List ℕ → ℕ → List ℕ × List ℕ × Option ReadError
read_full src n =
    if leb n (length src)
    then (take n src, drop n src, none)
    else (src, [], some (elim src [ [] ↦ eof | _ ↦ unexpected_eof ]))

failure : List ℕ → ℕ → ReadError
failure src n = elim src [ [] ↦ eof | _ ↦ unexpected_eof ]

-- Enough bytes are there: `ReadFull` returns the first part of the stream.
pub read_full-append :
    (n : ℕ) (p rest : List ℕ) → length p ≡ n → read_full (p ++ rest) n ≡ (p, rest, none)
unfolding read_full
read_full-append n p rest e =
    ground (arith, length-append p rest, take-append_left n p rest e, drop-append_left n p rest e)

-- Too few bytes are there: `ReadFull` fails, having read them all.
pub read_full_short :
    (n : ℕ) (p : List ℕ) → length p < n → (e : ReadError) × (read_full p n ≡ (p, [], some e))
unfolding read_full
read_full_short n [] h = (eof, ground arith)
read_full_short n (b ∷ p) h = (unexpected_eof, ground arith)

-- `ReadFull` either delivers exactly `n` bytes from the front of the stream or fails at its end.
pub read_full_cases :
    (src : List ℕ) (n : ℕ)
    → ((got : List ℕ) × (rest : List ℕ) × (read_full src n ≡ (got, rest, none))
        × (length got ≡ n)
        × (got ++ rest ≡ src))
      ⊎ ((e : ReadError) × (read_full src n ≡ (src, [], some e)))
unfolding read_full
read_full_cases src n = elim (dec_le n (length src)) [
  | yes h ↦ inl (
    take n src,
    drop n src,
    ground arith,
    omega (arith, length-take n src),
    take-append-drop n src,
  )
  | no h ↦ inr (failure src n, unfold failure in ground arith)
]
