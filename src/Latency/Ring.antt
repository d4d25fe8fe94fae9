-- ===== src/Latency/Ring.antt =====
-- The ring of the last latencies.
use nps_mux.Base.{
  ℕ, zero, suc, ◌+◌, ◌%◌, ◌≤◌, ◌<◌, ◌≡◌, refl, ap, ◌∙◌, arith, Bool, true, false, ◌&&◌, some, List,
  [], ◌∷◌, length, length-set, length-take, get_elem?, set, take, ◌==◌, if◌then◌else◌, Bool-cases,
  inl, inr,
}
use nps_mux.Latency.{
  Numbers, LatencyCounter, counter_mask, unpack_counter, pack_counter, minimal_loop, minimal,
  add_latency,
}

unpack-pack_counter :
    (head min : ℕ)
    → head < 16
    → min < 16
    → unpack_counter (pack_counter (head + 1) min) ≡ ((head + 1) % 16, min)
unfolding unpack_counter pack_counter
unpack-pack_counter head min h h' = ground arith

unpack_counter-lt : (idxs : ℕ) → ((unpack_counter idxs).0 < 16) × ((unpack_counter idxs).1 < 16)
unfolding unpack_counter
unpack_counter-lt idxs = omega arith

choice_lt : (b : Bool) (x y n : ℕ) → x < n → y < n → (if b then x else y) < n
choice_lt true x y n h h' = h
choice_lt false x y n h h' = h'

module _ {ℓ} {A : Type ℓ} where
  get_elem?-some : (xs : List A) (i : ℕ) → i < length xs → (x : A) × (get_elem? xs i ≡ some x)
  get_elem?-some [] i h = absurd (omega arith)
  get_elem?-some (x ∷ xs) zero h = (x, refl)
  get_elem?-some (x ∷ xs) (suc i) h = get_elem?-some xs i (omega arith)

module _ (k : Numbers) where
  minimal_loop-le :
      (xs : List k.F) (i : ℕ) (val : k.F) (min n : ℕ)
      → min < n
      → i + length xs ≤ n
      → minimal_loop k xs i val min < n
  minimal_loop-le [] i val min n h h' = h
  minimal_loop-le (x ∷ xs) i val min n h h' =
      elim (Bool-cases (k.less k.nought x && k.less x val)) [
        | inl smaller ↦
            ground (arith, smaller, minimal_loop-le xs (i + 1) x i n (omega arith) (omega arith))
        | inr other ↦ ground (arith, other, minimal_loop-le xs (i + 1) val min n h (omega arith))
      ]

  -- Adding a latency to a ring of 16 slots never panics: it replaces the value of the slot at the
  -- head alone, the head moves on by one modulo 16, and the slot marked as the least stays inside
  -- the ring.
  pub add_latency-ring :
      (c : LatencyCounter k.F) (value : k.F)
      → length c.buf ≡ 16
      → (c' : LatencyCounter k.F) × (add_latency k c value ≡ some c')
        × (c'.buf ≡ set c.buf (unpack_counter c.head_min).0 value)
        × (length c'.buf ≡ 16)
        × ((unpack_counter c'.head_min).0 ≡ ((unpack_counter c.head_min).0 + 1) % 16)
        × ((unpack_counter c'.head_min).1 < 16)
  unfolding add_latency
  add_latency-ring c value sized =
      let (head_fits, min_fits) = unpack_counter-lt c.head_min in
      let head = (unpack_counter c.head_min).0 in
      let min = (unpack_counter c.head_min).1 in
      let buf = set c.buf head value in
      let long : length buf ≡ 16 = length-set c.buf head value ∙ sized in
      let first =
        minimal_loop-le (take counter_mask buf) 0 k.nought 0 16 (omega arith)
          (omega (arith, length-take counter_mask buf)) in
      let min₁ = if head == min then minimal k buf else min in
      let fits₁ = choice_lt (head == min) (minimal k buf) min 16 first min_fits in
      let (old, there) = get_elem?-some c.buf head (omega (arith, sized, head_fits)) in
      let (least, found) = get_elem?-some buf min₁ (omega (arith, long, fits₁)) in
      let min₂ = if k.less value least then head else min₁ in
      let fits₂ = choice_lt (k.less value least) head min₁ 16 head_fits fits₁ in
      let parts = unpack-pack_counter head min₂ head_fits fits₂ in
      (
        record { buf = buf; head_min = pack_counter (head + 1) min₂ },
        rw (there, found) refl,
        refl,
        long,
        ap (λ (t : ℕ × ℕ). t.0) parts,
        omega (arith, ap (λ (t : ℕ × ℕ). t.1) parts, fits₂),
      )
