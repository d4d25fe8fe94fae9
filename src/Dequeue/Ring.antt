-- ===== src/Dequeue/Ring.antt =====
-- The packed indices as a pair of numbers, and positions in a ring whose size is a power of two.
use nps_mux.Base.{
  ℕ, zero, suc, ◌+◌, ◌-◌, ◌*◌, ◌/◌, ◌%◌, ◌^◌, ◌≤◌, ◌<◌, bit_and, ◌≡◌, ◌≢◌, sym, ap, ◌∙◌, arith,
  bit_and_mask, bit_or_fields,
}
use native.Mathlib.Nat.{
  pow-suc, mod-add-mod, mod-eq_of_lt, mod-eq-sub-mod, zero-add, suc-add, add-mul-mod_self_left,
  div-add-mod, mod-lt,
}
use native.Mathlib.Decide.{dec_lt}
use nps_mux.Dequeue.{unpack, pack, advance_tail}

abbrev pub IsIndex : ℕ → Type 0
IsIndex i = i < 2 ^ 32

-- `pack` puts the head above the tail.
pub pack_lem : (h t : ℕ) → IsIndex h → IsIndex t → pack h t ≡ h * 2 ^ 32 + t
unfolding pack
pack_lem h t hh ht =
    let e : h * 2 ^ 32 % 2 ^ 64 ≡ h * 2 ^ 32 = omega arith in
    let m : bit_and t (2 ^ 32 - 1) ≡ t = omega (arith, bit_and_mask 32 t) in
    rw (e, m) (bit_or_fields 32 h t ht)

-- A head and a tail of 32 bits each are unpacked from the word that packs them.
pub unpack-pack : (h t : ℕ) → IsIndex h → IsIndex t → unpack (pack h t) ≡ (h, t)
unfolding unpack
unpack-pack h t hh ht =
    ground (arith, pack_lem h t, bit_and_mask 32 (pack h t / 2 ^ 32), bit_and_mask 32 (pack h t))

-- The addition that ends popTail moves the tail by one modulo 2^32 and leaves the head alone, also
-- where the tail is the largest uint32.
pub advance_tail-pack :
    (h t : ℕ) → IsIndex h → IsIndex t → advance_tail (pack h t) t ≡ pack h ((t + 1) % 2 ^ 32)
unfolding advance_tail
advance_tail-pack h t hh ht = ground (arith, pack_lem h t, pack_lem h ((t + 1) % 2 ^ 32))

pow_add : (d k : ℕ) → 2 ^ (d + k) ≡ 2 ^ d * 2 ^ k
pow_add zero k = rw zero-add (omega arith)
pow_add (suc d) k = rw suc-add (
    omega
      (arith, pow-suc 2 (d + k), pow-suc 2 d, pow_add d k, ap (λ (t : ℕ). t * 2 ^ k) (pow-suc 2 d)))

mod_of_mul : (x n c m : ℕ) → n ≡ c * m → x % n % m ≡ x % m
mod_of_mul x n c m e =
    sym (add-mul-mod_self_left (x % n) m (c * (x / n)))
    ∙ ap (λ (t : ℕ). t % m) (omega (arith, div-add-mod x n, ap (λ (t : ℕ). t * (x / n)) e))

-- Reducing an index modulo 2^32 first does not change its slot.
pub index-mod : (k x : ℕ) → k ≤ 32 → x % 2 ^ 32 % 2 ^ k ≡ x % 2 ^ k
index-mod k x h = mod_of_mul x (2 ^ 32) (2 ^ (32 - k)) (2 ^ k) (whole)
  where
    whole : 2 ^ 32 ≡ 2 ^ (32 - k) * 2 ^ k
    whole = let e : 32 ≡ 32 - k + k = omega arith in ap (λ (n : ℕ). 2 ^ n) e ∙ pow_add (32 - k) k

-- A position of the ring: below the size, a sum that wraps at most once.
pub wrap_once : (m r i : ℕ) → r < m → i ≤ m → m ≤ r + i → (r + i) % m ≡ r + i - m
wrap_once m r i hr hi h = mod-eq-sub-mod h ∙ mod-eq_of_lt (omega arith)

-- Two positions at different distances from the tail are different.
pub position-ne : (m t i j : ℕ) → i < m → j < m → i ≢ j → (t + i) % m ≢ (t + j) % m
position-ne m t i j hi hj ne e = elim (dec_lt r_i m) [
  | yes p ↦ elim (dec_lt r_j m) [
    | yes q ↦ ne (omega (arith, e', mod-eq_of_lt p, mod-eq_of_lt q))
    | no q ↦
        ne (
          omega
            (arith, e', mod-eq_of_lt p, wrap_once m (t % m) j below (omega arith) (omega arith)))
  ]
  | no p ↦ elim (dec_lt r_j m) [
    | yes q ↦
        ne (
          omega
            (arith, e', mod-eq_of_lt q, wrap_once m (t % m) i below (omega arith) (omega arith)))
    | no q ↦ ne (
        omega (
          arith,
          e',
          wrap_once m (t % m) i below (omega arith) (omega arith),
          wrap_once m (t % m) j below (omega arith) (omega arith),
        ))
  ]
]
  where
    r_i : ℕ
    r_i = t % m + i

    r_j : ℕ
    r_j = t % m + j

    below : t % m < m
    below = mod-lt t (omega arith)

    e' : r_i % m ≡ r_j % m
    e' = mod-add-mod t m i ∙ e ∙ sym (mod-add-mod t m j)
