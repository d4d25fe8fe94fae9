-- ===== src/Latency/Tests.antt =====
-- A counter of whole numbers.
use nps_mux.Base.{ℕ, ◌+◌, ◌-◌, ◌*◌, ◌/◌, ◌%◌, ◌<◌, ◌≡◌, refl, some, length, set, ltb}
use nps_mux.Latency.{Numbers, LatencyCounter, new_latency_counter, add_latency, unpack_counter}
use nps_mux.Latency.Ring.{add_latency-ring}

abbrev whole : Numbers
whole = record {
  F = ℕ;
  T = ℕ;
  nought = 0;
  less = ltb;
  plus = λ a b. a + b;
  triple = λ a. 3 * a;
  since = λ a b. a - b;
  per = λ n f. n / f;
  over = λ f n. f / n;
}

abbrev turned : LatencyCounter ℕ
turned = record (new_latency_counter whole) { head_min = 242 }

add_latency-ring_example :
    (c : LatencyCounter ℕ) × (add_latency whole turned 7 ≡ some c)
    × (c.buf ≡ set turned.buf (unpack_counter 242).0 7)
    × (length c.buf ≡ 16)
    × ((unpack_counter c.head_min).0 ≡ ((unpack_counter 242).0 + 1) % 16)
    × ((unpack_counter c.head_min).1 < 16)
add_latency-ring_example = add_latency-ring whole turned 7 refl
