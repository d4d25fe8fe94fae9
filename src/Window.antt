-- ===== src/Window.antt =====
-- conn.go, window: the packed word of a window's size, its count of bytes and its wait flag.
pub mod Word
use nps_mux.Base.{
  ℕ, ◌+◌, ◌-◌, ◌*◌, ◌/◌, ◌%◌, ◌^◌, bit_and, bit_or, Bool, true, false, ◌==◌, if◌then◌else◌,
}
use nps_mux.Dequeue.{dequeue_bits}

abbrev pub window_bits : ℕ
window_bits = 31

abbrev pub wait_bits : ℕ
wait_bits = dequeue_bits + window_bits

abbrev pub mask1 : ℕ
mask1 = 1

abbrev pub mask31 : ℕ
mask31 = 2 ^ window_bits - 1

-- `maxSize`, `done` and `wait` of a word
unfoldable pub window_unpack : ℕ → ℕ × ℕ × Bool
window_unpack ptrs = (
  bit_and (ptrs / 2 ^ dequeue_bits) mask31,
  bit_and ptrs mask31,
  bit_and (ptrs / 2 ^ wait_bits) mask1 == 1,
)

-- `wait<<63 | (maxSize&mask31)<<32 | done&mask31`
unfoldable pub window_pack : ℕ → ℕ → Bool → ℕ
window_pack max_size done wait =
    bit_or
      (bit_or ((if wait then 1 else 0) * 2 ^ wait_bits)
        (bit_and max_size mask31 * 2 ^ dequeue_bits))
      (bit_and done mask31)
