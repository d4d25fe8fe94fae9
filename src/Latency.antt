-- ===== src/Latency.antt =====
-- mux.go, latencyCounter and bandwidth, and conn.go, writeBandwidth. Floating-point numbers and points in
-- time are parameters.
pub mod Ring
mod Tests
use nps_mux.Base.{
  ℕ, zero, suc, ◌+◌, ◌-◌, ◌*◌, ◌/◌, ◌%◌, ◌^◌, Bool, true, false, ◌&&◌, not, Option, none, some,
  ◌>>=◌, List, [], ◌∷◌, get_elem?, set, take, replicate, ltb, leb, ◌==◌, if◌then◌else◌,
}

-- What the code uses of float64 and of package time: `since t u` is `t.Sub(u).Seconds()`, `per n f` is
-- `float64(n) / f`, `over f n` is `f / float64(n)`.
pub record Numbers : Type 1 where
  pub F : Type 0
  pub T : Type 0
  pub nought : F
  pub less : F → F → Bool
  pub plus : F → F → F
  pub triple : F → F
  pub since : T → T → F
  pub per : ℕ → F → F
  pub over : F → ℕ → F

abbrev pub counter_bits : ℕ
counter_bits = 4

abbrev pub counter_mask : ℕ
counter_mask = 2 ^ counter_bits - 1

-- `unpack` of two numbers of four bits
unfoldable pub unpack_counter : ℕ → ℕ × ℕ
unpack_counter idxs = (idxs / 2 ^ counter_bits % 2 ^ counter_bits, idxs % 2 ^ counter_bits)

-- `pack`, where the two numbers have no bit in common
unfoldable pub pack_counter : ℕ → ℕ → ℕ
pack_counter head min = head * 2 ^ counter_bits % 2 ^ 8 + min % 2 ^ counter_bits

-- `writeCalcThreshold`
abbrev pub write_calc_threshold : ℕ
write_calc_threshold = 5 * 1024 * 1024

pub record LatencyCounter (F : Type 0) : Type 0 where
  pub buf : List F
  pub head_min : ℕ

pub record Bandwidth (k : Numbers) : Type 0 where
  pub read_bandwidth : k.F
  pub read_start : Option k.T
  pub last_read_start : Option k.T
  pub buf_length : ℕ
  pub calc_threshold : ℕ

pub record WriteBandwidth (k : Numbers) : Type 0 where
  pub write_bw : k.F
  pub read_end : Option k.T
  pub duration : k.F
  pub buf_length : ℕ
  pub ratio : ℕ

module _ (k : Numbers) where
  -- `newLatencyCounter`
  abbrev pub new_latency_counter : LatencyCounter k.F
  new_latency_counter = record { buf = replicate (2 ^ counter_bits) k.nought; head_min = 0 }

  -- The loop of `minimal` from slot `i` on
  abbrev pub minimal_loop : List k.F → ℕ → k.F → ℕ → ℕ
  minimal_loop [] i val min = min
  minimal_loop (x ∷ xs) i val min =
      let smaller = minimal_loop xs (i + 1) x i in
      let same = minimal_loop xs (i + 1) val min in
      if k.less k.nought x && k.less x val then smaller else same

  -- `minimal`
  abbrev pub minimal : List k.F → ℕ
  minimal buf = minimal_loop (take counter_mask buf) 0 k.nought 0

  -- `add`; `none` is an index out of range.
  unfoldable pub add_latency : LatencyCounter k.F → k.F → Option (LatencyCounter k.F)
  add_latency c value =
      let (head, min) = unpack_counter c.head_min in
      let buf = set c.buf head value in
      let min₁ = if head == min then minimal buf else min in
      do
        old ← get_elem? c.buf head
        least ← get_elem? buf min₁
        let min₂ = if k.less value least then head else min₁
        some (record { buf = buf; head_min = pack_counter (head + 1) min₂ })

  -- The loop of `countSuccess`, with the sum and the count; `x <= limit` is that `limit` is not less
  -- than `x`, which leaves NaN aside.
  abbrev success_loop : k.F → List k.F → k.F → ℕ → k.F × ℕ
  success_loop limit [] sum n = (sum, n)
  success_loop limit (x ∷ xs) sum n =
      let counted = success_loop limit xs (k.plus sum x) (n + 1) in
      let skipped = success_loop limit xs sum n in
      if not (k.less limit x) && k.less k.nought x then counted else skipped

  -- `countSuccess`
  unfoldable pub count_success : LatencyCounter k.F → Option k.F
  count_success c =
      let (head, min) = unpack_counter c.head_min in
      do
        least ← get_elem? c.buf min
        let (sum, n) = success_loop (k.triple least) (take counter_mask c.buf) k.nought 0
        some (k.over sum n)

  -- `Latency`
  unfoldable pub latency_of : LatencyCounter k.F → k.F → Option (LatencyCounter k.F × k.F)
  latency_of c value = do c' ← add_latency c value; f ← count_success c'; some (c', f)

  -- `calcBandWidth` for the times of this and of the last start; `sock` is the answer of `sysGetSock`.
  unfoldable pub calc_bandwidth : Option ℕ → k.T → k.T → Bandwidth k → Bandwidth k
  calc_bandwidth none start last b = record b { buf_length = 0 }
  calc_bandwidth (some size) start last b =
      if leb (size % 2 ^ 32) b.buf_length
      then record b { read_bandwidth = k.per b.buf_length (k.since start last); buf_length = 0 }
      else record b { calc_threshold = size % 2 ^ 32; buf_length = 0 }

  abbrev started : k.T → Option k.T → k.T
  started now none = now
  started now (some t) = t

  -- `bandwidth.StartRead` with what its two calls of `time.Now` return
  unfoldable pub start_read : Option ℕ → k.T → k.T → Bandwidth k → Bandwidth k
  start_read sock now now' b =
      let first = started now b.read_start in
      if leb b.calc_threshold b.buf_length
      then calc_bandwidth sock now' first
          (record b { read_start = some now'; last_read_start = some first })
      else record b { read_start = some first }

  -- `bandwidth.SetCopySize`
  abbrev pub set_copy_size : ℕ → Bandwidth k → Bandwidth k
  set_copy_size n b = record b { buf_length = (b.buf_length + n) % 2 ^ 32 }

  -- `Get` of both
  abbrev pub get_bandwidth : k.F → k.F
  get_bandwidth bw = if k.less k.nought bw then bw else k.nought

  -- `newWriteBandwidth`
  abbrev pub new_write_bandwidth : WriteBandwidth k
  new_write_bandwidth = record {
    write_bw = k.nought;
    read_end = none;
    duration = k.nought;
    buf_length = 0;
    ratio = 1;
  }

  -- `writeBandwidth.calcBandWidth`
  abbrev pub calc_write_bandwidth : WriteBandwidth k → WriteBandwidth k
  calc_write_bandwidth b = record b {
    write_bw = k.per b.buf_length b.duration;
    buf_length = 0;
    duration = k.nought;
  }

  -- `writeBandwidth.StartRead` with what its two calls of `time.Now` return
  unfoldable pub start_write : k.T → k.T → WriteBandwidth k → WriteBandwidth k
  start_write now now' b =
      let first = started now b.read_end in
      let b' = record b {
        read_end = some first;
        duration = k.plus b.duration (k.since now' first);
      } in
      if leb (write_calc_threshold * b.ratio % 2 ^ 32) b.buf_length
      then calc_write_bandwidth b'
      else b'

  -- `writeBandwidth.SetCopySize` with `endRead`
  abbrev pub set_write_size : k.T → ℕ → WriteBandwidth k → WriteBandwidth k
  set_write_size now n b = record b {
    buf_length = (b.buf_length + n) % 2 ^ 32;
    read_end = some now;
  }

  -- `GrowRatio`
  abbrev pub grow_ratio : WriteBandwidth k → WriteBandwidth k
  grow_ratio b = record b { ratio = (b.ratio + 1) % 2 ^ 32 }
