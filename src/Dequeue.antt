-- ===== src/Dequeue.antt =====
-- queue.go, bufDequeue: a ring of slots with a packed head and tail index.
-- `unsafe.Pointer` is `Option A`, nil is `none`. An index is a uint32, the packed pair a uint64.
pub mod Ring
pub mod Refine
pub mod Tests
use nps_mux.Base.{
  ℕ, ◌+◌, ◌-◌, ◌*◌, ◌/◌, ◌%◌, ◌^◌, bit_and, bit_or, Bool, true, false, Option, none, some, List,
  map, length, get_elem?, set, replicate, ltb, leb, ◌==◌, ◌&&◌, if◌then◌else◌, Round, leave, again,
  cas_loop, ◌>>=◌,
}

abbrev pub dequeue_bits : ℕ
dequeue_bits = 32

abbrev pub dequeue_limit : ℕ
dequeue_limit = 2 ^ dequeue_bits / 4

abbrev pub max_uint32 : ℕ
max_uint32 = 2 ^ 32 - 1

-- `ptrs >> 32 & mask` and `ptrs & mask`
unfoldable pub unpack : ℕ → ℕ × ℕ
unpack ptrs =
    (bit_and (ptrs / 2 ^ dequeue_bits) (2 ^ dequeue_bits - 1), bit_and ptrs (2 ^ dequeue_bits - 1))

-- `uint64(head)<<32 | uint64(tail&mask)`
unfoldable pub pack : ℕ → ℕ → ℕ
pack head tail = bit_or (head * 2 ^ dequeue_bits % 2 ^ 64) (bit_and tail (2 ^ dequeue_bits - 1))

pub record BufDequeue {ℓ} (A : Type ℓ) : Type ℓ where
  pub head_tail : ℕ
  pub vals : List (Option A)
  pub starving : ℕ

-- `atomic.AddUint64(&d.headTail, …)`: adds 1 to the tail, and does not carry into the head.
unfoldable pub advance_tail : ℕ → ℕ → ℕ
advance_tail ptrs tail =
    if ltb tail max_uint32
    then (ptrs + 1) % 2 ^ 64
    else (ptrs + (2 ^ 64 - 1 - (max_uint32 - 1))) % 2 ^ 64

module _ {ℓ} {A : Type ℓ} where
  -- The slot of an index: `index & uint32(len(d.vals)-1)`.
  abbrev pub slot_of : BufDequeue A → ℕ → ℕ
  slot_of d index = bit_and index (length d.vals - 1)

  abbrev pub held : Option (Option A) → Option A
  held none = none
  held (some v) = v

  -- The pointer in a slot. A slot beyond the ring does not arise: see `Ring`.
  abbrev pub slot_at : BufDequeue A → ℕ → Option A
  slot_at d i = held (get_elem? d.vals i)

  -- One round of the loop of `pushHead`; the state is the ring and the local `starve`, and the loop
  -- leaves with the slot that it has reserved, or with none if the ring is full.
  unfoldable pub push_round :
      (BufDequeue A × ℕ → BufDequeue A × ℕ) → BufDequeue A × ℕ → Round (BufDequeue A × ℕ) (Option ℕ)
  push_round other (d, starve) =
      let ptrs = d.head_tail in
      let (head, tail) = unpack ptrs in
      let (d', starve') = other (d, starve) in
      let raised = (starve' + 1) % 2 ^ 8 in
      let settled = if leb 3 starve' && ltb 0 d'.starving then 0 else d'.starving in
      if bit_and ((tail + length d.vals) % 2 ^ 32) (2 ^ dequeue_bits - 1) == head
      then leave (d, starve) none
      else if d'.head_tail == ptrs
      then leave
          (record d' { head_tail = pack ((head + 1) % 2 ^ 32) tail; starving = settled }, starve')
          (some (slot_of d' head))
      else again (if leb 3 raised then record d' { starving = 1 } else d', raised)

  abbrev on_ring : (BufDequeue A → BufDequeue A) → BufDequeue A × ℕ → BufDequeue A × ℕ
  on_ring other (d, starve) = (other d, starve)

  -- `pushHead`: the ring and whether the value went in. `others` is what the other goroutines do
  -- between the load and the CompareAndSwap, round by round.
  unfoldable pub push_head :
      List (BufDequeue A → BufDequeue A) → BufDequeue A → A → Option (BufDequeue A × Bool)
  unfolding cas_loop push_round
  push_head others d val = do
    ((d', starve), slot) ← cas_loop push_round (map on_ring others) (d, 0)
    elim slot [
      | none ↦ some (d', false)
      | some i ↦ some (record d' { vals = set d'.vals i (some val) }, true)
    ]

  -- One round of the loop of `popTail`. The others act between the load of the indices and the
  -- load of the slot. It leaves with the value and the loaded tail, or with nothing if empty.
  unfoldable pub pop_round :
      (BufDequeue A → BufDequeue A) → BufDequeue A → Round (BufDequeue A) (Option (A × ℕ))
  pop_round other d =
      let (head, tail) = unpack d.head_tail in
      let d' = other d in
      let i = slot_of d' tail in
      if tail == head then leave d none else elim (slot_at d' i) [
        | none ↦ again d'
        | some val ↦ leave (record d' { vals = set d'.vals i none }) (some (val, tail))
      ]

  -- `popTail`; `none` outside: the loop still waits for a slot that is reserved and not yet filled.
  unfoldable pub pop_tail :
      List (BufDequeue A → BufDequeue A) → BufDequeue A → Option (BufDequeue A × Option A)
  unfolding cas_loop pop_round advance_tail
  pop_tail others d = do
    (d', taken) ← cas_loop pop_round others d
    elim taken [
      | none ↦ some (d', none)
      | some (val, tail) ↦ some (record d' { head_tail = advance_tail d'.head_tail tail }, some val)
    ]

  -- `new(bufChainElt)` with `vals` of `size` nil slots
  abbrev pub new_dequeue : ℕ → BufDequeue A
  new_dequeue size = record { head_tail = 0; vals = replicate size none; starving = 0 }
