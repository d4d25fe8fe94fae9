-- ===== src/ReceiveWindow/Size.antt =====
-- `calcSize` changes the size alone, and how far it moves it.
use nps_mux.Base.{
  ℕ, ◌+◌, ◌*◌, ◌/◌, ◌%◌, ◌^◌, ◌≤◌, ◌≡◌, arith, Bool, Option, none, some, [], ltb, ◌==◌, ◌⊎◌, inl,
  inr, Bool-cases,
}
use nps_mux.Window.{window_pack}
use nps_mux.Window.Word.{Fits31, unpack-window_pack}
use nps_mux.ReceiveWindow.{
  ReceiveWindow, Measured, raised, limited, grow_bound, at_least_half, receive_remaining, calc_size,
  initial_size,
}

-- The size that `calcSize` comes to from the size `m`.
abbrev pub next_window : Measured → ReceiveWindow → ℕ → ℕ
next_window t w m =
    limited t.limit
      (grow_bound m (at_least_half m (t.low_fill (raised t) (receive_remaining w m 0) m)))

-- The bounds, where the limit is `none` or `some`.
abbrev pub Bounded : Option ℕ → ℕ → ℕ → Type 0
Bounded none m n = (m / 2 ≤ n) × ((n ≤ 2 * m) ⊎ ((m ≡ initial_size) × (n ≤ 6 * m)))
Bounded (some k) m n = (n ≤ k) × ((n ≤ 2 * m) ⊎ ((m ≡ initial_size) × (n ≤ 6 * m)))

grown :
    (m n : ℕ)
    → Fits31 m
    → (m / 2 ≤ grow_bound m (at_least_half m n))
      × ((grow_bound m (at_least_half m n) ≤ 2 * m)
          ⊎ ((m ≡ initial_size) × (grow_bound m (at_least_half m n) ≤ 6 * m)))
grown m n h = elim (Bool-cases (ltb (2 * m % 2 ^ 32) (at_least_half m n))) [
  | inr few ↦ (ground (arith, few), inl (ground (arith, few)))
  | inl many ↦ elim (Bool-cases (m == initial_size)) [
    | inr grown_up ↦ (ground (arith, many, grown_up), inl (ground (arith, many, grown_up)))
    | inl young ↦
        let e : m ≡ initial_size = ground (arith, young) in
        (ground (arith, many, young), inr (e, ground (arith, many, young)))
  ]
]

next-Bounded :
    (limit : Option ℕ) (m n : ℕ)
    → Fits31 m
    → Bounded limit m (limited limit (grow_bound m (at_least_half m n)))
next-Bounded none m n h = grown m n h
next-Bounded (some k) m n h = elim (Bool-cases (ltb k (grow_bound m (at_least_half m n)))) [
  | inl over ↦ elim (grown m n h).1 [
    | inl p ↦ (ground (arith, over), inl (ground (arith, over, p)))
    | inr (e, p) ↦ (ground (arith, over), inr (e, ground (arith, over, p)))
  ]
  | inr under ↦ elim (grown m n h).1 [
    | inl p ↦ (ground (arith, under), inl (ground (arith, under, p)))
    | inr (e, p) ↦ (ground (arith, under), inr (e, ground (arith, under, p)))
  ]
]

module _ (t : Measured) (w : ReceiveWindow) (m r : ℕ) (b : Bool)
    (word : w.max_size_done ≡ window_pack m r b) (hm : Fits31 m) (hr : Fits31 r) where
  -- On every tenth call calcSize changes the size alone: without a limit to at least half, and in
  -- any case to at most twice the size, or six times if the size is the initial one, and to at most
  -- the limit if there is one, whatever is measured.
  pub calc_size-Bounded :
      w.count ≡ 0
      → (n : ℕ) × (calc_size [] t w
          ≡ some (record w { max_size_done = window_pack n r b; count = 247 }))
        × Bounded t.limit m n
  unfolding calc_size
  calc_size-Bounded now = (
    next_window t w m,
    ground (arith, word, unpack-window_pack m r b, now),
    next-Bounded t.limit m (t.low_fill (raised t) (receive_remaining w m 0) m) hm,
  )

  -- Any call.
  pub calc_size-word :
      (n c : ℕ) × (calc_size [] t w
        ≡ some (record w { max_size_done = window_pack n r b; count = c }))
  unfolding calc_size
  calc_size-word = elim (Bool-cases (w.count == 0)) [
    | inl now ↦ let (n, e, _) = calc_size-Bounded (ground (arith, now)) in (n, 247, e)
    | inr later ↦ (m, (w.count + 1) % 2 ^ 8, ground (arith, word, later))
  ]
