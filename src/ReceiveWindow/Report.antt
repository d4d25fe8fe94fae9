-- ===== src/ReceiveWindow/Report.antt =====
-- The bytes reported to the sender and those that are still to be reported are the bytes read.
use nps_mux.Base.{
  ℕ, ◌+◌, ◌-◌, ◌/◌, ◌%◌, ◌^◌, ◌<◌, ◌≡◌, refl, ap, arith, bit_and_mask, Bool, true, false, ◌&&◌,
  ◌||◌, Option, none, some, List, [], ◌∷◌, ◌++◌, length, ltb, leb, ◌==◌, Bool-cases, inl, inr,
}
use nps_mux.Window.{window_unpack, window_pack}
use nps_mux.Window.Word.{Fits31, unpack-window_pack}
use nps_mux.ReceiveQueue.{ListElement, new_list_element, receive_len}
use nps_mux.ReceiveQueue.Count.{total, Counts, receive_push-Counts}
use nps_mux.ReceiveWindow.Size.{calc_size-word}
use nps_mux.ReceiveWindow.{ReceiveWindow, receive_write, send_status, Measured}

-- The bytes that a report acknowledges.
abbrev pub acked : Option ℕ → ℕ
acked none = 0
acked (some word) = (window_unpack word).1

abbrev pub is_none : Option ℕ → Bool
is_none none = true
is_none (some word) = false

pub acked-pack : (m r : ℕ) (b : Bool) → acked (some (window_pack m r b)) ≡ r % 2 ^ 31
acked-pack m r b = ap (λ (p : ℕ × ℕ × Bool). p.1) (unpack-window_pack m r b)

-- The condition under which `sendStatus` reports, as long as the count does not overflow.
abbrev pub reports : ReceiveWindow → ℕ → ℕ → Bool → Bool
reports w m sum b =
    (b && ltb 0 (m - receive_len w.buf_queue))
    || (leb (m / 2) sum || (m - receive_len w.buf_queue == m))

module _ (w : ReceiveWindow) (m r l : ℕ) (b : Bool) (word : w.max_size_done ≡ window_pack m r b)
    (hm : Fits31 m) (hr : Fits31 r) (hl : l < 2 ^ 16) where
  -- After sendStatus for an element of l bytes the bytes that it reports and those still to be
  -- reported are together those that were to be reported before and l, also where the count
  -- overflows; the size in the word stays.
  pub send_status-acked :
      (w' : ReceiveWindow) × (ack : Option ℕ) × (send_status [] w l ≡ some (w', ack))
      × (r' : ℕ) × (b' : Bool) × (w'.max_size_done ≡ window_pack m r' b')
      × Fits31 r'
      × (acked ack + r' ≡ r + l)
  unfolding send_status
  send_status-acked = elim (Bool-cases (ltb (r + l) (2 ^ 31))) [
    | inr over ↦ (
      record w { max_size_done = window_pack m l b },
      some (window_pack m r false),
      ground (arith, word, unpack-window_pack m r b, bit_and_mask 31 ((r + l) % 2 ^ 32)),
      l,
      b,
      refl,
      omega arith,
      omega (arith, acked-pack m r false),
    )
    | inl fits ↦ elim (Bool-cases (reports w m (r + l) b)) [
      | inl now ↦ (
        record w { max_size_done = window_pack m 0 false },
        some (window_pack m (r + l) false),
        ground (arith, word, unpack-window_pack m r b, bit_and_mask 31 ((r + l) % 2 ^ 32), now),
        0,
        false,
        refl,
        omega arith,
        ground (arith, acked-pack m (r + l) false),
      )
      | inr later ↦ (
        record w { max_size_done = window_pack m (r + l) b },
        none,
        ground (arith, word, unpack-window_pack m r b, bit_and_mask 31 ((r + l) % 2 ^ 32), later),
        r + l,
        b,
        refl,
        ground arith,
        omega arith,
      )
    ]
  ]

-- The last element that is read empties the queue, and everything is reported.
pub send_status_idle :
    (w : ReceiveWindow) (m r l : ℕ) (b : Bool)
    → w.max_size_done ≡ window_pack m r b
    → Fits31 m
    → r + l < 2 ^ 31
    → receive_len w.buf_queue ≡ 0
    → send_status [] w l
      ≡ some
          (record w { max_size_done = window_pack m 0 false }, some (window_pack m (r + l) false))
unfolding send_status
send_status_idle w m r l b word hm fits empty =
    ground (arith, word, unpack-window_pack m r b, bit_and_mask 31 ((r + l) % 2 ^ 32), empty)

-- A word that the receiver sends: a size and a count, and no flag.
abbrev pub IsReport : ℕ → Type 0
IsReport word = (m : ℕ) × (r : ℕ) × (word ≡ window_pack m r false) × Fits31 m × Fits31 r

-- What an operation sends, if anything, is a report.
abbrev pub SendsReport : Option ℕ → Type 0
SendsReport none = Unit
SendsReport (some word) = IsReport word

pub send_status-IsReport :
    (w w' : ReceiveWindow) (m r l word : ℕ) (b : Bool)
    → w.max_size_done ≡ window_pack m r b
    → Fits31 m
    → r + l < 2 ^ 31
    → send_status [] w l ≡ some (w', some word)
    → IsReport word
unfolding send_status
send_status-IsReport w w' m r l word b e hm fits h = (
  m,
  r + l,
  ground (arith, e, unpack-window_pack m r b, bit_and_mask 31 ((r + l) % 2 ^ 32)),
  hm,
  fits,
)

module _ (t : Measured) (w : ReceiveWindow) (m r : ℕ) (b : Bool) (buf : List ℕ) (part : Bool)
    (xs : List ListElement) (rb : Bool) (open_still : w.close_op ≡ false)
    (word : w.max_size_done ≡ window_pack m r b) (hm : Fits31 m) (hr : Fits31 r)
    (h : Counts w.buf_queue xs rb) (small : length buf < 2 ^ 16)
    (room : total xs + length buf < 2 ^ 32) where
  abbrev element : ListElement
  element = record { buf = buf; l = length buf; part = part }

  -- On an open window, with a content of the given length, Write reports no error and puts the
  -- element at the end of the queue; what it reports and what is still to be reported are together
  -- what was to be reported before, and it reports nothing exactly if the wait flag is set
  -- afterwards; a report has no wait flag; the element being read, its offset and the close flag
  -- stay.
  pub receive_write-acked :
      (w' : ReceiveWindow) × (ack : Option ℕ) × (receive_write [] t w buf (length buf) part
        ≡ some (w', none, ack))
      × (m' : ℕ) × (r' : ℕ) × (w'.max_size_done ≡ window_pack m' r' (is_none ack))
      × (acked ack + r' ≡ r)
      × Counts w'.buf_queue (xs ++ (element ∷ [])) false
      × (w'.off ≡ w.off)
      × (w'.element ≡ w.element)
      × (w'.close_op ≡ w.close_op)
      × SendsReport ack
  unfolding receive_write new_list_element
  receive_write-acked =
      let (n, c, sized) = calc_size-word t w m r b word hm hr in
      let (q, pushed, hq) = receive_push-Counts w.buf_queue xs rb h element room in
      let k = n % 2 ^ 31 in
      elim (Bool-cases b) [
        | inl waits ↦ (
          record w { max_size_done = window_pack n r b; count = c; buf_queue = q },
          none,
          ground (arith, open_still, sized, unpack-window_pack n r b, waits, pushed),
          n,
          r,
          ap (window_pack n r) waits,
          omega arith,
          hq,
          refl,
          refl,
          refl,
          tt,
        )
        | inr free ↦ elim (Bool-cases (k - receive_len w.buf_queue - length buf == 0)) [
          | inl full ↦ (
            record w { max_size_done = window_pack k r true; count = c; buf_queue = q },
            none,
            ground (arith, open_still, sized, unpack-window_pack n r b, free, full, pushed),
            k,
            r,
            refl,
            omega arith,
            hq,
            refl,
            refl,
            refl,
            tt,
          )
          | inr space ↦ (
            record w { max_size_done = window_pack k 0 false; count = c; buf_queue = q },
            some (window_pack k r false),
            ground (arith, open_still, sized, unpack-window_pack n r b, free, space, pushed),
            k,
            0,
            refl,
            omega (arith, acked-pack k r false),
            hq,
            refl,
            refl,
            refl,
            (k, r, refl, omega arith, hr),
          )
        ]
      ]
