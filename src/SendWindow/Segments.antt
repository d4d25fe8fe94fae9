-- ===== src/SendWindow/Segments.antt =====
-- `WriteTo` and `WriteFull`: how a buffer is cut into messages, under every course of the waits.
pub mod Loop
pub mod Total
pub mod Fuel
pub mod Count
use nps_mux.Base.{
  ℕ, zero, suc, ◌+◌, ◌-◌, ◌%◌, ◌^◌, ◌≤◌, ◌<◌, ◌≡◌, ◌≢◌, refl, subst, sym, ap, ◌∙◌, arith, bit_and,
  bit_and_mask, Bool, true, false, not, ◌&&◌, ◌||◌, Option, none, some, List, [], ◌∷◌, ◌++◌, ltb,
  ◌==◌, length, length-append, length-drop, length-take, take, drop, Bool-cases, Option-cases, inl,
  inr, ◌⊎◌,
}
use nps_mux.Flag.{maximum_segment_size}
use nps_mux.Window.{window_unpack, window_pack, mask31}
use nps_mux.SendWindow.{
  SendWindow, sent, cut, segment_size, attempt, write_to, free_space, set_wait, Turn, Wake, woken,
  channel_closed, close_token, timed_out, wait_error, Wrote, segment, drained, failed,
  window_closed,
}

-- `sent` touches the word alone.
sent_keeps :
    (w w' : SendWindow) (n : ℕ)
    → sent [] w n ≡ some w'
    → (w'.off ≡ w.off) × (w'.buf ≡ w.buf) × (w'.close_op ≡ w.close_op)
unfolding sent
sent_keeps w w' n e = ground arith

-- What a segment is: the next bytes of the buffer, at least one and at most 4085, marked as a part
-- exactly if more bytes follow; the offset moves behind it.
abbrev pub Cuts : SendWindow → SendWindow → Wrote → Type 0
Cuts w w' (segment p l part) =
    (p ≡ take l (drop w.off w.buf))
    × (1 ≤ l)
    × (l ≤ maximum_segment_size)
    × (w.off + l ≤ length w.buf)
    × (part ≡ ltb (w.off + l) (length w.buf))
    × (w'.off ≡ w.off + l)
    × (w'.buf ≡ w.buf)
Cuts w w' drained = w.off ≡ length w.buf
Cuts w w' (failed e) = Unit

cut-Cuts :
    (w : SendWindow) (n : ℕ) (w' : SendWindow) (r : Wrote)
    → w.off < length w.buf
    → length w.buf < 2 ^ 32
    → cut w (suc n) ≡ some (w', r)
    → Cuts w w' r
unfolding cut
cut-Cuts w n w' r inside small e = go (sent [] moved size) refl r e
  where
    size : ℕ
    size = segment_size (suc n) (drop w.off w.buf)

    moved : SendWindow
    moved = record w { off = (w.off + size) % 2 ^ 32 }

    bounds : (1 ≤ size) × (size ≤ maximum_segment_size) × (w.off + size ≤ length w.buf)
    bounds = ground (arith, length-drop w.off w.buf)

    go :
        (o : Option SendWindow)
        → sent [] moved size ≡ o
        → (r : Wrote) → cut w (suc n) ≡ some (w', r)
        → Cuts w w' r
    go none q r e' = ground (arith, q)
    go (some v) q drained e' = ground (arith, q)
    go (some v) q (failed x) e' = tt
    go (some v) q (segment p l part) e' =
        ground (arith, q, bounds, sent_keeps moved v size q, length-drop w.off w.buf)

attempt-Cuts :
    (ts : List Turn) (w : SendWindow) (ts' : List Turn) (w' : SendWindow) (r : Wrote)
    → w.off < length w.buf
    → length w.buf < 2 ^ 32
    → attempt ts w ≡ some (ts', w', r)
    → Cuts w w' r
unfolding attempt
attempt-Cuts [] w ts' w' r inside small e =
    go (free_space w) refl (Option-cases (cut w (free_space w)))
  where
    go :
        (n : ℕ)
        → free_space w ≡ n
        → (cut w n ≡ none) ⊎ ((c : SendWindow × Wrote) × (cut w n ≡ some c))
        → Cuts w w' r
    go zero q o = ground (arith, q)
    go (suc n) q (inl o) = ground (arith, q, o)
    go (suc n) q (inr ((v, x), o)) = cut-Cuts w n w' r inside small (ground (arith, q, o))
attempt-Cuts (t ∷ ts) w ts' w' r inside small e =
    go (free_space w) refl (Option-cases (cut w (free_space w)))
      (attempt-Cuts ts w₁ ts' w' r inside small) (attempt-Cuts ts w₂ ts' w' r inside small)
  where
    w₁ : SendWindow
    w₁ = record w { max_size_done = t.before w.max_size_done }

    w₂ : SendWindow
    w₂ = record w {
      max_size_done = t.during (set_wait w.max_size_done);
      close_op = w.close_op || t.closes;
    }

    Ends : SendWindow → Type 0
    Ends v = attempt ts v ≡ some (ts', w', r)

    waits : free_space w ≡ 0 → (Ends w₁ → Cuts w w' r) → (Ends w₂ → Cuts w w' r) → Cuts w w' r
    waits q retry resume = elim (Bool-cases (t.before w.max_size_done == w.max_size_done)) [
      | inr moved ↦ retry (ground (arith, q, moved))
      | inl still ↦ elim (Option-cases (wait_error t.wake)) [
        | inl ok ↦ resume (ground (arith, q, still, ok))
        | inr (x, bad) ↦
            let ends : failed x ≡ r = ground (arith, q, still, bad) in subst (Cuts w w') ends tt
      ]
    ]

    go :
        (n : ℕ)
        → free_space w ≡ n
        → (cut w n ≡ none) ⊎ ((c : SendWindow × Wrote) × (cut w n ≡ some c))
        → (Ends w₁ → Cuts w w' r)
        → (Ends w₂ → Cuts w w' r)
        → Cuts w w' r
    go zero q o retry resume = waits q retry resume
    go (suc n) q (inl o) retry resume = ground (arith, q, o)
    go (suc n) q (inr ((v, x), o)) retry resume =
        cut-Cuts w n w' r inside small (ground (arith, q, o))

-- Whatever happens during the waits, WriteTo returns the next bytes of the buffer, 1 to 4085 of
-- them, marked as a part exactly if more follow, or io.EOF at the end of the buffer, or an error.
pub write_to-Cuts :
    (ts : List Turn) (w : SendWindow) (ts' : List Turn) (w' : SendWindow) (r : Wrote)
    → w.off ≤ length w.buf
    → length w.buf < 2 ^ 32
    → write_to ts w ≡ some (ts', w', r)
    → Cuts w w' r
unfolding write_to
write_to-Cuts ts w ts' w' r inside small e = elim (Bool-cases w.close_op) [
  | inl closed ↦ let ends : failed window_closed ≡ r = ground arith in subst (Cuts w w') ends tt
  | inr open_still ↦ elim (Bool-cases (w.off == length w.buf % 2 ^ 32)) [
    | inl done ↦
        let ends : drained ≡ r = ground arith in
        let at_end : w.off ≡ length w.buf = ground arith in subst (Cuts w w') ends at_end
    | inr more ↦ attempt-Cuts ts w ts' w' r (ground arith) small (ground arith)
  ]
]
