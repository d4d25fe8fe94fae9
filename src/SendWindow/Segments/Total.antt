-- ===== src/SendWindow/Segments/Total.antt =====
-- `WriteFull` where the window has room for the whole buffer: it returns, without a wait.
use nps_mux.Base.{
  ℕ, zero, suc, ◌+◌, ◌-◌, ◌%◌, ◌^◌, ◌≤◌, ◌<◌, ◌≡◌, refl, ap, ◌∙◌, arith, bit_and_mask, Bool, false,
  none, some, List, [], ◌∷◌, ◌++◌, ltb, if◌then◌else◌, length, length-drop, take, drop,
}
use native.Mathlib.Decide.{dec_lt}
use nps_mux.Flag.{mux_new_msg, mux_new_msg_part}
use nps_mux.Window.{window_pack}
use nps_mux.Window.Word.{Fits31, unpack-window_pack}
use nps_mux.SendWindow.{
  SendWindow, sent, cut, segment_size, free_space, attempt, write_to, write_loop, write_full,
  set_send_buf, segment, drained, Sent, Written,
}
use nps_mux.SendWindow.SetSize.{remaining_size_lem}

module _ (m : ℕ) (b : Bool) (hm : Fits31 m) where
  -- A window of size `m` in which `s` bytes are outstanding, and which has room for the rest of its
  -- buffer.
  record HasRoom (w : SendWindow) (s : ℕ) : Type 0 where
    word : w.max_size_done ≡ window_pack m s b
    open_still : w.close_op ≡ false
    inside : w.off ≤ length w.buf
    small : length w.buf < 2 ^ 32
    room : s + (length w.buf - w.off) ≤ m

  module _ (w : SendWindow) (s : ℕ) (h : HasRoom w s) where
    abbrev size : ℕ
    size = segment_size (m - s) (drop w.off w.buf)

    abbrev next : SendWindow
    next = record w { max_size_done = window_pack m (s + size) b; off = w.off + size }

    free : free_space w ≡ m - s
    unfolding free_space
    free = ground (arith, h.word, unpack-window_pack m s b, remaining_size_lem m s, h.room)

    size_bounds : w.off < length w.buf → (1 ≤ size) × (s + size ≤ m) × (w.off + size ≤ length w.buf)
    size_bounds lt = ground (arith, h.room, h.small, length-drop w.off w.buf)

    cut_room :
        w.off < length w.buf
        → (part : Bool) × (cut w (m - s)
            ≡ some (next, segment (take size (drop w.off w.buf)) size part))
    unfolding cut sent
    cut_room lt = (
      ltb size (length (drop w.off w.buf) % 2 ^ 32),
      ground (
        arith,
        h.word,
        h.small,
        unpack-window_pack m s b,
        size_bounds lt,
        bit_and_mask 31 ((s + size) % 2 ^ 32),
      ),
    )

    attempt_room :
        w.off < length w.buf
        → (part : Bool) × (attempt [] w
            ≡ some ([], next, segment (take size (drop w.off w.buf)) size part))
    unfolding attempt
    attempt_room lt =
        let (part, e) = cut_room lt in
        (part, by_free (m - s) free (omega (arith, size_bounds lt)) e)
      where
        by_free :
            (n : ℕ)
            → free_space w ≡ n
            → 1 ≤ n
            → {part : Bool}
            → cut w n ≡ some (next, segment (take size (drop w.off w.buf)) size part)
            → attempt [] w ≡ some ([], next, segment (take size (drop w.off w.buf)) size part)
        by_free zero q pos e = absurd (omega arith)
        by_free (suc n) q pos e = ground (arith, q, e)

    next-HasRoom : w.off < length w.buf → HasRoom next (s + size)
    next-HasRoom lt = record {
      word = refl;
      open_still = h.open_still;
      inside = omega (arith, size_bounds lt);
      small = h.small;
      room = omega (arith, size_bounds lt, h.room);
    }

    write_to_room :
        w.off < length w.buf
        → (part : Bool) × (write_to [] w
            ≡ some ([], next, segment (take size (drop w.off w.buf)) size part))
    unfolding write_to
    write_to_room lt =
        let (part, e) = attempt_room lt in (part, ground (arith, e, h.open_still, h.small))

    write_to_end : w.off ≡ length w.buf → write_to [] w ≡ some ([], w, drained)
    unfolding write_to
    write_to_end e = ground (arith, h.open_still, h.small)

  -- What the loop returns: no error, and a word that counts the bytes sent.
  Returns : ℕ → SendWindow → ℕ → ℕ → List Sent → Type 0
  Returns fuel w s n out =
      (r : Written) × (write_loop fuel [] w n out ≡ some r)
      × (r.error ≡ none)
      × (r.window.max_size_done ≡ window_pack m (s + (length w.buf - w.off)) b)

  loop_room :
      (fuel : ℕ) (w : SendWindow) (s n : ℕ) (out : List Sent)
      → HasRoom w s
      → length w.buf - w.off < fuel
      → Returns fuel w s n out
  unfolding Returns write_loop
  loop_room zero w s n out h enough = absurd (omega arith)
  loop_room (suc fuel) w s n out h enough = elim (dec_lt w.off (length w.buf)) [
    | no end ↦
        let at_end : w.off ≡ length w.buf = omega (arith, h.inside) in
        let r : Written = record { window = w; n = n; error = none; messages = out } in
        let none_left : s + (length w.buf - w.off) ≡ s = omega arith in
        (r, ground (arith, write_to_end w s h at_end), refl, rw none_left h.word)
    | yes lt ↦
        let (part, e) = write_to_room w s h lt in
        let l = size w s h in
        let msg : Sent =
          (if part then mux_new_msg_part else mux_new_msg, take l (drop w.off w.buf)) in
        let (r, e', ok, word) =
          loop_room fuel (next w s h) (s + l) (n + l) (out ++ (msg ∷ [])) (next-HasRoom w s h lt)
            (omega (arith, size_bounds w s h lt)) in
        let total : s + l + (length w.buf - (w.off + l)) ≡ s + (length w.buf - w.off) =
          omega (arith, size_bounds w s h lt) in
        (r, ground (arith, e, e'), ok, word ∙ ap (λ (k : ℕ). window_pack m k b) total)
  ]

  -- On an open window with room for the buffer, WriteFull returns with no error and without a wait,
  -- and counts the bytes of the buffer as outstanding.
  pub write_full_total :
      (w : SendWindow) (buf : List ℕ) (s : ℕ)
      → w.max_size_done ≡ window_pack m s b
      → w.close_op ≡ false
      → length buf < 2 ^ 32
      → s + length buf ≤ m
      → (r : Written) × (write_full [] w buf ≡ some r)
        × (r.error ≡ none)
        × (r.window.max_size_done ≡ window_pack m (s + length buf) b)
  unfolding Returns write_full
  write_full_total w buf s word open_still small room =
      let start : HasRoom (set_send_buf w buf) s = record {
        word = word;
        open_still = open_still;
        inside = omega arith;
        small = small;
        room = omega arith;
      } in
      let (r, e, ok, total) =
        loop_room (suc (length buf)) (set_send_buf w buf) s 0 [] start (omega arith) in
      let whole : s + (length buf - 0) ≡ s + length buf = omega arith in
      (r, e, ok, total ∙ ap (λ (k : ℕ). window_pack m k b) whole)
