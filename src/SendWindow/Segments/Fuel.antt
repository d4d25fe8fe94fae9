-- ===== src/SendWindow/Segments/Fuel.antt =====
-- The fuel of the loop of `WriteFull` does not matter.
use nps_mux.Base.{
  ℕ, zero, suc, ◌+◌, ◌-◌, ◌^◌, ◌≤◌, ◌<◌, ◌≡◌, refl, ap, ◌∙◌, arith, Option, none, some, List, [],
  ◌∷◌, ◌++◌, length, if◌then◌else◌,
}
use nps_mux.Flag.{mux_new_msg, mux_new_msg_part}
use nps_mux.SendWindow.{
  SendWindow, write_to, write_loop, write_full, set_send_buf, Turn, Wrote, segment, drained, failed,
  Sent,
}
use nps_mux.SendWindow.Segments.{write_to-Cuts}

-- The loop with `fuel` and with `k` units more.
Same : ℕ → ℕ → Type 0
Same k fuel =
    (ts : List Turn) (w : SendWindow) (n : ℕ) (out : List Sent)
    → w.off ≤ length w.buf
    → length w.buf < 2 ^ 32
    → length w.buf - w.off < fuel
    → write_loop (fuel + k) ts w n out ≡ write_loop fuel ts w n out

suc-Same : (k fuel : ℕ) → Same k fuel → Same k (suc fuel)
unfolding Same write_loop
suc-Same k fuel ih ts w n out le small enough =
    ap (λ (f : ℕ). write_loop f ts w n out) bigger ∙ go (write_to ts w) refl
  where
    bigger : suc fuel + k ≡ suc (fuel + k)
    bigger = omega arith

    go :
        (o : Option (List Turn × SendWindow × Wrote))
        → write_to ts w ≡ o
        → write_loop (suc (fuel + k)) ts w n out ≡ write_loop (suc fuel) ts w n out
    go none q = rw q refl
    go (some (ts', w', drained)) q = rw q refl
    go (some (ts', w', failed x)) q = rw q refl
    go (some (ts', w', segment p l part)) q =
        let (same_p, pos, few, fits, mark, moved, kept) =
          write_to-Cuts ts w ts' w' (segment p l part) le small q in
        let same_length : length w'.buf ≡ length w.buf = ap length kept in
        rw q (
          ih ts' w' (n + l) (out ++ ((if part then mux_new_msg_part else mux_new_msg, p) ∷ []))
            (omega (arith, moved, same_length)) (omega (arith, same_length))
            (omega (arith, moved, same_length)))

fuel-Same : (k fuel : ℕ) → Same k fuel
fuel-Same k zero = unfold Same in λ ts w n out le small enough. absurd (omega arith)
fuel-Same k (suc fuel) = suc-Same k fuel (fuel-Same k fuel)

-- The loop of WriteFull for a buffer of less than 2^32 bytes gives the same with any more fuel,
-- whatever happens during the waits: the fuel of one unit more than the bytes is enough.
pub write_full-fuel :
    (ts : List Turn) (w : SendWindow) (buf : List ℕ) (k : ℕ)
    → length buf < 2 ^ 32
    → write_loop (suc (length buf) + k) ts (set_send_buf w buf) 0 [] ≡ write_full ts w buf
unfolding write_full Same
write_full-fuel ts w buf k small =
    fuel-Same k (suc (length buf)) ts (set_send_buf w buf) 0 [] (omega arith) small (omega arith)
