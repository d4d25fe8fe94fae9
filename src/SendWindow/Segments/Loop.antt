-- ===== src/SendWindow/Segments/Loop.antt =====
-- The loop of `WriteFull`: the messages that it sends, put together, are the buffer.
use nps_mux.Base.{
  ℕ, zero, suc, ◌+◌, ◌-◌, ◌^◌, ◌≤◌, ◌<◌, ◌≡◌, ◌≢◌, refl, subst, sym, ap, ◌∙◌, arith, Bool, true,
  false, Option, none, some, List, [], ◌∷◌, ◌++◌, ltb, ltb→lt, ◌==◌, if◌then◌else◌, ◌>>=◌, length,
  length-drop, length-take, take, drop, take_all, take-take-drop, drop-drop, take-append-drop,
  Bool-cases, inl, inr, All,
}
use mathlib.Core.List.{append_assoc, append-nil}
use nps_mux.Flag.{maximum_segment_size, mux_new_msg, mux_new_msg_part}
use nps_mux.SendWindow.{
  SendWindow, write_to, write_loop, write_full, set_send_buf, Turn, Wrote, segment, drained, failed,
  WriteError, Sent, Written,
}
use nps_mux.SendWindow.Segments.{write_to-Cuts}

-- The bytes of a list of messages.
abbrev pub joined : List Sent → List ℕ
joined [] = []
joined ((f, p) ∷ ms) = p ++ joined ms

-- What the other side makes of the messages: it joins parts up to a message that is no part.
unfoldable pub reassemble : List Sent → Option (List ℕ)
reassemble [] = none
reassemble ((f, p) ∷ []) = if f == mux_new_msg then some p else none
reassemble ((f, p) ∷ m ∷ ms) = do
  rest ← reassemble (m ∷ ms)
  if f == mux_new_msg_part then some (p ++ rest) else none

abbrev pub IsSegment : Sent → Type 0
IsSegment m = (1 ≤ length m.1) × (length m.1 ≤ maximum_segment_size)

-- What a run of the loop from the offset `off`, with `n` bytes and the messages `out` behind it, did.
record Did (buf : List ℕ) (off n : ℕ) (out : List Sent) (r : Written) : Type 0 where
  new : List Sent
  after : r.messages ≡ out ++ new
  grows : n ≤ r.n
  inside : off + (r.n - n) ≤ length buf
  content : joined new ≡ take (r.n - n) (drop off buf)
  sizes : All IsSegment new
  idle : off ≡ length buf → new ≡ []
  whole :
      r.error ≡ none
      → (off + (r.n - n) ≡ length buf) × (off < length buf → reassemble new ≡ some (drop off buf))

-- The run ends without a further message.
stops :
    (buf : List ℕ) (off n : ℕ) (out : List Sent) (w : SendWindow) (e : Option WriteError)
    → off ≤ length buf
    → (e ≡ none → off ≡ length buf)
    → Did buf off n out (record { window = w; n = n; error = e; messages = out })
stops buf off n out w e le all = record {
  new = [];
  after = sym (append-nil out);
  grows = omega arith;
  inside = omega arith;
  content = let z : n - n ≡ 0 = omega arith in rw z;
  sizes = tt;
  idle = λ q. refl;
  whole = λ q. (omega (arith, all q), λ lt. absurd (omega (arith, all q)));
}

reassemble-part :
    (p b : List ℕ) (ms : List Sent)
    → reassemble ms ≡ some b
    → reassemble ((mux_new_msg_part, p) ∷ ms) ≡ some (p ++ b)
unfolding reassemble
reassemble-part p b [] e = cc
reassemble-part p b (m ∷ ms) e = rw e

reassemble-last : (p : List ℕ) → reassemble ((mux_new_msg, p) ∷ []) ≡ some p
unfolding reassemble
reassemble-last p = refl

-- One more segment in front of a run.
module _ (buf : List ℕ) (off n l : ℕ) (out : List Sent) (r : Written) (part : Bool) (pos : 1 ≤ l)
    (small : l ≤ maximum_segment_size) (fits : off + l ≤ length buf)
    (mark : part ≡ ltb (off + l) (length buf)) where
  abbrev front : List ℕ
  front = take l (drop off buf)

  abbrev message : Sent
  message = (if part then mux_new_msg_part else mux_new_msg, front)

  reassemble-front :
      (new : List Sent)
      → (off + l ≡ length buf → new ≡ [])
      → (off + l < length buf → reassemble new ≡ some (drop (off + l) buf))
      → reassemble (message ∷ new) ≡ some (drop off buf)
  reassemble-front new idle more = elim (Bool-cases (ltb (off + l) (length buf))) [
    | inl inner ↦
        let is_part : part ≡ true = mark ∙ inner in
        rw is_part (
          reassemble-part front (drop (off + l) buf) new (more (ltb→lt _ _ inner))
          ∙ ap (λ t. some (front ++ t)) (drop-drop off l buf)
          ∙ ap some (take-append-drop l (drop off buf)))
    | inr last ↦
        let is_last : part ≡ false = mark ∙ last in
        let no_more : new ≡ [] = idle (ground arith) in
        rw (is_last, no_more)
          (reassemble-last front
            ∙ ap some (take_all l (drop off buf) (ground (arith, length-drop off buf))))
  ]

  goes_on : Did buf (off + l) (n + l) (out ++ (message ∷ [])) r → Did buf off n out r
  goes_on d = record {
    new = message ∷ d.new;
    after = d.after ∙ append_assoc out (message ∷ []) d.new;
    grows = omega (arith, d.grows);
    inside = omega (arith, d.grows, d.inside);
    content =
        ap (λ t. front ++ t) (d.content ∙ ap (take (r.n - (n + l))) (drop-drop off l buf))
        ∙ take-take-drop l (r.n - (n + l)) (drop off buf)
        ∙ ap (λ (j : ℕ). take j (drop off buf)) (omega (arith, d.grows));
    sizes = (omega (arith, length-take l (drop off buf), length-drop off buf), d.sizes);
    idle = λ q. absurd (omega arith);
    whole = λ q.
        (omega (arith, d.grows, (d.whole q).0), λ lt. reassemble-front d.new d.idle (d.whole q).1);
  }

Loop : ℕ → Type 0
Loop fuel =
    (ts : List Turn) (w : SendWindow) (n : ℕ) (out : List Sent) (r : Written)
    → w.off ≤ length w.buf
    → length w.buf < 2 ^ 32
    → write_loop fuel ts w n out ≡ some r
    → Did w.buf w.off n out r

-- One round, given what the later ones do.
suc-Loop : (fuel : ℕ) → Loop fuel → Loop (suc fuel)
unfolding write_loop Loop
suc-Loop fuel ih ts w n out r le small e = go (write_to ts w) refl
  where
    go : (o : Option (List Turn × SendWindow × Wrote)) → write_to ts w ≡ o → Did w.buf w.off n out r
    go none q = ground (arith, q)
    go (some (ts', w', drained)) q =
        let at_end : w.off ≡ length w.buf = write_to-Cuts ts w ts' w' drained le small q in
        let end_state : Written = record { window = w'; n = n; error = none; messages = out } in
        let ends : end_state ≡ r = ground (arith, q) in
        subst (Did w.buf w.off n out) ends (stops w.buf w.off n out w' none le (λ z. at_end))
    go (some (ts', w', failed x)) q =
        let end_state : Written = record { window = w'; n = n; error = some x; messages = out } in
        let ends : end_state ≡ r = ground (arith, q) in
        subst (Did w.buf w.off n out) ends (stops w.buf w.off n out w' (some x) le (λ z. cc))
    go (some (ts', w', segment p l part)) q =
        let (same_p, pos, few, fits, mark, moved, kept) =
          write_to-Cuts ts w ts' w' (segment p l part) le small q in
        let msg : List ℕ → Sent = λ b. (if part then mux_new_msg_part else mux_new_msg, b) in
        let later : write_loop fuel ts' w' (n + l) (out ++ (msg p ∷ [])) ≡ some r =
          ground (arith, q) in
        let d : Did w'.buf w'.off (n + l) (out ++ (msg p ∷ [])) r =
          ih ts' w' (n + l) (out ++ (msg p ∷ [])) r (ground arith) (ground arith) later in
        goes_on w.buf w.off n l out r part pos few fits mark (
          subst (λ b. Did w.buf (w.off + l) (n + l) (out ++ (msg b ∷ [])) r) same_p
            (subst (λ (o : ℕ). Did w.buf o (n + l) (out ++ (msg p ∷ [])) r) moved
              (subst (λ b. Did b w'.off (n + l) (out ++ (msg p ∷ [])) r) kept d)))

fuel-Loop : (fuel : ℕ) → Loop fuel
fuel-Loop zero = unfold Loop write_loop in λ ts w n out r le small e. cc
fuel-Loop (suc fuel) = suc-Loop fuel (fuel-Loop fuel)

nonempty_length : {A : Type 0} (b : List A) → b ≢ [] → 0 < length b
nonempty_length [] h = absurd (h refl)
nonempty_length (x ∷ b) h = omega arith

module _ (ts : List Turn) (w : SendWindow) (buf : List ℕ) (r : Written)
    (small : length buf < 2 ^ 32) (e : write_full ts w buf ≡ some r) where
  -- Whatever happens during the waits, a WriteFull that returns has sent the first n bytes of a
  -- buffer of less than 2^32 bytes, in order, in messages of 1 to 4085 bytes.
  pub write_full_lem :
      (r.n ≤ length buf) × (joined r.messages ≡ take r.n buf) × All IsSegment r.messages
  unfolding write_full Loop
  write_full_lem =
      let d = fuel-Loop (suc (length buf)) ts (set_send_buf w buf) 0 [] r (omega arith) small e in
      (
        omega (arith, d.inside),
        rw d.after (d.content ∙ ap (λ (k : ℕ). take k buf) (omega arith)),
        rw d.after d.sizes,
      )

  -- Whatever happens during the waits, a WriteFull that returns no error has sent the whole of a
  -- buffer that is not empty and has less than 2^32 bytes, in messages that the other side joins to
  -- the same buffer.
  pub write_full_whole :
      r.error ≡ none → buf ≢ [] → (r.n ≡ length buf) × (reassemble r.messages ≡ some buf)
  unfolding write_full Loop
  write_full_whole ok ne =
      let d = fuel-Loop (suc (length buf)) ts (set_send_buf w buf) 0 [] r (omega arith) small e in
      let (all, content) = d.whole ok in
      (omega (arith, all), rw d.after (content (nonempty_length buf ne)))
