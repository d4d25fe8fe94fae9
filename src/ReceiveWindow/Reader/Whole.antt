-- ===== src/ReceiveWindow/Reader/Whole.antt =====
-- `readFromQueue` and `Read` as a caller sees them.
use nps_mux.Base.{
  ℕ, zero, suc, ◌+◌, ◌-◌, ◌≤◌, ◌<◌, ◌≡◌, refl, sym, ap, ◌∙◌, arith, Bool, true, false, ◌&&◌, none,
  some, List, [], ◌∷◌, ◌++◌, length, replicate, ltb, ◌==◌, Bool-cases, inl, inr, drop,
}
use nps_mux.Window.Word.{Fits31}
use nps_mux.ReceiveQueue.{ListElement}
use nps_mux.ReceiveQueue.Count.{total}
use nps_mux.ReceiveQueue.Wait.{receive_pop-cons}
use nps_mux.ReceiveWindow.{ReceiveWindow}
use nps_mux.ReceiveWindow.Reader.{
  Reading, serve, read_loop, read_from_queue, receive_read, next_element, start_reading,
}
use nps_mux.ReceiveWindow.Reader.Unread.{bytes_of, held, all_acked, copy_out_lem}
use nps_mux.ReceiveWindow.Reader.Rounds.{
  quiet, Ready, unread, ends_message, rounds, Reads, stops, goes_on, now-Ready, finished,
}

pub drop_end : (xs : List ℕ) (n : ℕ) → n ≡ length xs → drop n xs ≡ []
drop_end [] zero e = refl
drop_end [] (suc n) e = refl
drop_end (x ∷ xs) zero e = absurd (omega arith)
drop_end (x ∷ xs) (suc n) e = drop_end xs n (omega arith)

module _ (m : ℕ) (hm : Fits31 m) where
  -- What `k` visits are enough for.
  Loop : ℕ → Type 0
  Loop k =
      (r : Reading) (cur : ListElement) (xs : List ListElement) (p room : ℕ)
      → Ready r.window cur xs m p
      → 1 ≤ room
      → 1 ≤ rounds r.window cur xs
      → rounds r.window cur xs ≤ k
      → ends_message cur xs ≡ true
      → (r' : Reading) × (read_loop (replicate k quiet) room r ≡ some r')
        × Reads r cur xs m p room r'

  -- An element that is a part is followed by another one.
  next_waits :
      (b : Bool) (xs : List ListElement) (e : ListElement)
      → (b && e.part) ≡ true
      → ends_message e xs ≡ true
      → 1 ≤ length xs
  next_waits b [] e part last = ground arith
  next_waits b (x ∷ xs) e part last = omega arith

  -- A round on an element that is not finished.
  serve-Reads :
      (k : ℕ)
      → Loop k
      → (r : Reading) (e : ListElement) (xs : List ListElement) (p room : ℕ)
      → Ready r.window e xs m p
      → r.window.off < e.l
      → 1 ≤ room
      → length xs ≤ k
      → ends_message e xs ≡ true
      → (r' : Reading) × (serve (read_loop (replicate k quiet)) e room r ≡ some r')
        × Reads r e xs m p room r'
  unfolding serve Loop
  serve-Reads k ih r e xs p room h inside pos enough last =
      let (r₁, eq, c) =
        copy_out_lem e room m p h.wait r (h.sized, omega arith, h.short) inside h.word hm h.fits in
      elim (Bool-cases (ltb (length c.got) room && e.part)) [
        | inr done ↦
            (r₁, ground (arith, eq, c.counted, done), stops e xs room m p r r₁ h inside pos c)
        | inl more ↦
            let lt : length c.got < room = ground (arith, more) in
            let done : r₁.window.off ≡ e.l = finished e xs room m p r r₁ h inside pos c lt in
            let (r₂, eq', d) =
              ih r₁ e xs c.pending (room - length c.got)
                (now-Ready e xs room m p r r₁ h inside pos c) (omega arith)
                (ground (arith, done, next_waits (ltb (length c.got) room) xs e more last))
                (ground (arith, done)) last in
            let same : r₁.n - r.n ≡ length c.got = omega (arith, c.counted) in
            (
              r₂,
              ground (arith, eq, more, same, eq'),
              goes_on e xs room m p r r₁ h inside pos c r₂ d,
            )
      ]

  pub first-Ready :
      (r : Reading) (cur x : ListElement) (xs : List ListElement) (p : ℕ)
      → Ready r.window cur (x ∷ xs) m p
      → (w' : ReceiveWindow) × (next_element quiet r.window ≡ some (w', none))
        × Ready w' x xs m p
        × (w'.off ≡ 0)
        × (w'.element ≡ some x)
  unfolding next_element
  first-Ready r cur x xs p h =
      let (sized, pos, short) = h.formed.0 in
      let (q, eq, hq) =
        receive_pop-cons [] r.window.buf_queue x xs h.reader h.counts (omega arith) in
      (
        record r.window { buf_queue = q; off = 0; element = some x; close_op = false },
        ground (arith, eq, h.open_still),
        record {
          element = refl;
          inside = omega arith;
          sized = sized;
          short = short;
          open_still = refl;
          wait = h.wait;
          word = h.word;
          fits = h.fits;
          reader = h.reader;
          counts = hq;
          formed = h.formed.1;
        },
        refl,
        refl,
      )

  -- The first round on a finished element takes the next one.
  next_round :
      (k : ℕ)
      → Loop k
      → (r : Reading) (cur : ListElement) (xs : List ListElement) (p room : ℕ)
      → Ready r.window cur xs m p
      → 1 ≤ room
      → 1 ≤ length xs
      → length xs ≤ suc k
      → ends_message cur xs ≡ true
      → r.window.off ≡ cur.l
      → (r' : Reading) × (read_loop (quiet ∷ replicate k quiet) room r ≡ some r')
        × Reads r cur xs m p room r'
  unfolding read_loop
  next_round k ih r cur [] p room h pos waits enough last done = absurd (omega arith)
  next_round k ih r cur (x ∷ xs) p room h pos waits enough last done =
      let (w', eq, h', zero_off, same) = first-Ready r cur x xs p h in
      let (_, first_pos, _) = h.formed.0 in
      let (r', eq', d) =
        serve-Reads k ih (record r { window = w' }) x xs p room h'
          (omega (arith, zero_off, first_pos)) pos (omega arith) last in
      (
        r',
        ground (arith, h.element, h.open_still, done, eq, same, eq'),
        record {
          cur' = d.cur';
          ys = d.ys;
          p' = d.p';
          ready = d.ready;
          bytes =
              d.bytes
              ∙ ap (λ t. r.copied ++ t)
                  (ap (λ (o : ℕ). drop o x.buf ++ bytes_of xs) zero_off
                    ∙ ap (λ t. t ++ (x.buf ++ bytes_of xs))
                        (sym (drop_end cur.buf r.window.off (done ∙ h.sized))));
          error = d.error;
          counted = d.counted;
          few = d.few;
          progress = d.progress;
          ledger = d.ledger ∙ ground (arith, zero_off, done, first_pos);
        },
      )

  suc-Loop : (k : ℕ) → Loop k → Loop (suc k)
  unfolding Loop read_loop
  suc-Loop k ih r cur xs p room h pos waits enough last =
      elim (Bool-cases (r.window.off == cur.l)) [
        | inr open_element ↦
            let (r', eq, d) =
              serve-Reads k ih r cur xs p room h (ground (arith, open_element, h.inside)) pos
                (ground (arith, open_element)) last in
            (r', ground (arith, h.element, open_element, eq), d)
        | inl done ↦
            next_round k ih r cur xs p room h pos (ground (arith, done)) (ground (arith, done)) last
              (ground (arith, done))
      ]

  every-Loop : (k : ℕ) → Loop k
  every-Loop zero = unfold Loop in λ r cur xs p room h pos waits enough last. absurd (omega arith)
  every-Loop (suc k) = suc-Loop k (every-Loop k)

module _ (w : ReceiveWindow) (cur : ListElement) (xs : List ListElement) (m p room : ℕ)
    (hm : Fits31 m) (h : Ready w cur xs m p) (pos : 1 ≤ room) (waits : 1 ≤ rounds w cur xs)
    (last : ends_message cur xs ≡ true) where
  -- Where the queue ends with the last part of a message, Read with a buffer that is not empty
  -- returns without an error from 1 to room bytes, which are the next unread ones, also across
  -- elements; the bytes that are reported, to be reported, held and in the queue add up as before.
  pub receive_read-unread :
      (r : Reading) × (receive_read (replicate (rounds w cur xs) quiet) w room ≡ some r)
      × (r.error ≡ none)
      × (r.n ≡ length r.copied)
      × (1 ≤ r.n)
      × (r.n ≤ room)
      × (cur' : ListElement) × (ys : List ListElement) × (p' : ℕ) × Ready r.window cur' ys m p'
      × (r.copied ++ unread r.window cur' ys ≡ unread w cur xs)
      × (all_acked r.reports + p' + held cur' r.window.off + total ys
          ≡ p + held cur w.off + total xs)
  unfolding receive_read read_from_queue Loop
  receive_read-unread =
      let (r, eq, d) =
        every-Loop m hm (rounds w cur xs) (start_reading w) cur xs p room h pos waits (omega arith)
          last in
      (
        r,
        ground (arith, h.open_still, eq),
        d.error,
        omega (arith, d.counted),
        omega (arith, d.counted, d.progress),
        omega (arith, d.counted, d.few),
        d.cur',
        d.ys,
        d.p',
        d.ready,
        d.bytes,
        omega (arith, d.ledger),
      )
