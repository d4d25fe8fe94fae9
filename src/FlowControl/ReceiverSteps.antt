-- ===== src/FlowControl/ReceiverSteps.antt =====
-- The steps of the receiver keep the balance.
use nps_mux.Base.{
  ℕ, ◌+◌, ◌%◌, ◌^◌, ◌≤◌, ◌<◌, ◌≡◌, refl, sym, ap, subst, ◌∙◌, arith, Bool, false, Option, none,
  some, List, [], ◌∷◌, ◌++◌, length, drop, All, All-append, ◌==◌, Bool-cases, inl, inr,
}
use mathlib.Core.List.{append-nil, append_assoc}
use nps_mux.Window.{window_pack}
use nps_mux.Window.Word.{window_pack-mod}
use nps_mux.ReceiveQueue.{ListElement, receive_pop, receive_len}
use nps_mux.ReceiveQueue.Count.{total, total-append, Counts, receive_len-total}
use nps_mux.ReceiveWindow.{ReceiveWindow, Measured, receive_write}
use nps_mux.ReceiveWindow.Report.{IsReport, SendsReport, acked, is_none, receive_write-acked}
use nps_mux.ReceiveWindow.Reader.{Reading, copy_out, next_element, start_reading, report}
use nps_mux.ReceiveWindow.Reader.Unread.{
  IsElement, held, bytes_of, all_acked-append, all_acked-report, copy_out_lem,
}
use nps_mux.ReceiveWindow.Reader.Rounds.{quiet, Ready, unread, now-Ready, copied-unread}
use nps_mux.ReceiveWindow.Reader.Whole.{first-Ready, drop_end}
use nps_mux.FlowControl.{Link}
use nps_mux.FlowControl.Balance.{Balanced, IsContent, in_flight, contents}

report-IsReport : (ack : Option ℕ) → SendsReport ack → All IsReport (report ack)
report-IsReport none h = tt
report-IsReport (some word) h = (h, tt)

bytes_of-append : (xs ys : List ListElement) → bytes_of (xs ++ ys) ≡ bytes_of xs ++ bytes_of ys
bytes_of-append [] ys = refl
bytes_of-append (x ∷ xs) ys =
    ap (λ t. x.buf ++ t) (bytes_of-append xs ys)
    ∙ sym (append_assoc x.buf (bytes_of xs) (bytes_of ys))

module _ (k : Link) (h : Balanced k) where
  open h use {m, s, b, sends, size, pending, cur, xs, ready}

  -- The receiver after `Write` made the element of a message.
  delivered :
      (p : List ℕ) (part : Bool) (rest : List (List ℕ × Bool)) (w : ReceiveWindow) (ack : Option ℕ)
      (m' r : ℕ)
      → k.messages ≡ (p, part) ∷ rest
      → w.max_size_done ≡ window_pack m' r (is_none ack)
      → acked ack + r ≡ pending
      → Counts w.buf_queue (xs ++ ((record { buf = p; l = length p; part = part }) ∷ [])) false
      → w.off ≡ k.receiver.off
      → w.element ≡ k.receiver.element
      → w.close_op ≡ k.receiver.close_op
      → SendsReport ack
      → Balanced (record k { receiver = w; messages = rest; reports = k.reports ++ report ack })
  delivered p part rest w ack m' r e word sum counts off element close_op form =
      let ms = subst (All IsContent) e h.formed in
      let x : ListElement = record { buf = p; l = length p; part = part } in
      let flying : in_flight k.messages ≡ length p + in_flight rest = ap in_flight e in
      let waiting : total (xs ++ (x ∷ [])) ≡ total xs + length p =
        omega (arith, total-append xs (x ∷ [])) in
      record {
        m = m;
        s = s;
        b = b;
        sends = sends;
        size = m' % 2 ^ 31;
        size_fits = omega arith;
        pending = r;
        cur = cur;
        xs = xs ++ (x ∷ []);
        ready = record {
          element = element ∙ ready.element;
          inside = omega (arith, off, ready.inside);
          sized = ready.sized;
          short = ready.short;
          open_still = close_op ∙ ready.open_still;
          wait = is_none ack;
          word = word ∙ sym (window_pack-mod m' r (is_none ack));
          fits = omega (arith, sum, ready.fits);
          reader = false;
          counts = counts;
          formed = All-append IsElement xs (x ∷ []) ready.formed ((refl, ms.0.0, ms.0.1), tt);
        };
        formed = ms.1;
        words = All-append IsReport k.reports (report ack) h.words (report-IsReport ack form);
        ledger =
            let same : held cur w.off ≡ held cur k.receiver.off = ap (λ (o : ℕ). held cur o) off in
            omega (
              arith,
              h.ledger,
              flying,
              waiting,
              sum,
              same,
              all_acked-append k.reports (report ack),
              all_acked-report ack,
            );
        idle = ground (arith, waiting, ms.0.0);
        history =
            h.history
            ∙ ap (λ t. k.read ++ t)
                (ap (λ t. unread k.receiver cur xs ++ t) (ap contents e)
                  ∙ sym (append_assoc (unread k.receiver cur xs) p (contents rest))
                  ∙ ap (λ t. t ++ contents rest)
                      (append_assoc (drop k.receiver.off cur.buf) (bytes_of xs) p
                        ∙ ap (λ (o : ℕ). drop o cur.buf ++ (bytes_of xs ++ p)) (sym off)
                        ∙ ap (λ t. drop w.off cur.buf ++ t)
                            (ap (λ t. bytes_of xs ++ t) (sym (append-nil p))
                              ∙ sym (bytes_of-append xs (x ∷ [])))));
      }

  pub delivers-Balanced :
      (t : Measured) (p : List ℕ) (part : Bool) (rest : List (List ℕ × Bool)) (w : ReceiveWindow)
      (ack : Option ℕ)
      → k.messages ≡ (p, part) ∷ rest
      → receive_write [] t k.receiver p (length p) part ≡ some (w, none, ack)
      → Balanced (record k { receiver = w; messages = rest; reports = k.reports ++ report ack })
  delivers-Balanced t p part rest w ack e done =
      let ms = subst (All IsContent) e h.formed in
      let flying : in_flight k.messages ≡ length p + in_flight rest = ap in_flight e in
      let (w₁, ack₁, eq, m', r, word, sum, counts, off, element, close_op, form) =
        receive_write-acked t k.receiver size pending ready.wait p part xs ready.reader
          ready.open_still ready.word h.size_fits ready.fits ready.counts ms.0.1
          (omega (arith, h.ledger, flying, sends.count_fits)) in
      let after = delivered p part rest w₁ ack₁ m' r e word sum counts off element close_op form in
      let same : w₁ ≡ w = cc in
      let same_ack : ack₁ ≡ ack = cc in
      subst
        (λ a.
          Balanced (record k { receiver = w; messages = rest; reports = k.reports ++ report a }))
        same_ack
        (subst
          (λ v.
            Balanced
              (record k { receiver = v; messages = rest; reports = k.reports ++ report ack₁ }))
          same after)

  -- The next element of a queue that has one.
  takes_first :
      (x : ListElement) (ys : List ListElement) (w : ReceiveWindow)
      → xs ≡ x ∷ ys
      → k.receiver.off ≡ cur.l
      → next_element quiet k.receiver ≡ some (w, none)
      → Balanced (record k { receiver = w })
  takes_first x ys w e done ran =
      let here = subst (λ zs. Ready k.receiver cur zs size pending) e ready in
      let (w₁, eq, ready₁, zero_off, _) =
        first-Ready size h.size_fits (start_reading k.receiver) cur x ys pending here in
      let same : w₁ ≡ w = cc in
      let waiting : total xs ≡ x.l + total ys = ap total e in
      let (_, pos, _) = here.formed.0 in
      let before : held cur k.receiver.off ≡ 0 = ground (arith, done) in
      let after : held x w₁.off ≡ x.l = ground (arith, zero_off, pos) in
      subst (λ v. Balanced (record k { receiver = v })) same
        (record {
          m = m;
          s = s;
          b = b;
          sends = sends;
          size = size;
          size_fits = h.size_fits;
          pending = pending;
          cur = x;
          xs = ys;
          ready = ready₁;
          formed = h.formed;
          words = h.words;
          ledger = omega (arith, h.ledger, waiting, before, after);
          idle = ground (arith, after, pos);
          history =
              h.history
              ∙ ap (λ t. k.read ++ (t ++ contents k.messages))
                  (ap (λ zs. drop k.receiver.off cur.buf ++ bytes_of zs) e
                    ∙ ap (λ t. t ++ (x.buf ++ bytes_of ys))
                        (drop_end cur.buf k.receiver.off (done ∙ ready.sized))
                    ∙ ap (λ (o : ℕ). drop o x.buf ++ bytes_of ys) (sym zero_off));
        })

  nothing_waits : (w : ReceiveWindow) → xs ≡ [] → ¬ (next_element quiet k.receiver ≡ some (w, none))
  unfolding next_element receive_pop
  nothing_waits w e ran =
      let none_there : receive_len k.receiver.buf_queue ≡ 0 =
        receive_len-total k.receiver.buf_queue xs ready.reader ready.counts ∙ ap total e in
      ground (arith, none_there)

  pub takes-Balanced :
      (c : ListElement) (w : ReceiveWindow)
      → k.receiver.element ≡ some c
      → k.receiver.off ≡ c.l
      → next_element quiet k.receiver ≡ some (w, none)
      → Balanced (record k { receiver = w })
  takes-Balanced c w e done ran = go xs refl
    where
      go : (zs : List ListElement) → xs ≡ zs → Balanced (record k { receiver = w })
      go [] q = absurd (nothing_waits w q ran)
      go (x ∷ ys) q =
          let same : c ≡ cur = ground (arith, e, ready.element) in
          takes_first x ys w q (done ∙ ap (λ t. t.l) same) ran

  copies_current :
      (room : ℕ) (r : Reading)
      → k.receiver.off < cur.l
      → 1 ≤ room
      → copy_out cur room (start_reading k.receiver) ≡ some r
      → Balanced (record k {
        receiver = r.window;
        reports = k.reports ++ r.reports;
        read = k.read ++ r.copied;
      })
  copies_current room r inside pos ran =
      let start = start_reading k.receiver in
      let (r₁, eq, c) =
        copy_out_lem cur room size pending ready.wait start (ready.sized, omega arith, ready.short)
          inside ready.word h.size_fits ready.fits in
      let same : r₁ ≡ r = cc in
      let kept = copied-unread cur xs room size pending start r₁ ready inside pos c in
      let unfinished : held cur k.receiver.off ≡ cur.l = ground arith in
      let small : pending + cur.l < 2 ^ 31 =
        omega (arith, h.ledger, unfinished, sends.count_fits) in
      let words = subst (All IsReport) (sym c.reported) (c.in_form small) in
      subst
        (λ v. Balanced (record k {
          receiver = v.window;
          reports = k.reports ++ v.reports;
          read = k.read ++ v.copied;
        }))
        same
        (record {
          m = m;
          s = s;
          b = b;
          sends = sends;
          size = size;
          size_fits = h.size_fits;
          pending = c.pending;
          cur = cur;
          xs = xs;
          ready = now-Ready cur xs room size pending start r₁ ready inside pos c;
          formed = h.formed;
          words = All-append IsReport k.reports r₁.reports h.words words;
          ledger =
              omega (arith, h.ledger, c.ledger, unfinished, all_acked-append k.reports r₁.reports);
          idle = elim (Bool-cases (total xs + held cur r₁.window.off == 0)) [
            | inr busy ↦ rw busy refl
            | inl empty ↦
                let none_there : receive_len k.receiver.buf_queue ≡ 0 =
                  receive_len-total k.receiver.buf_queue xs ready.reader ready.counts
                  ∙ ground (arith, empty) in
                let over : r₁.window.off ≡ cur.l = ground (arith, empty, inside) in
                ground (arith, c.idle small none_there over)
          ];
          history =
              h.history
              ∙ ap (λ t. k.read ++ (t ++ contents k.messages)) (sym kept)
              ∙ ap (λ t. k.read ++ t)
                  (append_assoc r₁.copied (unread r₁.window cur xs) (contents k.messages))
              ∙ sym
                  (append_assoc k.read r₁.copied (unread r₁.window cur xs ++ contents k.messages));
        })

  pub copies-Balanced :
      (c : ListElement) (room : ℕ) (r : Reading)
      → k.receiver.element ≡ some c
      → k.receiver.off < c.l
      → 1 ≤ room
      → copy_out c room (start_reading k.receiver) ≡ some r
      → Balanced (record k {
        receiver = r.window;
        reports = k.reports ++ r.reports;
        read = k.read ++ r.copied;
      })
  copies-Balanced c room r e inside pos ran =
      let same : c ≡ cur = ground (arith, e, ready.element) in
      copies_current room r (subst (λ t. k.receiver.off < t.l) same inside) pos
        (subst (λ t. copy_out t room (start_reading k.receiver) ≡ some r) same ran)
