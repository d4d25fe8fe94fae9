-- ===== src/FlowControl/SenderSteps.antt =====
-- The steps of the sender keep the balance.
use nps_mux.Base.{
  ℕ, ◌+◌, ◌-◌, ◌^◌, ◌≤◌, ◌<◌, ◌≡◌, refl, sym, ap, subst, ◌∙◌, arith, Bool, true, false, ◌&&◌, some,
  List, [], ◌∷◌, ◌++◌, length, length-take, length-drop, drop, All, All-append, leb, ◌==◌,
  Bool-cases, inl, inr,
}
use mathlib.Core.List.{append-nil, append_assoc}
use nps_mux.Window.{window_pack}
use nps_mux.Window.Word.{Fits31}
use nps_mux.SendWindow.{
  SendWindow, set_send_buf, free_space, set_wait, set_size, taken, write_to, segment,
}
use nps_mux.SendWindow.SetSize.{set_size_slides, set_size_same}
use nps_mux.SendWindow.Segments.{write_to-Cuts}
use nps_mux.SendWindow.Segments.Count.{write_to-word, free_space_lem, set_wait_lem}
use nps_mux.ReceiveWindow.Report.{IsReport, acked, acked-pack}
use nps_mux.ReceiveWindow.Reader.Unread.{all_acked}
use nps_mux.ReceiveWindow.Reader.Rounds.{unread}
use nps_mux.FlowControl.{Link}
use nps_mux.FlowControl.Balance.{Balanced, Sends, IsContent, in_flight-append, contents}

pub contents-append :
    (ms : List (List ℕ × Bool)) (p : List ℕ) (part : Bool)
    → contents (ms ++ ((p, part) ∷ [])) ≡ contents ms ++ p
contents-append [] p part = append-nil p
contents-append ((q, b) ∷ ms) p part =
    ap (λ t. q ++ t) (contents-append ms p part) ∙ sym (append_assoc q (contents ms) p)

module _ (k : Link) (h : Balanced k) where
  open h use {m, s, b, sends, size, pending, cur, xs}

  pub loads-Balanced :
      (buf : List ℕ)
      → length buf < 2 ^ 32
      → Balanced (record k { sender = set_send_buf k.sender buf })
  loads-Balanced buf small = record {
    m = m;
    s = s;
    b = b;
    sends = record {
      word = sends.word;
      size_fits = sends.size_fits;
      count_fits = sends.count_fits;
      open_still = sends.open_still;
      channel = sends.channel;
      inside = omega arith;
      small = small;
      stuck = sends.stuck;
    };
    size = size;
    size_fits = h.size_fits;
    pending = pending;
    cur = cur;
    xs = xs;
    ready = h.ready;
    formed = h.formed;
    words = h.words;
    ledger = h.ledger;
    idle = h.idle;
    history = h.history;
  }

  pub waits-Balanced :
      free_space k.sender ≡ 0
      → Balanced (record k {
        sender = record k.sender { max_size_done = set_wait k.sender.max_size_done };
      })
  waits-Balanced full = record {
    m = m;
    s = s;
    b = true;
    sends = record {
      word = set_wait_lem k.sender m s b sends.word sends.size_fits sends.count_fits;
      size_fits = sends.size_fits;
      count_fits = sends.count_fits;
      open_still = sends.open_still;
      channel = sends.channel;
      inside = sends.inside;
      small = sends.small;
      stuck =
          ground (
            arith,
            full,
            free_space_lem k.sender m s b sends.word sends.size_fits sends.count_fits,
          );
    };
    size = size;
    size_fits = h.size_fits;
    pending = pending;
    cur = cur;
    xs = xs;
    ready = h.ready;
    formed = h.formed;
    words = h.words;
    ledger = h.ledger;
    idle = h.idle;
    history = h.history;
  }

  pub writes-Balanced :
      (w : SendWindow) (p : List ℕ) (l : ℕ) (part : Bool)
      → write_to [] k.sender ≡ some ([], w, segment p l part)
      → Balanced (record k {
        sender = w;
        messages = k.messages ++ ((p, part) ∷ []);
        written = k.written ++ p;
      })
  writes-Balanced w p l part e =
      let (bytes, pos, few, fits, mark, moved, kept) =
        write_to-Cuts [] k.sender [] w (segment p l part) sends.inside sends.small e in
      let c =
        write_to-word k.sender m s b sends.word sends.size_fits sends.count_fits w p l part e in
      let sized : length p ≡ l = omega (
        arith,
        ap length bytes,
        length-take l (drop k.sender.off k.sender.buf),
        length-drop k.sender.off k.sender.buf,
      ) in
      record {
        m = m;
        s = s + l;
        b = b;
        sends = record {
          word = c.word;
          size_fits = sends.size_fits;
          count_fits = omega (arith, c.room, sends.size_fits);
          open_still = c.open_still ∙ sends.open_still;
          channel = c.channel ∙ sends.channel;
          inside = omega (arith, moved, ap length kept);
          small = omega (arith, sends.small, ap length kept);
          stuck = ground (arith, sends.stuck, c.free);
        };
        size = size;
        size_fits = h.size_fits;
        pending = pending;
        cur = cur;
        xs = xs;
        ready = h.ready;
        formed =
            All-append IsContent k.messages ((p, part) ∷ []) h.formed
              ((omega arith, omega arith), tt);
        words = h.words;
        ledger = omega (arith, h.ledger, sized, in_flight-append k.messages ((p, part) ∷ []));
        idle = h.idle;
        history =
            ap (λ t. t ++ p) h.history
            ∙ append_assoc k.read (unread k.receiver cur xs ++ contents k.messages) p
            ∙ ap (λ t. k.read ++ t)
                (append_assoc (unread k.receiver cur xs) (contents k.messages) p
                  ∙ ap (λ t. unread k.receiver cur xs ++ t)
                      (sym (contents-append k.messages p part)));
      }

  -- What `SetSize` makes of a report of no more than is outstanding.
  pub slides :
      (m' r : ℕ) (w : SendWindow) (closed signal : Bool)
      → Fits31 m'
      → Fits31 r
      → r ≤ s
      → set_size [] taken k.sender (window_pack m' r false) ≡ some (w, closed, signal)
      → (b' : Bool) × Sends w m' (s - r) b'
  slides m' r w closed signal hm' hr le e = elim (Bool-cases (r == 0 && m' == m)) [
    | inl nothing ↦
        let none_read : r ≡ 0 = ground (arith, nothing) in
        let same_size : m' ≡ m = ground (arith, nothing) in
        let same =
          set_size_same k.sender m s m' r b false sends.open_still sends.word sends.size_fits
            sends.count_fits hm' hr none_read same_size in
        let w_same : k.sender ≡ w = cc in
        (
          b,
          subst (λ v. Sends v m' (s - r) b) w_same
              (record {
                word =
                    sends.word
                    ∙ ap (λ (t : ℕ). window_pack t s b) (sym same_size)
                    ∙ ap (λ (t : ℕ). window_pack m' t b) (omega arith);
                size_fits = hm';
                count_fits = omega (arith, sends.count_fits);
                open_still = sends.open_still;
                channel = sends.channel;
                inside = sends.inside;
                small = sends.small;
                stuck = ground (arith, sends.stuck);
              }),
        )
    | inr change ↦
        let slid =
          set_size_slides k.sender m s m' r b false sends.open_still sends.word sends.size_fits
            sends.count_fits hm' hr le change sends.channel in
        let b' = b && leb m' (s - r) in
        let w_same : record k.sender { max_size_done = window_pack m' (s - r) b' } ≡ w = cc in
        (
          b',
          subst (λ v. Sends v m' (s - r) b') w_same
              (record {
                word = refl;
                size_fits = hm';
                count_fits = omega (arith, sends.count_fits);
                open_still = sends.open_still;
                channel = sends.channel;
                inside = sends.inside;
                small = sends.small;
                stuck = ground arith;
              }),
        )
  ]

  -- No report exceeds what is outstanding.
  pub oldest_le :
      (word : ℕ) (rest : List ℕ)
      → k.reports ≡ word ∷ rest
      → (m' : ℕ) × (r : ℕ) × (word ≡ window_pack m' r false)
        × Fits31 m'
        × Fits31 r
        × (r ≤ s)
        × (all_acked k.reports ≡ r + all_acked rest)
        × All IsReport rest
  oldest_le word rest e =
      let words = subst (All IsReport) e h.words in
      let (m', r, form, hm', hr) = words.0 in
      let counts : acked (some word) ≡ r =
        ap (λ (t : ℕ). acked (some t)) form ∙ acked-pack m' r false ∙ omega arith in
      let sum : all_acked k.reports ≡ r + all_acked rest = omega (arith, ap all_acked e, counts) in
      (m', r, form, hm', hr, omega (arith, h.ledger, sum), sum, words.1)

  pub reports_back-Balanced :
      (word : ℕ) (rest : List ℕ) (w : SendWindow) (closed signal : Bool)
      → k.reports ≡ word ∷ rest
      → set_size [] taken k.sender word ≡ some (w, closed, signal)
      → Balanced (record k { sender = w; reports = rest })
  reports_back-Balanced word rest w closed signal e done =
      let (m', r, form, hm', hr, le, sum, words) = oldest_le word rest e in
      let (b', sends') =
        slides m' r w closed signal hm' hr le
          (ap (λ (t : ℕ). set_size [] taken k.sender t) (sym form) ∙ done) in
      record {
        m = m';
        s = s - r;
        b = b';
        sends = sends';
        size = size;
        size_fits = h.size_fits;
        pending = pending;
        cur = cur;
        xs = xs;
        ready = h.ready;
        formed = h.formed;
        words = words;
        ledger = omega (arith, h.ledger, sum, le);
        idle = h.idle;
        history = h.history;
      }
