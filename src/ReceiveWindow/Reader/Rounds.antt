-- ===== src/ReceiveWindow/Reader/Rounds.antt =====
-- The rounds of `readFromQueue` where the queue has what the reader needs.
use nps_mux.Base.{
  ℕ, ◌+◌, ◌-◌, ◌^◌, ◌≤◌, ◌<◌, ◌≡◌, sym, ap, ◌∙◌, subst, arith, Bool, false, not, some, List, [],
  ◌∷◌, ◌++◌, length, length-append, length-take, length-drop, take, take_all, take-append-drop,
  drop, drop-drop, All, ◌==◌, if◌then◌else◌,
}
use mathlib.Core.List.{append_assoc}
use native.Mathlib.Decide.{dec_lt}
use nps_mux.Window.{window_pack}
use nps_mux.Window.Word.{Fits31}
use nps_mux.ReceiveQueue.{ListElement}
use nps_mux.ReceiveQueue.Count.{total, Counts}
use nps_mux.ReceiveWindow.{ReceiveWindow}
use nps_mux.ReceiveWindow.Reader.{Reading, Visit}
use nps_mux.ReceiveWindow.Reader.Unread.{IsElement, bytes_of, held, all_acked, Copies}

-- A visit during which nobody else acts.
abbrev pub quiet : Visit
quiet = record { pauses = []; word = λ w. w; closes = false }

-- A reader whose current element is `cur`, and which finds `xs` in the queue.
pub record Ready (w : ReceiveWindow) (cur : ListElement) (xs : List ListElement) (m p : ℕ)
    : Type 0 where
  pub element : w.element ≡ some cur
  pub inside : w.off ≤ cur.l
  pub sized : cur.l ≡ length cur.buf
  pub short : cur.l < 2 ^ 16
  pub open_still : w.close_op ≡ false
  pub wait : Bool
  pub word : w.max_size_done ≡ window_pack m p wait
  pub fits : Fits31 p
  pub reader : Bool
  pub counts : Counts w.buf_queue xs reader
  pub formed : All IsElement xs

-- The bytes that the reader has not read.
abbrev pub unread : ReceiveWindow → ListElement → List ListElement → List ℕ
unread w cur xs = drop w.off cur.buf ++ bytes_of xs

-- The last of the elements ends a message.
abbrev pub ends_message : ListElement → List ListElement → Bool
ends_message e [] = not e.part
ends_message e (x ∷ xs) = ends_message x xs

-- The rounds that are needed.
abbrev pub rounds : ReceiveWindow → ListElement → List ListElement → ℕ
rounds w cur xs = (if w.off == cur.l then 0 else 1) + length xs

-- What the rounds do.
pub record Reads (r : Reading) (cur : ListElement) (xs : List ListElement) (m p room : ℕ)
    (r' : Reading) : Type 0 where
  pub cur' : ListElement
  pub ys : List ListElement
  pub p' : ℕ
  pub ready : Ready r'.window cur' ys m p'
  pub bytes : r'.copied ++ unread r'.window cur' ys ≡ r.copied ++ unread r.window cur xs
  pub error : r'.error ≡ r.error
  pub counted : r'.n + length r.copied ≡ r.n + length r'.copied
  pub few : length r'.copied ≤ length r.copied + room
  pub progress : length r.copied < length r'.copied
  pub ledger :
      all_acked r'.reports + p' + held cur' r'.window.off + total ys
      ≡ all_acked r.reports + p + held cur r.window.off + total xs

module _ (e : ListElement) (xs : List ListElement) (room m p : ℕ) (r r' : Reading)
    (h : Ready r.window e xs m p) (inside : r.window.off < e.l) (pos : 1 ≤ room)
    (c : Copies e room m p r r') where
  abbrev left : List ℕ
  left = drop r.window.off e.buf

  length-left : length left ≡ e.l - r.window.off
  length-left = length-drop r.window.off e.buf ∙ omega (arith, h.sized)

  pub length-got : (length c.got ≤ room) × (1 ≤ length c.got) × (length c.got ≤ e.l - r.window.off)
  length-got = omega (arith, ap length c.bytes, length-take room left, length-left)

  -- A copy that leaves room in the buffer has finished the element.
  pub finished : length c.got < room → r'.window.off ≡ e.l
  finished lt =
      omega (arith, c.off, ap length c.bytes, length-take room left, length-left, h.inside)

  pub now-Ready : Ready r'.window e xs m c.pending
  now-Ready = record {
    element = c.element ∙ h.element;
    inside = omega (arith, c.off, length-got, h.inside);
    sized = h.sized;
    short = h.short;
    open_still = c.close_op ∙ h.open_still;
    wait = c.wait;
    word = c.word;
    fits = c.fits;
    reader = h.reader;
    counts = subst (λ q. Counts q xs h.reader) (sym c.queue) h.counts;
    formed = h.formed;
  }

  split : c.got ++ drop r'.window.off e.buf ≡ left
  split =
      ap (λ (o : ℕ). c.got ++ drop o e.buf) c.off
      ∙ ap (λ t. c.got ++ t) (drop-drop r.window.off (length c.got) e.buf)
      ∙ by_take c.got c.bytes
    where
      by_take : (g : List ℕ) → g ≡ take room left → g ++ drop (length g) left ≡ left
      by_take g q =
          ap (λ t. t ++ drop (length g) left) (q ∙ shorter) ∙ take-append-drop (length g) left
        where
          shorter : take room left ≡ take (length g) left
          shorter = elim (dec_lt room (length left)) [
            | yes lt ↦
                ap (λ (k : ℕ). take k left) (omega (arith, ap length q, length-take room left))
            | no ge ↦
                take_all room left (omega arith)
                ∙ sym (take_all (length g) left (omega (arith, ap length q, length-take room left)))
          ]

  -- The bytes copied and those left are the bytes that were left.
  pub copied-unread : r'.copied ++ unread r'.window e xs ≡ r.copied ++ unread r.window e xs
  copied-unread =
      ap (λ t. t ++ unread r'.window e xs) c.copied
      ∙ append_assoc r.copied c.got (unread r'.window e xs)
      ∙ ap (λ t. r.copied ++ t)
          (sym (append_assoc c.got (drop r'.window.off e.buf) (bytes_of xs))
            ∙ ap (λ t. t ++ bytes_of xs) split)

  -- The copy, seen from the reader.
  pub stops : Reads r e xs m p room r'
  stops = record {
    cur' = e;
    ys = xs;
    p' = c.pending;
    ready = now-Ready;
    bytes = copied-unread;
    error = c.error;
    counted = omega (arith, c.counted, ap length c.copied, length-append r.copied c.got);
    few = omega (arith, ap length c.copied, length-append r.copied c.got, length-got);
    progress = omega (arith, ap length c.copied, length-append r.copied c.got, length-got);
    ledger = ground (arith, c.ledger);
  }

  -- The copy and the rounds that follow it.
  pub goes_on :
      (r'' : Reading)
      → Reads r' e xs m c.pending (room - length c.got) r''
      → Reads r e xs m p room r''
  unfolding stops
  goes_on r'' d = record {
    cur' = d.cur';
    ys = d.ys;
    p' = d.p';
    ready = d.ready;
    bytes = d.bytes ∙ stops.bytes;
    error = d.error ∙ c.error;
    counted = omega (arith, d.counted, stops.counted);
    few = omega (arith, d.few, ap length c.copied, length-append r.copied c.got, length-got);
    progress = omega (arith, d.progress, stops.progress);
    ledger = d.ledger ∙ stops.ledger;
  }
