-- ===== src/ReceiveWindow/Reader/Unread.antt =====
-- One copy of `readFromQueue`: the bytes go from the element into the buffer, and the word counts an element
-- that is finished.
use nps_mux.Base.{
  ℕ, ◌+◌, ◌%◌, ◌^◌, ◌≤◌, ◌<◌, ◌≡◌, refl, sym, ap, arith, Bool, false, Option, none, some, List, [],
  ◌∷◌, ◌++◌, length, length-take, length-drop, take, take_all, drop, All, ◌==◌, if◌then◌else◌,
  Bool-cases, inl, inr,
}
use mathlib.Core.List.{append-nil}
use nps_mux.Window.{window_pack, window_unpack}
use nps_mux.Window.Word.{Fits31, unpack-window_pack}
use nps_mux.ReceiveQueue.{ListElement, receive_len}
use nps_mux.ReceiveWindow.{ReceiveWindow, send_status}
use nps_mux.ReceiveWindow.Report.{
  acked, send_status-acked, send_status_idle, IsReport, send_status-IsReport,
}
use nps_mux.ReceiveWindow.Reader.{Reading, copy_out, report}

-- What the queue's elements are: as long as they say, not empty, and no longer than a uint16.
abbrev pub IsElement : ListElement → Type 0
IsElement e = (e.l ≡ length e.buf) × (1 ≤ e.l) × (e.l < 2 ^ 16)

-- The bytes of a list of elements, and of the current one from the offset on.
abbrev pub bytes_of : List ListElement → List ℕ
bytes_of [] = []
bytes_of (e ∷ es) = e.buf ++ bytes_of es

-- The bytes of an element that is not finished; they are reported when it is.
abbrev pub held : ListElement → ℕ → ℕ
held e off = if off == e.l then 0 else e.l

abbrev pub all_acked : List ℕ → ℕ
all_acked [] = 0
all_acked (word ∷ ws) = acked (some word) + all_acked ws

pub all_acked-append : (xs ys : List ℕ) → all_acked (xs ++ ys) ≡ all_acked xs + all_acked ys
all_acked-append [] ys = omega arith
all_acked-append (x ∷ xs) ys = omega (arith, all_acked-append xs ys)

pub all_acked-report : (ack : Option ℕ) → all_acked (report ack) ≡ acked ack
all_acked-report none = refl
all_acked-report (some word) = omega arith

-- `sendStatus` touches the word alone.
pub send_status_keeps :
    (w w' : ReceiveWindow) (l : ℕ) (ack : Option ℕ)
    → send_status [] w l ≡ some (w', ack)
    → (w'.off ≡ w.off)
      × (w'.element ≡ w.element)
      × (w'.buf_queue ≡ w.buf_queue)
      × (w'.close_op ≡ w.close_op)
      × (w'.stop_once ≡ w.stop_once)
      × (w'.count ≡ w.count)
unfolding send_status
send_status_keeps w w' l ack e = ground arith

-- What a copy leaves.
pub record Copies (e : ListElement) (room m : ℕ) (p : ℕ) (r r' : Reading) : Type 0 where
  pub got : List ℕ
  pub bytes : got ≡ take room (drop r.window.off e.buf)
  pub copied : r'.copied ≡ r.copied ++ got
  pub counted : r'.n ≡ r.n + length got
  pub error : r'.error ≡ r.error
  pub off : r'.window.off ≡ r.window.off + length got
  pub element : r'.window.element ≡ r.window.element
  pub queue : r'.window.buf_queue ≡ r.window.buf_queue
  pub close_op : r'.window.close_op ≡ r.window.close_op
  pub pending : ℕ
  pub wait : Bool
  pub word : r'.window.max_size_done ≡ window_pack m pending wait
  pub fits : Fits31 pending
  pub ledger : all_acked r'.reports + pending + held e r'.window.off ≡ all_acked r.reports + p + e.l
  pub ack : Option ℕ
  pub reported : r'.reports ≡ r.reports ++ report ack
  pub in_form : p + e.l < 2 ^ 31 → All IsReport (report ack)
  pub idle :
      p + e.l < 2 ^ 31 → receive_len r.window.buf_queue ≡ 0 → r'.window.off ≡ e.l → pending ≡ 0

module _ (e : ListElement) (room m p : ℕ) (b : Bool) (r : Reading) (h : IsElement e)
    (inside : r.window.off < e.l) (word : r.window.max_size_done ≡ window_pack m p b)
    (hm : Fits31 m) (hp : Fits31 p) where
  abbrev front : List ℕ
  front = take room (drop r.window.off e.buf)

  abbrev moved : ReceiveWindow
  moved = record r.window { off = (r.window.off + length front) % 2 ^ 32 }

  length-front : r.window.off + length front ≤ e.l
  length-front =
      omega (arith, h.0, length-take room (drop r.window.off e.buf), length-drop r.window.off e.buf)

  whole : take e.l e.buf ≡ e.buf
  whole = take_all e.l e.buf (omega (arith, h.0))

  in_form_by :
      (w' : ReceiveWindow) (ack : Option ℕ)
      → send_status [] moved e.l ≡ some (w', ack)
      → p + e.l < 2 ^ 31
      → All IsReport (report ack)
  in_form_by w' none h small = tt
  in_form_by w' (some v) h small = (send_status-IsReport moved w' m p e.l v b word hm small h, tt)

  idle_by :
      (w' : ReceiveWindow) (ack : Option ℕ) (p' : ℕ) (b' : Bool)
      → send_status [] moved e.l ≡ some (w', ack)
      → w'.max_size_done ≡ window_pack m p' b'
      → Fits31 p'
      → p + e.l < 2 ^ 31
      → receive_len r.window.buf_queue ≡ 0
      → p' ≡ 0
  idle_by w' ack p' b' h word' fits' small empty =
      let idle = send_status_idle moved m p e.l b word hm small empty in
      let same : window_pack m p' b' ≡ window_pack m 0 false = ground (arith, idle, h, word') in
      let counts = ap (λ (v : ℕ). (window_unpack v).1) same in
      ground (arith, counts, unpack-window_pack m p' b', unpack-window_pack m 0 false)

  pub copy_out_lem : (r' : Reading) × (copy_out e room r ≡ some r') × Copies e room m p r r'
  unfolding copy_out
  copy_out_lem = elim (Bool-cases (moved.off == e.l)) [
    | inr inner ↦
        let r' : Reading = record r {
          window = moved;
          copied = r.copied ++ front;
          n = r.n + length front;
        } in
        (
          r',
          ground (arith, whole, inner, h.0),
          record {
            got = front;
            bytes = refl;
            copied = refl;
            counted = refl;
            error = refl;
            off = omega (arith, length-front, h.2);
            element = refl;
            queue = refl;
            close_op = refl;
            pending = p;
            wait = b;
            word = word;
            fits = hp;
            ledger = rw inner refl;
            ack = none;
            reported = sym (append-nil r.reports);
            in_form = λ small. tt;
            idle = λ small empty done. absurd (ground (arith, inner, done));
          },
        )
    | inl last ↦
        let (w', ack, sent, p', b', word', fits', sum) =
          send_status-acked moved m p e.l b word hm hp (h.2) in
        let (keep_off, keep_element, keep_queue, keep_close, _, _) =
          send_status_keeps moved w' e.l ack sent in
        let r' : Reading = record r {
          window = w';
          copied = r.copied ++ front;
          n = r.n + length front;
          reports = r.reports ++ report ack;
        } in
        (
          r',
          ground (arith, whole, last, h.0, sent),
          record {
            got = front;
            bytes = refl;
            copied = refl;
            counted = refl;
            error = refl;
            off = omega (arith, keep_off, length-front, h.2);
            element = keep_element;
            queue = keep_queue;
            close_op = keep_close;
            pending = p';
            wait = b';
            word = word';
            fits = fits';
            ledger =
                rw (keep_off, last)
                  (omega
                    (arith, sum, all_acked-append r.reports (report ack), all_acked-report ack));
            ack = ack;
            reported = refl;
            in_form = λ small. in_form_by w' ack sent small;
            idle = λ small empty done. idle_by w' ack p' b' sent word' fits' small empty;
          },
        )
  ]
