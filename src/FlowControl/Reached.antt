-- ===== src/FlowControl/Reached.antt =====
-- What holds in every state that the two windows can reach.
use nps_mux.Base.{
  ℕ, ◌+◌, ◌≤◌, ◌≡◌, ap, ◌∙◌, arith, Bool, false, ◌&&◌, some, List, [], ◌∷◌, ◌++◌, All, ltb,
}
use nps_mux.Window.{window_unpack}
use nps_mux.Window.Word.{unpack-window_pack}
use nps_mux.ReceiveQueue.{ListElement, receive_len}
use nps_mux.ReceiveQueue.Count.{total, Counts, receive_len-total}
use nps_mux.ReceiveWindow.Reader.Unread.{IsElement, held, all_acked}
use nps_mux.ReceiveWindow.Reader.Rounds.{unread}
use nps_mux.SendWindow.{free_space}
use nps_mux.SendWindow.Segments.Count.{free_space_lem}
use nps_mux.FlowControl.{
  Link, Step, loads, writes, waits, delivers, takes, copies, reports_back, Reach, here, next,
  new_link,
}
use nps_mux.FlowControl.Balance.{Balanced, new-Balanced, in_flight, contents}
use nps_mux.FlowControl.SenderSteps.{
  loads-Balanced, waits-Balanced, writes-Balanced, reports_back-Balanced,
}
use nps_mux.FlowControl.ReceiverSteps.{delivers-Balanced, takes-Balanced, copies-Balanced}

-- Each step of a direction - a buffer loaded, a segment cut off, a writer that waits, a message
-- delivered, an element taken, bytes copied out, a report applied - keeps the balance of the bytes.
pub Step-Balanced : {k k' : Link} → Step k k' → Balanced k → Balanced k'
Step-Balanced (loads k buf small) h = loads-Balanced k h buf small
Step-Balanced (writes k w p l part e) h = writes-Balanced k h w p l part e
Step-Balanced (waits k full) h = waits-Balanced k h full
Step-Balanced (delivers k t p part rest w ack e done) h =
    delivers-Balanced k h t p part rest w ack e done
Step-Balanced (takes k cur w e done ran) h = takes-Balanced k h cur w e done ran
Step-Balanced (copies k cur room r e inside pos ran) h =
    copies-Balanced k h cur room r e inside pos ran
Step-Balanced (reports_back k word rest w closed signal e done) h =
    reports_back-Balanced k h word rest w closed signal e done

pub Reach-Balanced : {k : Link} → Reach new_link k → Balanced k
Reach-Balanced here = new-Balanced
Reach-Balanced (next r step) = Step-Balanced step (Reach-Balanced r)

-- In every state that the two windows of one direction reach while neither is closed, what the
-- reader got is the front of what WriteTo cut off, and the rest is what is left of the element that
-- is being read, then the bytes of the elements that the queue holds, then what is on its way, in
-- order; each element has as many bytes as its length says; and the length word of the queue counts
-- exactly their bytes.
pub read_prefix :
    (k : Link)
    → Reach new_link k
    → (cur : ListElement) × (xs : List ListElement) × (k.receiver.element ≡ some cur)
      × (k.written ≡ k.read ++ (unread k.receiver cur xs ++ contents k.messages))
      × (wait : Bool) × Counts k.receiver.buf_queue xs wait
      × All IsElement xs
      × (receive_len k.receiver.buf_queue ≡ total xs)
read_prefix k r =
    let h = Reach-Balanced r in
    (
      h.cur,
      h.xs,
      h.ready.element,
      h.history,
      h.ready.reader,
      h.ready.counts,
      h.ready.formed,
      receive_len-total k.receiver.buf_queue h.xs h.ready.reader h.ready.counts,
    )

-- While neither window is closed, in every reachable state the bytes that the sender counts as
-- outstanding are exactly those on their way, those in the queue, those of the element that is
-- being read, those read and not reported, and those in reports on their way back.
pub outstanding_exact :
    (k : Link)
    → Reach new_link k
    → (cur : ListElement) × (pending : ℕ) × (k.receiver.element ≡ some cur)
      × ((window_unpack k.receiver.max_size_done).1 ≡ pending)
      × ((window_unpack k.sender.max_size_done).1
          ≡ in_flight k.messages
            + receive_len k.receiver.buf_queue
            + held cur k.receiver.off
            + pending
            + all_acked k.reports)
outstanding_exact k r =
    let h = Reach-Balanced r in
    let counted = receive_len-total k.receiver.buf_queue h.xs h.ready.reader h.ready.counts in
    let word = ap (λ (v : ℕ). (window_unpack v).1) h.ready.word in
    let word' = ap (λ (v : ℕ). (window_unpack v).1) h.sends.word in
    let part = ap (λ (v : ℕ × ℕ × Bool). v.1) (unpack-window_pack h.size h.pending h.ready.wait) in
    let part' = ap (λ (v : ℕ × ℕ × Bool). v.1) (unpack-window_pack h.m h.s h.b) in
    (
      h.cur,
      h.pending,
      h.ready.element,
      omega (arith, word, part, h.ready.fits),
      omega (arith, word', part', h.ledger, counted, h.sends.count_fits),
    )

each_le :
    (words : List ℕ) (n : ℕ) → all_acked words ≤ n → All (λ word. (window_unpack word).1 ≤ n) words
each_le [] n le = tt
each_le (word ∷ words) n le = (omega (arith, le), each_le words n (omega (arith, le)))

-- While neither window is closed, in every reachable state each report on its way counts at most
-- the bytes that the sender counts as outstanding, so that SetSize does not meet a report that is
-- too large.
pub no_excess :
    (k : Link)
    → Reach new_link k
    → All (λ word. (window_unpack word).1 ≤ (window_unpack k.sender.max_size_done).1) k.reports
no_excess k r =
    let (_, _, _, _, count) = outstanding_exact k r in each_le k.reports _ (omega (arith, count))

-- While neither window is closed, in every reachable state where no message and no report is on its
-- way, and the receiver holds nothing that is unread, the sender counts nothing as outstanding: its
-- whole window is free, and no writer is marked as waiting unless the window is of size 0.
pub no_stall :
    (k : Link) (cur : ListElement)
    → Reach new_link k
    → k.messages ≡ []
    → k.reports ≡ []
    → receive_len k.receiver.buf_queue ≡ 0
    → k.receiver.element ≡ some cur
    → k.receiver.off ≡ cur.l
    → (m : ℕ) × (b : Bool) × (window_unpack k.sender.max_size_done ≡ (m, 0, b))
      × (free_space k.sender ≡ m)
      × ((b && ltb 0 m) ≡ false)
no_stall k cur r no_messages no_reports empty e done =
    let h = Reach-Balanced r in
    let same : cur ≡ h.cur = ground (arith, e, h.ready.element) in
    let over : k.receiver.off ≡ h.cur.l = done ∙ ap (λ t. t.l) same in
    let counted = receive_len-total k.receiver.buf_queue h.xs h.ready.reader h.ready.counts in
    let held_none : held h.cur k.receiver.off ≡ 0 = ground (arith, over) in
    let none_pending : h.pending ≡ 0 = ground (arith, h.idle, counted, empty, held_none) in
    let zero_left : h.s ≡ 0 = omega (
      arith,
      h.ledger,
      ap in_flight no_messages,
      ap all_acked no_reports,
      counted,
      empty,
      held_none,
      none_pending,
    ) in
    (
      h.m,
      h.b,
      ground (arith, h.sends.word, unpack-window_pack h.m h.s h.b, zero_left, h.sends.size_fits),
      free_space_lem k.sender h.m h.s h.b h.sends.word h.sends.size_fits h.sends.count_fits
          ∙ omega (arith, zero_left),
      ground (arith, h.sends.stuck, zero_left),
    )
