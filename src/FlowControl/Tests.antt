-- ===== src/FlowControl/Tests.antt =====
-- Two bytes go from one side to the other.
use nps_mux.Base.{
  ℕ, ◌+◌, ◌≤◌, ◌≡◌, refl, arith, Bool, false, ◌&&◌, ltb, some, none, List, [], ◌∷◌, ◌++◌, cas_loop,
  All,
}
use nps_mux.Dequeue.{unpack}
use nps_mux.Window.{window_pack, window_unpack}
use nps_mux.SendWindow.{
  SendWindow, new_send_window, set_send_buf, write_to, attempt, free_space, cut, sent, sent_round,
  remaining_size, segment,
}
use nps_mux.ReceiveQueue.{ListElement, receive_len, new_receive_queue}
use nps_mux.ReceiveQueue.Count.{total, Counts, new-Counts}
use nps_mux.ReceiveWindow.{Measured, new_receive_window}
use nps_mux.ReceiveWindow.Report.{receive_write-acked}
use nps_mux.ReceiveWindow.Reader.Unread.{IsElement, held, all_acked}
use nps_mux.ReceiveWindow.Reader.Rounds.{unread}
use nps_mux.FlowControl.{Link, Step, Reach, here, next, loads, writes, delivers, new_link}
use nps_mux.FlowControl.Balance.{Balanced, in_flight, contents}
use nps_mux.FlowControl.Reached.{
  Reach-Balanced, read_prefix, outstanding_exact, no_excess, no_stall,
}

abbrev loaded : Link
loaded = record new_link { sender = set_send_buf new_send_window (7 ∷ 8 ∷ []) }

loading : Step new_link loaded
unfolding new_link new_send_window
loading = loads new_link (7 ∷ 8 ∷ []) (omega arith)

abbrev sender' : SendWindow
sender' = record loaded.sender { max_size_done = window_pack 122550 2 false; off = 2 }

cuts_two : write_to [] loaded.sender ≡ some ([], sender', segment (7 ∷ 8 ∷ []) 2 false)
unfolding write_to attempt free_space cut sent sent_round cas_loop window_unpack window_pack
    remaining_size new_send_window new_link
cuts_two = refl

abbrev underway : Link
underway = record loaded {
  sender = sender';
  messages = loaded.messages ++ ((7 ∷ 8 ∷ [], false) ∷ []);
  written = loaded.written ++ (7 ∷ 8 ∷ []);
}

writing : Step loaded underway
writing = writes loaded sender' (7 ∷ 8 ∷ []) 2 false cuts_two

abbrev slow : Measured
slow = record { product = 0; latency_gain = 0; low_fill = λ n rem size. n; limit = none }

arrives : (k : Link) × Step underway k
unfolding new_link new_receive_window
arrives =
    let (w, ack, eq, _, _, _, _, _, _, _, _, _) =
      receive_write-acked slow new_receive_window 122550 0 false (7 ∷ 8 ∷ []) false [] false refl
        refl (omega arith) (omega arith) new-Counts (omega arith) (omega arith) in
    (_, delivers underway slow (7 ∷ 8 ∷ []) false [] w ack refl eq)

abbrev arrived : Link
arrived = arrives.0

run : Reach new_link arrived
run = next (next (next here loading) writing) arrives.1

Reach-Balanced_example : Balanced arrived
Reach-Balanced_example = Reach-Balanced run

read_prefix_example :
    (cur : ListElement) × (xs : List ListElement) × (arrived.receiver.element ≡ some cur)
    × (arrived.written
        ≡ arrived.read ++ (unread arrived.receiver cur xs ++ contents arrived.messages))
    × (wait : Bool) × Counts arrived.receiver.buf_queue xs wait
    × All IsElement xs
    × (receive_len arrived.receiver.buf_queue ≡ total xs)
read_prefix_example = read_prefix arrived run

outstanding_exact_example :
    (cur : ListElement) × (pending : ℕ) × (arrived.receiver.element ≡ some cur)
    × ((window_unpack arrived.receiver.max_size_done).1 ≡ pending)
    × ((window_unpack arrived.sender.max_size_done).1
        ≡ in_flight arrived.messages
          + receive_len arrived.receiver.buf_queue
          + held cur arrived.receiver.off
          + pending
          + all_acked arrived.reports)
outstanding_exact_example = outstanding_exact arrived run

no_excess_example :
    All
      (λ word. (window_unpack word).1 ≤ (window_unpack arrived.sender.max_size_done).1)
      arrived.reports
no_excess_example = no_excess arrived run

abbrev empty_element : ListElement
empty_element = record { buf = []; l = 0; part = false }

no_stall_example :
    (m : ℕ) × (b : Bool) × (window_unpack loaded.sender.max_size_done ≡ (m, 0, b))
    × (free_space loaded.sender ≡ m)
    × ((b && ltb 0 m) ≡ false)
unfolding new_link new_receive_window new_receive_queue receive_len unpack
no_stall_example = no_stall loaded empty_element (next here loading) refl refl refl refl refl
