-- ===== src/ReceiveWindow/Tests.antt =====
-- A window of 100 bytes with 30 that are read and not reported.
use nps_mux.Base.{ℕ, ◌+◌, ◌≡◌, refl, arith, Bool, true, false, Option, some, none, [], ◌∷◌}
use nps_mux.Window.{window_pack}
use nps_mux.Window.Word.{Fits31}
use nps_mux.ReceiveQueue.{new_receive_queue}
use nps_mux.ReceiveQueue.Count.{Counts, new-Counts}
use nps_mux.ReceiveWindow.{ReceiveWindow, Measured, receive_write, send_status}
use nps_mux.ReceiveWindow.Report.{
  SendsReport, acked, is_none, send_status-acked, receive_write-acked,
}

abbrev pending : ReceiveWindow
pending = record {
  max_size_done = window_pack 100 30 false;
  off = 0;
  close_op = false;
  close_tokens = 0;
  element = none;
  stop_once = false;
  buf_queue = new_receive_queue;
  count = 0;
}

abbrev fast : Measured
fast = record { product = 500000; latency_gain = 0; low_fill = λ n rem size. n; limit = some 150 }

send_status-acked_example :
    (w : ReceiveWindow) × (ack : Option ℕ) × (send_status [] pending 12 ≡ some (w, ack))
    × (r : ℕ) × (b : Bool) × (w.max_size_done ≡ window_pack 100 r b)
    × Fits31 r
    × (acked ack + r ≡ 42)
send_status-acked_example =
    send_status-acked pending 100 30 12 false refl (omega arith) (omega arith) (omega arith)

receive_write-acked_example :
    (w : ReceiveWindow) × (ack : Option ℕ) × (receive_write [] fast pending (7 ∷ 8 ∷ []) 2 true
      ≡ some (w, none, ack))
    × (m : ℕ) × (r : ℕ) × (w.max_size_done ≡ window_pack m r (is_none ack))
    × (acked ack + r ≡ 30)
    × Counts w.buf_queue (record { buf = 7 ∷ 8 ∷ []; l = 2; part = true } ∷ []) false
    × (w.off ≡ 0)
    × (w.element ≡ none)
    × (w.close_op ≡ false)
    × SendsReport ack
receive_write-acked_example =
    receive_write-acked fast pending 100 30 false (7 ∷ 8 ∷ []) true [] false refl refl (omega arith)
      (omega arith) new-Counts (omega arith) (omega arith)
