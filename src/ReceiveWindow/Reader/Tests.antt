-- ===== src/ReceiveWindow/Reader/Tests.antt =====
-- A reader that has finished its element and finds two bytes in the queue.
use nps_mux.Base.{
  ℕ, ◌+◌, ◌≡◌, ◌≤◌, refl, arith, true, false, some, none, List, [], ◌∷◌, ◌++◌, length,
}
use nps_mux.Dequeue.{pack}
use nps_mux.Chain.Tests.{one_chain, one_chain-IsQueue}
use nps_mux.Window.{window_pack}
use nps_mux.ReceiveQueue.{ListElement}
use nps_mux.ReceiveQueue.Count.{total, Counts, Counts-Holds}
use nps_mux.ReceiveWindow.{ReceiveWindow}
use nps_mux.ReceiveWindow.Reader.{Reading, receive_read, receive_close}
use nps_mux.ReceiveWindow.Reader.Unread.{held, all_acked}
use nps_mux.ReceiveWindow.Reader.Rounds.{quiet, Ready, unread}
use nps_mux.ReceiveWindow.Reader.Whole.{receive_read-unread}
use nps_mux.ReceiveWindow.Reader.Close.{receive_close-empty}

abbrev pub couple : ListElement
couple = record { buf = 7 ∷ 8 ∷ []; l = 2; part = false }

abbrev pub nothing : ListElement
nothing = record { buf = []; l = 0; part = false }

abbrev pub reader : ReceiveWindow
reader = record {
  max_size_done = window_pack 100 30 false;
  off = 0;
  close_op = false;
  close_tokens = 0;
  element = some nothing;
  stop_once = false;
  buf_queue = record {
    length_wait = pack 2 0;
    chain = one_chain couple;
    stop_tokens = 0;
    timeout = 0;
  };
  count = 0;
}

queue-Counts : Counts reader.buf_queue (couple ∷ []) false
queue-Counts = record { queue = one_chain-IsQueue couple; word = refl; small = omega arith }

pub reader-Ready : Ready reader nothing (couple ∷ []) 100 30
reader-Ready = record {
  element = refl;
  inside = omega arith;
  sized = refl;
  short = omega arith;
  open_still = refl;
  wait = false;
  word = refl;
  fits = omega arith;
  reader = false;
  counts = queue-Counts;
  formed = ((refl, omega arith, omega arith), tt);
}

receive_read-unread_example :
    (r : Reading) × (receive_read (quiet ∷ []) reader 5 ≡ some r)
    × (r.error ≡ none)
    × (r.n ≡ length r.copied)
    × (1 ≤ r.n)
    × (r.n ≤ 5)
    × (cur' : ListElement) × (ys : List ListElement) × (p' : ℕ) × Ready r.window cur' ys 100 p'
    × (r.copied ++ unread r.window cur' ys ≡ unread reader nothing (couple ∷ []))
    × (all_acked r.reports + p' + held cur' r.window.off + total ys
        ≡ 30 + held nothing 0 + total (couple ∷ []))
receive_read-unread_example =
    receive_read-unread reader nothing (couple ∷ []) 100 30 5 (omega arith) reader-Ready
      (omega arith) (omega arith) refl

receive_close-empty_example :
    (w : ReceiveWindow) × (receive_close reader ≡ some w)
    × (w.close_op ≡ true)
    × (w.stop_once ≡ true)
    × (w.close_tokens ≡ 2)
    × (w.buf_queue.stop_tokens ≡ 2)
    × Counts w.buf_queue [] false
    × (w.max_size_done ≡ window_pack 100 30 false)
receive_close-empty_example =
    receive_close-empty reader (couple ∷ []) false
      (Counts-Holds reader.buf_queue (couple ∷ []) false queue-Counts)
