-- ===== src/FlowControl.antt =====
-- conn.go, sendWindow and receiveWindow of one direction of a logical connection, with the messages and the
-- reports that are on their way between them, as a transition system.
pub mod Balance
pub mod SenderSteps
pub mod ReceiverSteps
pub mod Reached
mod Tests
use nps_mux.Base.{ℕ, ◌^◌, ◌≤◌, ◌<◌, ◌≡◌, Bool, Option, none, some, List, [], ◌∷◌, ◌++◌, length}
use nps_mux.ReceiveQueue.{ListElement}
use nps_mux.SendWindow.{
  SendWindow, new_send_window, set_send_buf, free_space, set_wait, set_size, taken, write_to,
  segment,
}
use nps_mux.ReceiveWindow.{ReceiveWindow, Measured, new_receive_window, receive_write}
use nps_mux.ReceiveWindow.Reader.{Reading, copy_out, next_element, start_reading, report}
use nps_mux.ReceiveWindow.Reader.Rounds.{quiet}

-- The two windows; the messages on their way to the receiver, each a content and whether it is a part; the
-- reports on their way back; and, as history, the bytes that `WriteTo` cut off and that the reader got.
pub record Link : Type 0 where
  pub sender : SendWindow
  pub receiver : ReceiveWindow
  pub messages : List (List ℕ × Bool)
  pub reports : List ℕ
  pub written : List ℕ
  pub read : List ℕ

unfoldable pub new_link : Link
new_link = record {
  sender = new_send_window;
  receiver = new_receive_window;
  messages = [];
  reports = [];
  written = [];
  read = [];
}

-- Both channels keep the order. Everything else is up to the scheduler.
pub data Step : Link → Link → Type 0 where
  -- `WriteFull` starts on a buffer.
  loads :
      (k : Link) (buf : List ℕ)
      → length buf < 2 ^ 32
      → Step k (record k { sender = set_send_buf k.sender buf })
  -- `WriteTo` cuts off a segment, which `WriteFull` sends.
  writes :
      (k : Link) (w : SendWindow) (p : List ℕ) (l : ℕ) (part : Bool)
      → write_to [] k.sender ≡ some ([], w, segment p l part)
      → Step k (record k {
        sender = w;
        messages = k.messages ++ ((p, part) ∷ []);
        written = k.written ++ p;
      })
  -- `WriteTo` finds no room and sets the wait flag.
  waits :
      (k : Link)
      → free_space k.sender ≡ 0
      → Step k (record k {
        sender = record k.sender { max_size_done = set_wait k.sender.max_size_done };
      })
  -- `receiveWindow.Write` on the oldest message.
  delivers :
      (k : Link) (t : Measured) (p : List ℕ) (part : Bool) (rest : List (List ℕ × Bool))
      (w : ReceiveWindow) (ack : Option ℕ)
      → k.messages ≡ (p, part) ∷ rest
      → receive_write [] t k.receiver p (length p) part ≡ some (w, none, ack)
      → Step k (record k { receiver = w; messages = rest; reports = k.reports ++ report ack })
  -- The reader takes the next element from the queue.
  takes :
      (k : Link) (cur : ListElement) (w : ReceiveWindow)
      → k.receiver.element ≡ some cur
      → k.receiver.off ≡ cur.l
      → next_element quiet k.receiver ≡ some (w, none)
      → Step k (record k { receiver = w })
  -- The reader copies from its element into a buffer with `room`.
  copies :
      (k : Link) (cur : ListElement) (room : ℕ) (r : Reading)
      → k.receiver.element ≡ some cur
      → k.receiver.off < cur.l
      → 1 ≤ room
      → copy_out cur room (start_reading k.receiver) ≡ some r
      → Step k (record k {
        receiver = r.window;
        reports = k.reports ++ r.reports;
        read = k.read ++ r.copied;
      })
  -- `SetSize` on the oldest report.
  reports_back :
      (k : Link) (word : ℕ) (rest : List ℕ) (w : SendWindow) (closed signal : Bool)
      → k.reports ≡ word ∷ rest
      → set_size [] taken k.sender word ≡ some (w, closed, signal)
      → Step k (record k { sender = w; reports = rest })

pub data Reach (k : Link) : Link → Type 0 where
  here : Reach k k
  next : {k' k'' : Link} → Reach k k' → Step k' k'' → Reach k k''
