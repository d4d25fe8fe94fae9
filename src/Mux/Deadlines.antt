-- ===== src/Mux/Deadlines.antt =====
-- conn.go, the deadlines of a connection: `SetReadDeadline`, `SetWriteDeadline` and `SetDeadline`, which
-- stand in its windows.
use nps_mux.Base.{
  ℕ, ◌≡◌, refl, arith, Option, some, ◌>>=◌, get_elem?, subst, inl, inr, Option-cases,
}
use nps_mux.SendWindow.{set_send_timeout}
use nps_mux.ReceiveQueue.{ReceiveQueue, set_queue_timeout}
use nps_mux.ReceiveWindow.Reader.{set_receive_timeout}
use nps_mux.ReceiveWindow.Safe.{Queued}
use nps_mux.Mux.{Conn, Mux, put_conn}
use nps_mux.Mux.WellFormed.{WellFormed, Follows}
use nps_mux.Mux.PutConn.{put_conn-Follows}

set_read_deadline : ℕ → Conn → Conn
set_read_deadline t c = record c { receive_window = set_receive_timeout t c.receive_window }

set_write_deadline : ℕ → Conn → Conn
set_write_deadline t c = record c { send_window = set_send_timeout t c.send_window }

set_deadline : ℕ → Conn → Conn
set_deadline t c = set_write_deadline t (set_read_deadline t c)

pub data Deadline : Type 0 where
  of_reads of_writes of_both : Deadline

pub with_deadline : Deadline → ℕ → Conn → Conn
with_deadline of_reads t c = set_read_deadline t c
with_deadline of_writes t c = set_write_deadline t c
with_deadline of_both t c = set_deadline t c

-- One of the three, on a connection of the store.
unfoldable pub mux_deadline : Deadline → ℕ → Mux → ℕ → Option Mux
mux_deadline d t m ptr = do c ← get_elem? m.conns ptr; some (put_conn m ptr (with_deadline d t c))

set_queue_timeout-Queued : (t : ℕ) (q : ReceiveQueue) → Queued q → Queued (set_queue_timeout t q)
unfolding set_queue_timeout
set_queue_timeout-Queued t q (xs, wait, h) = (xs, wait, record { queue = h.queue; word = h.word })

-- Whichever deadline is set, the mux stays well-formed.
module _ (m : Mux) (h : WellFormed m) (ptr t : ℕ) (c : Conn)
    (e : get_elem? m.conns ptr ≡ some c) where
  deadline-Follows : (d : Deadline) → Follows m h (put_conn m ptr (with_deadline d t c))
  unfolding with_deadline set_read_deadline set_write_deadline set_deadline set_receive_timeout
  deadline-Follows of_reads =
      put_conn-Follows m h ptr c (set_read_deadline t c) e refl refl refl
        (set_queue_timeout-Queued t c.receive_window.buf_queue (h.healthy ptr c e))
  deadline-Follows of_writes =
      put_conn-Follows m h ptr c (set_write_deadline t c) e refl refl refl (h.healthy ptr c e)
  deadline-Follows of_both =
      put_conn-Follows m h ptr c (set_deadline t c) e refl refl refl
        (set_queue_timeout-Queued t c.receive_window.buf_queue (h.healthy ptr c e))

pub mux_deadline-Follows :
    (d : Deadline) (t : ℕ) (m m' : Mux) (h : WellFormed m) (ptr : ℕ)
    → mux_deadline d t m ptr ≡ some m'
    → Follows m h m'
unfolding mux_deadline
mux_deadline-Follows d t m m' h ptr done = elim (Option-cases (get_elem? m.conns ptr)) [
  | inl lost ↦ absurd (ground (arith, done, lost))
  | inr (c, stored) ↦
      subst (λ k. Follows m h k) (ground (arith, done, stored))
        (deadline-Follows m h ptr t c stored d)
]
