-- ===== src/Mux/Send.antt =====
-- `sendInfo` for the messages that carry no bytes: it always succeeds, and pushes one message.
use nps_mux.Base.{ℕ, ◌%◌, ◌^◌, ◌≤◌, ◌≡◌, refl, arith, true, false, Option, some, List, length, ◌==◌}
use nps_mux.Flag.{mux_msg_send_ok, pool_size_window}
use nps_mux.Stream.{put_at}
use nps_mux.Packager.{MuxPackager, untyped_nil, byte_slice, word, mux_set, base_set, carries_bytes}
use nps_mux.PriorityQueue.{PriorityQueue}
use nps_mux.PriorityQueue.Policy.{View, put}
use nps_mux.PriorityQueue.Refine.{Shows, push-Shows}
use nps_mux.Mux.{Mux, Supply, send_info}

-- The pool's buffers have the size of the pool.
abbrev pub Ample : Supply → Type 0
Ample s = (length s.buf ≡ pool_size_window) × (length s.content ≡ pool_size_window)

-- A message of `flag` for `id` goes into the queue `v`, and nothing else changes.
pub record Sends (flag id window : ℕ) (m : Mux) (v : View) (r : Option Mux) : Type 0 where
  pub message : MuxPackager
  pub queue : PriorityQueue
  pub result : r ≡ some (record m { write_queue = queue })
  pub flag_of : message.flag ≡ flag
  pub id_of : message.id ≡ id
  pub window_of : message.window ≡ window
  pub shows : Shows queue (put v message)

module _ (s : Supply) (m : Mux) (v : View) (ample : Ample s) (running : m.is_close ≡ false)
    (h : Shows m.write_queue v) where
  pub send_info-notice :
      (flag id : ℕ)
      → carries_bytes flag ≡ false
      → (flag == mux_msg_send_ok) ≡ false
      → Sends flag id s.pack.window m v (send_info s flag id untyped_nil m)
  unfolding send_info mux_set
  send_info-notice flag id plain other =
      let p : MuxPackager = record s.pack {
        flag = flag;
        id = id;
        base = record s.pack.base { buf = record { arr = s.buf; len = pool_size_window } };
      } in
      let (q, eq, hq) = push-Shows m.write_queue v p h in
      record {
        message = p;
        queue = q;
        result = ground (arith, running, plain, other, eq, ample.0);
        flag_of = refl;
        id_of = refl;
        window_of = refl;
        shows = hq;
      }

  pub send_info-report :
      (id report : ℕ)
      → Sends mux_msg_send_ok id report m v (send_info s mux_msg_send_ok id (word report) m)
  unfolding send_info mux_set
  send_info-report id report =
      let p : MuxPackager = record s.pack {
        flag = mux_msg_send_ok;
        id = id;
        window = report;
        base = record s.pack.base { buf = record { arr = s.buf; len = pool_size_window } };
      } in
      let (q, eq, hq) = push-Shows m.write_queue v p h in
      record {
        message = p;
        queue = q;
        result = ground (arith, running, eq, ample.0);
        flag_of = refl;
        id_of = refl;
        window_of = refl;
        shows = hq;
      }

  -- A content that is not empty and fits.
  pub send_info-content :
      (flag id : ℕ) (body : List ℕ)
      → carries_bytes flag ≡ true
      → 1 ≤ length body
      → length body ≤ pool_size_window
      → Sends flag id s.pack.window m v (send_info s flag id (byte_slice (some body)) m)
  unfolding send_info mux_set base_set
  send_info-content flag id body carries inhabited small =
      let p : MuxPackager = record s.pack {
        flag = flag;
        id = id;
        base = record {
          buf = record { arr = s.buf; len = pool_size_window };
          length = length body % 2 ^ 16;
          content = record { arr = put_at s.content 0 body; len = length body };
        };
      } in
      let (q, eq, hq) = push-Shows m.write_queue v p h in
      record {
        message = p;
        queue = q;
        result = ground (arith, running, carries, eq, ample.0, ample.1);
        flag_of = refl;
        id_of = refl;
        window_of = refl;
        shows = hq;
      }
