-- ===== src/Mux/CloseConn.antt =====
-- `Close` of one connection.
use nps_mux.Base.{
  ℕ, zero, suc, ◌≡◌, refl, ap, arith, Bool, true, false, Option, some, List, [], ◌∷◌, get_elem?,
  set, if◌then◌else◌,
}
use nps_mux.ReceiveQueue.Count.{Counts}
use nps_mux.ReceiveWindow.Safe.{Queued}
use nps_mux.ReceiveWindow.Reader.Close.{receive_close-empty}
use nps_mux.ConnMap.{delete_conn}
use nps_mux.PriorityQueue.{PriorityQueue}
use nps_mux.Mux.{Conn, Mux, close_process, close_once}

module _ {ℓ} {A : Type ℓ} where
  pub get_elem?-set :
      (xs : List A) (i : ℕ) (x v : A) → get_elem? xs i ≡ some x → get_elem? (set xs i v) i ≡ some v
  get_elem?-set [] i x v e = ground (arith, e)
  get_elem?-set (y ∷ xs) zero x v e = refl
  get_elem?-set (y ∷ xs) (suc i) x v e = get_elem?-set xs i x v e

  set-set : (xs : List A) (i : ℕ) (v w : A) → set (set xs i v) i w ≡ set xs i w
  set-set [] i v w = refl
  set-set (x ∷ xs) zero v w = refl
  set-set (x ∷ xs) (suc i) v w = ap (λ t. x ∷ t) (set-set xs i v w)

-- The queue of its receiver holds some elements.
abbrev pub Healthy : Conn → Type 0
Healthy c = Queued c.receive_window.buf_queue

-- What `Close` makes of `c`.
pub record Closed (c c' : Conn) : Type 0 where
  pub conn_id : c'.conn_id ≡ c.conn_id
  pub is_close : c'.is_close ≡ true
  pub once : c'.once ≡ true
  pub sender : c'.send_window.close_op ≡ true
  pub receiver : c'.receive_window.close_op ≡ true
  pub wait : Bool
  pub empty : Counts c'.receive_window.buf_queue [] wait

-- The mux where `ptr`, which holds `c`, is marked as closed and out of the map.
abbrev pub marked : Mux → ℕ → Conn → Mux
marked m ptr c = record m {
  conns = set m.conns ptr (record c { once = true; is_close = true });
  conn_map = delete_conn m.conn_map c.conn_id;
}

pub close_once_again :
    (notice : Mux → ℕ → Option Mux) (m : Mux) (ptr : ℕ) (c : Conn)
    → get_elem? m.conns ptr ≡ some c
    → c.once ≡ true
    → close_once notice m ptr ≡ some m
unfolding close_once
close_once_again notice m ptr c e done = ground (arith, e, done)

module _ (notice : Mux → ℕ → Option Mux) (m : Mux) (ptr : ℕ) (c : Conn)
    (e : get_elem? m.conns ptr ≡ some c) (h : Healthy c) (fresh : c.once ≡ false) where
  pub close_once_lem :
      (q : PriorityQueue)
      → ((if m.is_close then some (marked m ptr c) else notice (marked m ptr c) c.conn_id)
          ≡ some (record (marked m ptr c) { write_queue = q }))
      → (c' : Conn) × (close_once notice m ptr
          ≡ some (record m {
            conns = set m.conns ptr c';
            conn_map = delete_conn m.conn_map c.conn_id;
            write_queue = q;
          }))
        × Closed c c'
  unfolding close_once close_process
  close_once_lem q told =
      let (xs, wait, counts) = h in
      let (r, eq, closed, _, _, _, empty, _) =
        receive_close-empty c.receive_window xs wait counts in
      (
        record c {
          once = true;
          is_close = true;
          send_window = record c.send_window { close_op = true };
          receive_window = r;
        },
        ground (
          arith,
          e,
          fresh,
          told,
          eq,
          get_elem?-set m.conns ptr c (record c { once = true }) e,
          set-set m.conns ptr (record c { once = true })
              (record c { once = true; is_close = true }),
          get_elem?-set m.conns ptr c (record c { once = true; is_close = true }) e,
          set-set m.conns ptr (record c { once = true; is_close = true })
              (record c {
                once = true;
                is_close = true;
                send_window = record c.send_window { close_op = true };
                receive_window = r;
              }),
        ),
        record {
          conn_id = refl;
          is_close = refl;
          once = refl;
          sender = refl;
          receiver = closed;
          wait = wait;
          empty = empty;
        },
      )
