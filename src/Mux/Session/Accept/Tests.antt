-- ===== src/Mux/Session/Accept/Tests.antt =====
-- A mux in which a connection of id 9 waits, and one whose stream ends.
use nps_mux.Base.{
  ℕ, zero, suc, ◌≡◌, refl, subst, arith, true, false, Option, none, some, [], ◌∷◌, get_elem?, mem,
}
use nps_mux.Flag.{mux_new_conn_ok}
use nps_mux.Stream.{read_full, unexpected_eof}
use nps_mux.Chain.{BufChain, chain_push}
use nps_mux.Chain.Refine.{IsQueue, push-IsQueue, new-IsQueue}
use nps_mux.Packager.{MuxPackager, Unpacked, read_failed, mux_unpack}
use nps_mux.PriorityQueue.Policy.{put}
use nps_mux.PriorityQueue.Refine.{Shows, no_messages, new-Shows}
use nps_mux.ConnQueue.{new_conn_queue}
use nps_mux.ConnMap.{lookup}
use nps_mux.ConnMap.Laws.{updated}
use nps_mux.SendWindow.{taken}
use nps_mux.ReceiveQueue.{new_receive_queue}
use nps_mux.ReceiveQueue.Count.{new-Counts, Counts-Holds}
use nps_mux.ReceiveWindow.{Measured, new_receive_window}
use nps_mux.Mux.{Conn, new_conn, Mux}
use nps_mux.Mux.CloseConn.{Healthy, Closed}
use nps_mux.Mux.WellFormed.{Entry, Waiter, WellFormed, Follows}
use nps_mux.Mux.Tests.{one, one-WellFormed, supply, supply-Ample, one_ordered}
use nps_mux.Mux.Session.{nothing, accept_round, read_round}
use nps_mux.Mux.Session.Accept.{accept_round_oldest}
use nps_mux.Mux.Session.Broken.{Refuses, Rejects, read_round-broken}

pushed : (c : BufChain ℕ) × (chain_push new_conn_queue.chain 0 ≡ some c) × IsQueue c (0 ∷ [])
unfolding new_conn_queue
pushed = push-IsQueue new_conn_queue.chain [] 0 (new-IsQueue 5 (omega arith))

abbrev ringing : Mux
ringing = record one {
  conn_map = [];
  conns = new_conn 9 ∷ [];
  waiting = record new_conn_queue { chain = pushed.0 };
}

ringing-Healthy : (ptr : ℕ) (c : Conn) → get_elem? ringing.conns ptr ≡ some c → Healthy c
unfolding new_receive_window
ringing-Healthy zero c e =
    let same : new_conn 9 ≡ c = ground (arith, e) in
    subst Healthy same ([], false, Counts-Holds new_receive_queue [] false new-Counts)
ringing-Healthy (suc ptr) c e = absurd (ground (arith, e))

ringing-Waiter : (ptr : ℕ) → mem ptr (0 ∷ []) ≡ true → Waiter ringing.conns ptr
ringing-Waiter zero e = record { conn = new_conn 9; stored = refl; is_open = refl; fresh = refl }
ringing-Waiter (suc ptr) e = absurd (ground (arith, e))

ringing_empty :
    (id : ℕ) (v : Option ℕ) → lookup ringing.conn_map id ≡ some v → Entry ringing.conns id v
ringing_empty id v e = absurd (ground (arith, e))

ringing_apart :
    (id ptr : ℕ) → lookup ringing.conn_map id ≡ some (some ptr) → mem ptr (0 ∷ []) ≡ false
ringing_apart id ptr e = absurd (ground (arith, e))

abbrev ringing-WellFormed : WellFormed ringing
ringing-WellFormed = record {
  distinct = tt;
  entries = ringing_empty;
  healthy = ringing-Healthy;
  view = no_messages;
  messages = new-Shows;
  line = 0 ∷ [];
  arrivals = pushed.2;
  waiters = ringing-Waiter;
  apart = ringing_apart;
  unique = (refl, tt);
}

accept_round_oldest_example :
    (m' : Mux) × (accept_round supply ringing ≡ some (m', some 0))
    × (f : Follows ringing ringing-WellFormed m') × (f.sound.line ≡ [])
    × (c : Conn) × (get_elem? m'.conns 0 ≡ some c)
    × (c.is_close ≡ false)
    × ((i : ℕ) → lookup m'.conn_map i ≡ updated (lookup []) c.conn_id (some (some 0)) i)
    × (p : MuxPackager) × (p.flag ≡ mux_new_conn_ok)
    × (p.id ≡ c.conn_id)
    × Shows m'.write_queue (put no_messages p)
accept_round_oldest_example =
    accept_round_oldest supply ringing ringing-WellFormed 0 [] supply-Ample refl refl

abbrev slow : Measured
slow = record { product = 0; latency_gain = 0; low_fill = λ n rem size. n; limit = none }

-- What `UnPack` makes of three bytes.
abbrev broken : Option (Unpacked MuxPackager)
broken = mux_unpack supply.pack supply.buf supply.content (1 ∷ 2 ∷ 3 ∷ [])

abbrev short : Unpacked MuxPackager
short = elim broken [
  | some u ↦ u
  | none ↦ record { pack = supply.pack; rest = []; count = 0; error = none }
]

unpacks_short : broken ≡ some short
unfolding mux_unpack read_full
unpacks_short = refl

short_error : short.error ≡ some (read_failed unexpected_eof)
unfolding mux_unpack read_full
short_error = refl

read_round-broken_example :
    (m' : Mux) × (read_round supply slow taken one (1 ∷ 2 ∷ 3 ∷ [])
      ≡ some (m', short.rest, nothing, false))
    × (m'.is_close ≡ true)
    × (m'.conn_open ≡ false)
    × ((id : ℕ) → lookup m'.conn_map id ≡ none)
    × Refuses m'
    × ((i ptr : ℕ) (c : Conn)
        → lookup one.conn_map i ≡ some (some ptr)
        → get_elem? one.conns ptr ≡ some c
        → (c' : Conn) × (get_elem? m'.conns ptr ≡ some c') × Closed c c' × Rejects c')
read_round-broken_example =
    read_round-broken supply slow taken one one-WellFormed refl one_ordered (1 ∷ 2 ∷ 3 ∷ []) short
      (read_failed unexpected_eof) unpacks_short short_error
