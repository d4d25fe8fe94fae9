-- ===== src/Mux/Session/Tests.antt =====
-- A mux with one connection, of id 1, that gets a message.
use nps_mux.Base.{
  ℕ, zero, suc, subst, ◌+◌, ◌≤◌, ◌≡◌, ◌≢◌, refl, arith, true, false, Option, none, some, List, [],
  ◌∷◌, ◌++◌, length, get_elem?,
}
use nps_mux.Flag.{mux_conn_close}
use nps_mux.Packager.{MuxPackager}
use nps_mux.Packager.Frame.{content, frame}
use nps_mux.PriorityQueue.Policy.{View}
use nps_mux.PriorityQueue.Refine.{Shows, no_messages, new-Shows}
use nps_mux.Chain.Refine.{new-IsQueue}
use nps_mux.ConnQueue.{new_conn_queue}
use nps_mux.Window.{window_pack}
use nps_mux.ReceiveQueue.Count.{Counts, new-Counts, Counts-Holds}
use nps_mux.ReceiveQueue.{new_receive_queue}
use nps_mux.SendWindow.{taken}
use nps_mux.ReceiveWindow.{ReceiveWindow, Measured, new_receive_window}
use nps_mux.ReceiveWindow.Reader.{receive_stop}
use nps_mux.ReceiveWindow.Report.{acked, is_none}
use nps_mux.ReceiveWindow.Reader.{Reading}
use nps_mux.ReceiveWindow.Reader.Rounds.{quiet}
use nps_mux.SendWindow.{Turn}
use nps_mux.Mux.Io.{
  read_conn, write_conn_buf, nothing_written, write_on_closed, serve_conn-farewell,
}
use nps_mux.ConnMap.{lookup, get_conn}
use nps_mux.Mux.{Conn, new_conn, Mux, put_conn, Supply}
use nps_mux.Mux.Tests.{one, one-WellFormed, supply, supply-Ample, one_ordered}
use nps_mux.Mux.Session.{nothing, dispatch, serve_conn, read_round, ping_round}
use nps_mux.Mux.Session.Pings.{run_pings, unanswered-closes}
use nps_mux.Mux.WellFormed.{Entry, WellFormed, same-Follows}
use nps_mux.Mux.CloseConn.{Healthy}
use native.Mathlib.Decide.{ℕ_discrete}
use nps_mux.Mux.Session.Isolation.{dispatch_others}
use nps_mux.Mux.Session.Delivery.{content_flag, Reported, read_round-frame}

abbrev slow : Measured
slow = record { product = 0; latency_gain = 0; low_fill = λ n rem size. n; limit = none }

abbrev farewell : MuxPackager
farewell = record supply.pack { flag = mux_conn_close; id = 1 }

-- A second connection, of id 2.
abbrev two : Mux
two = record one { conn_map = (1, some 0) ∷ (2, some 1) ∷ []; conns = new_conn 1 ∷ new_conn 2 ∷ [] }

two-Entry : (id : ℕ) (v : Option ℕ) → lookup two.conn_map id ≡ some v → Entry two.conns id v
two-Entry id v e = elim (ℕ_discrete 1 id) [
  | yes same ↦ record {
    ptr = 0;
    conn = new_conn 1;
    value = ground (arith, e, same);
    stored = refl;
    conn_id = same;
    is_open = refl;
    fresh = refl;
  }
  | no other ↦ elim (ℕ_discrete 2 id) [
    | yes same ↦ record {
      ptr = 1;
      conn = new_conn 2;
      value = ground (arith, e, other, same);
      stored = refl;
      conn_id = same;
      is_open = refl;
      fresh = refl;
    }
    | no third ↦ absurd (ground (arith, e, other, third))
  ]
]

new_conn-Healthy : (id : ℕ) → Healthy (new_conn id)
unfolding new_receive_window
new_conn-Healthy id = ([], false, Counts-Holds new_receive_queue [] false new-Counts)

two-Healthy : (ptr : ℕ) (c : Conn) → get_elem? two.conns ptr ≡ some c → Healthy c
two-Healthy zero c e =
    let same : new_conn 1 ≡ c = ground (arith, e) in subst Healthy same (new_conn-Healthy 1)
two-Healthy (suc zero) c e =
    let same : new_conn 2 ≡ c = ground (arith, e) in subst Healthy same (new_conn-Healthy 2)
two-Healthy (suc (suc ptr)) c e = absurd (ground (arith, e))

two-WellFormed : WellFormed two
unfolding new_conn_queue
two-WellFormed = record {
  distinct = (refl, (refl, tt));
  entries = two-Entry;
  healthy = two-Healthy;
  view = no_messages;
  messages = new-Shows;
  line = [];
  arrivals = new-IsQueue 5 (omega arith);
  waiters = λ ptr e. absurd (ground (arith, e));
  apart = λ id ptr e. refl;
  unique = tt;
}

abbrev closing : Mux
closing =
    put_conn two 0 (record (new_conn 1) {
      closing_flag = true;
      receive_window = receive_stop new_receive_window;
    })

gets_farewell : dispatch supply slow taken farewell two ≡ some (closing, nothing)
unfolding dispatch serve_conn get_conn
gets_farewell = refl

misses_second : get_conn two.conn_map 1 ≢ some 1
unfolding get_conn
misses_second e = absurd (ground (arith, e))

dispatch_others_example :
    (closing.is_close ≡ false)
    × (get_elem? closing.conns 1 ≡ some (new_conn 2))
    × (lookup closing.conn_map 2 ≡ lookup two.conn_map 2)
dispatch_others_example =
    dispatch_others supply supply-Ample slow taken farewell two closing nothing 1 2 (new_conn 2)
      refl two-WellFormed (λ e. absurd (omega (arith, e))) gets_farewell refl misses_second
      (λ e. absurd (omega (arith, e)))

found : get_conn one.conn_map 1 ≡ some 0
unfolding get_conn
found = refl

fresh-Counts : Counts (new_conn 1).receive_window.buf_queue [] false
unfolding new_receive_window
fresh-Counts = new-Counts

fresh_word : (new_conn 1).receive_window.max_size_done ≡ window_pack 122550 0 false
unfolding new_receive_window
fresh_word = refl

fresh_open : (new_conn 1).receive_window.close_op ≡ false
unfolding new_receive_window
fresh_open = refl

read_round-frame_example :
    (m' : Mux) × (read_round supply slow taken one
        (frame (content (content_flag false) 1 (7 ∷ 8 ∷ [])) ++ (9 ∷ []))
      ≡ some (m', 9 ∷ [], nothing, true))
    × (w : ReceiveWindow) × (get_elem? m'.conns 0
        ≡ some (record (new_conn 1) { receive_window = w }))
    × Counts w.buf_queue (record { buf = 7 ∷ 8 ∷ []; l = 2; part = false } ∷ []) false
    × (ack : Option ℕ) × (size : ℕ) × (r : ℕ) × (w.max_size_done ≡ window_pack size r (is_none ack))
    × (acked ack + r ≡ 0)
    × (v : View) × Shows m'.write_queue v
    × Reported ack 1 no_messages v
read_round-frame_example =
    read_round-frame supply slow one supply-Ample refl no_messages new-Shows 1 0 (new_conn 1) found
      refl refl 122550 0 false [] false fresh_open fresh_word (omega arith) (omega arith)
      fresh-Counts false (7 ∷ 8 ∷ []) (omega arith) (omega arith) (omega arith) (omega arith) taken
      (9 ∷ [])

abbrev late : Mux
late = record one { ping_check_time = 60 }

late-WellFormed : WellFormed late
late-WellFormed =
    (same-Follows one late one-WellFormed refl refl refl one-WellFormed.view
      one-WellFormed.messages).sound

abbrev ticks : List (Supply × List ℕ)
ticks = (supply, 50 ∷ []) ∷ []

unanswered-closes_example :
    (m' : Mux) × (run_pings ticks late ≡ some (m', true))
    × (m'.is_close ≡ false)
    × (m'.conn_map ≡ late.conn_map)
    × (m'' : Mux) × (ping_round supply (50 ∷ []) m' ≡ some (m'', false))
    × (m''.is_close ≡ true)
    × ((i : ℕ) → lookup m''.conn_map i ≡ none)
unanswered-closes_example =
    unanswered-closes ticks late supply (50 ∷ []) late-WellFormed
      ((supply-Ample, omega arith, omega arith), tt) refl (omega arith) (omega arith) one_ordered

-- The connection that has two bytes to read when the other side closes.
abbrev talking : Conn
talking = record (new_conn 1) { receive_window = nps_mux.ReceiveWindow.Reader.Tests.reader }

serve_conn-farewell_example :
    (c' : Conn) × (serve_conn supply slow taken farewell one 0 talking
      ≡ some (put_conn one 0 c', nothing))
    × ((turns : List Turn) (buf : List ℕ)
        → write_conn_buf turns c' buf
          ≡ some (c', nothing_written c'.send_window, some write_on_closed))
    × (r : Reading) × (read_conn (quiet ∷ []) c' (some 5)
        ≡ some (record c' { receive_window = r.window }, r, none))
    × (r.error ≡ none)
    × (r.n ≡ length r.copied)
    × (1 ≤ r.n)
    × (r.n ≤ 5)
    × (rest : List ℕ) × (r.copied ++ rest ≡ 7 ∷ 8 ∷ [])
serve_conn-farewell_example =
    serve_conn-farewell supply slow taken farewell one 0 talking
      nps_mux.ReceiveWindow.Reader.Tests.nothing (nps_mux.ReceiveWindow.Reader.Tests.couple ∷ [])
      100 30 5 refl refl (omega arith) nps_mux.ReceiveWindow.Reader.Tests.reader-Ready (omega arith)
      (omega arith) refl
