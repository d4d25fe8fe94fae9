-- ===== src/Mux/WellFormed.antt =====
-- What holds of a mux between its operations, and that a closed connection leaves it so.
use nps_mux.Base.{
  ℕ, ◌≤◌, ◌<◌, length-set, ◌≡◌, ◌≢◌, sym, ◌∙◌, arith, Bool, false, Option, some, List, [],
  get_elem?, get_elem?-set_ne, set, subst, refl, mem, Unique, true, ap, length, Bool-cases, inl,
  inr, get_elem?-none,
}
use native.Mathlib.Decide.{ℕ_discrete}
use nps_mux.ReceiveQueue.Count.{Counts-Holds}
use nps_mux.Chain.Refine.{IsQueue, new-IsQueue}
use nps_mux.PriorityQueue.{PriorityQueue}
use nps_mux.PriorityQueue.Policy.{View}
use nps_mux.PriorityQueue.Refine.{Shows, no_messages, new-Shows}
use nps_mux.ConnMap.{lookup, delete_conn}
use nps_mux.ConnMap.Laws.{Distinct, lookup-delete_conn, delete_conn-Distinct}
use nps_mux.ConnQueue.{new_conn_queue}
use nps_mux.Mux.{Conn, Mux, new_mux}
use nps_mux.Mux.CloseConn.{Healthy, Closed, get_elem?-set}

-- An entry of the map: a connection of that id, which is open.
pub record Entry (conns : List Conn) (id : ℕ) (v : Option ℕ) : Type 0 where
  pub ptr : ℕ
  pub conn : Conn
  pub value : v ≡ some ptr
  pub stored : get_elem? conns ptr ≡ some conn
  pub conn_id : conn.conn_id ≡ id
  pub is_open : conn.is_close ≡ false
  pub fresh : conn.once ≡ false

-- A connection that the other side opened and nobody has accepted yet.
pub record Waiter (conns : List Conn) (ptr : ℕ) : Type 0 where
  pub conn : Conn
  pub stored : get_elem? conns ptr ≡ some conn
  pub is_open : conn.is_close ≡ false
  pub fresh : conn.once ≡ false

pub record WellFormed (m : Mux) : Type 0 where
  pub distinct : Distinct m.conn_map
  pub entries : (id : ℕ) (v : Option ℕ) → lookup m.conn_map id ≡ some v → Entry m.conns id v
  pub healthy : (ptr : ℕ) (c : Conn) → get_elem? m.conns ptr ≡ some c → Healthy c
  pub view : View
  pub messages : Shows m.write_queue view
  pub line : List ℕ
  pub arrivals : IsQueue m.waiting.chain line
  pub waiters : (ptr : ℕ) → mem ptr line ≡ true → Waiter m.conns ptr
  pub apart : (id ptr : ℕ) → lookup m.conn_map id ≡ some (some ptr) → mem ptr line ≡ false
  pub unique : Unique line

-- `m'` is well-formed, keeps the connections that are stored, and lets no stored one wait anew.
pub record Follows (m : Mux) (h : WellFormed m) (m' : Mux) : Type 0 where
  pub sound : WellFormed m'
  pub grows : length m.conns ≤ length m'.conns
  pub line_of : (ptr : ℕ) → ptr < length m.conns → mem ptr sound.line ≡ true → mem ptr h.line ≡ true

pub self-Follows : (m : Mux) (h : WellFormed m) → Follows m h m
self-Follows m h = record { sound = h; grows = omega arith; line_of = λ ptr lt waits. waits }

pub then_Follows :
    {m m' m'' : Mux} {h : WellFormed m}
    → (a : Follows m h m') → Follows m' a.sound m''
    → Follows m h m''
then_Follows a b = record {
  sound = b.sound;
  grows = omega (arith, a.grows, b.grows);
  line_of = λ ptr lt waits. a.line_of ptr lt (b.line_of ptr (omega (arith, a.grows)) waits);
}

-- The entries that a connection leaves in place.
kept :
    (m : Mux)
    → WellFormed m
    → (ptr : ℕ) (c c' : Conn) → get_elem? m.conns ptr ≡ some c
    → (id : ℕ) (v : Option ℕ) → lookup (delete_conn m.conn_map c.conn_id) id ≡ some v
    → Entry (set m.conns ptr c') id v
kept m h ptr c c' e id v found = elim (ℕ_discrete c.conn_id id) [
  | yes same ↦ absurd (ground (arith, found, same, lookup-delete_conn m.conn_map c.conn_id id))
  | no other ↦
      let old =
        h.entries id v (ground (arith, found, other, lookup-delete_conn m.conn_map c.conn_id id)) in
      let apart : ptr ≢ old.ptr =
        λ same. other (ground (arith, e, old.stored, same, old.conn_id)) in
      record {
        ptr = old.ptr;
        conn = old.conn;
        value = old.value;
        stored = get_elem?-set_ne m.conns c' apart ∙ old.stored;
        conn_id = old.conn_id;
        is_open = old.is_open;
        fresh = old.fresh;
      }
]

-- The waiting connections are those that no operation touches.
put_Waiter :
    (conns : List Conn) (ptr : ℕ) (c' : Conn) (line : List ℕ)
    → mem ptr line ≡ false
    → ((i : ℕ) → mem i line ≡ true → Waiter conns i)
    → (i : ℕ) → mem i line ≡ true
    → Waiter (set conns ptr c') i
put_Waiter conns ptr c' line taken waiters i waits =
    let old = waiters i waits in
    let other : ptr ≢ i = λ same. absurd (ground (arith, taken, waits, same)) in
    record {
      conn = old.conn;
      stored = get_elem?-set_ne conns c' other ∙ old.stored;
      is_open = old.is_open;
      fresh = old.fresh;
    }

pub shut-Follows :
    (m : Mux)
    → (h : WellFormed m) → (ptr : ℕ) (c c' : Conn) → get_elem? m.conns ptr ≡ some c
    → mem ptr h.line ≡ false
    → Closed c c'
    → (q : PriorityQueue) (v : View) → Shows q v
    → Follows m h (record m {
      conns = set m.conns ptr c';
      conn_map = delete_conn m.conn_map c.conn_id;
      write_queue = q;
    })
shut-Follows m h ptr c c' e taken d q v s = record {
  sound = record {
    distinct = delete_conn-Distinct m.conn_map c.conn_id h.distinct;
    entries = kept m h ptr c c' e;
    healthy = λ i x found. healthy_still i x found;
    view = v;
    messages = s;
    line = h.line;
    arrivals = h.arrivals;
    waiters = λ i waits. still_waits i waits;
    apart =
        λ i p found. h.apart i p (ground (arith, found, lookup-delete_conn m.conn_map c.conn_id i));
    unique = h.unique;
  };
  grows = omega (arith, length-set m.conns ptr c');
  line_of = λ i lt waits. waits;
}
  where
    still_waits : (i : ℕ) → mem i h.line ≡ true → Waiter (set m.conns ptr c') i
    still_waits i waits = put_Waiter m.conns ptr c' h.line taken h.waiters i waits

    healthy_still : (i : ℕ) (x : Conn) → get_elem? (set m.conns ptr c') i ≡ some x → Healthy x
    healthy_still i x found = elim (ℕ_discrete ptr i) [
      | yes same ↦
          let now : c' ≡ x = ground (arith, found, same, get_elem?-set m.conns ptr c c' e) in
          subst Healthy now ([], d.wait, Counts-Holds c'.receive_window.buf_queue [] d.wait d.empty)
      | no other ↦ h.healthy i x (sym (get_elem?-set_ne m.conns c' other) ∙ found)
    ]

-- No connection waits where the next one is stored.
pub next_waits : (m : Mux) → (h : WellFormed m) → mem (length m.conns) h.line ≡ false
next_waits m h = elim (Bool-cases (mem (length m.conns) h.line)) [
  | inl waits ↦
      let w = h.waiters (length m.conns) waits in
      absurd (ground (arith, w.stored, get_elem?-none m.conns (length m.conns)))
  | inr free ↦ free
]

-- What has the connections and the map of a well-formed mux, shows some messages, and has fewer that wait.
pub fewer-Follows :
    (m m' : Mux) (h : WellFormed m)
    → m'.conns ≡ m.conns
    → m'.conn_map ≡ m.conn_map
    → (line : List ℕ) → IsQueue m'.waiting.chain line
    → ((ptr : ℕ) → mem ptr line ≡ true → mem ptr h.line ≡ true)
    → Unique line
    → (v : View) → Shows m'.write_queue v
    → Follows m h m'
fewer-Follows m m' h conns map line arrivals sub unique v s = record {
  sound = record {
    distinct = subst Distinct (sym map) h.distinct;
    entries = λ id v e.
        subst (λ k. Entry k id v) (sym conns)
          (h.entries id v (sym (ap (λ t. lookup t id) map) ∙ e));
    healthy = λ ptr c e. h.healthy ptr c (sym (ap (λ t. get_elem? t ptr) conns) ∙ e);
    view = v;
    messages = s;
    line = line;
    arrivals = arrivals;
    waiters = λ ptr e. subst (λ k. Waiter k ptr) (sym conns) (h.waiters ptr (sub ptr e));
    apart = λ id ptr e. still_apart id ptr e;
    unique = unique;
  };
  grows = omega (arith, ap length conns);
  line_of = λ ptr lt e. sub ptr e;
}
  where
    still_apart : (id ptr : ℕ) → lookup m'.conn_map id ≡ some (some ptr) → mem ptr line ≡ false
    still_apart id ptr e = elim (Bool-cases (mem ptr line)) [
      | inl waits ↦
          absurd
            (ground (arith, sub ptr waits, h.apart id ptr (sym (ap (λ t. lookup t id) map) ∙ e)))
      | inr free ↦ free
    ]

pub same-Follows :
    (m m' : Mux) (h : WellFormed m)
    → m'.conns ≡ m.conns
    → m'.conn_map ≡ m.conn_map
    → m'.waiting ≡ m.waiting
    → (v : View) → Shows m'.write_queue v
    → Follows m h m'
same-Follows m m' h conns map waiting v s =
    fewer-Follows m m' h conns map h.line
      (subst (λ t. IsQueue t.chain h.line) (sym waiting) h.arrivals) (λ ptr waits. waits) h.unique v
      s

pub new_mux-WellFormed : (kcp : Bool) (threshold : ℕ) → WellFormed (new_mux kcp threshold)
unfolding new_mux new_conn_queue
new_mux-WellFormed kcp threshold = record {
  distinct = tt;
  entries = λ id v e. absurd (ground (arith, e));
  healthy = λ ptr c e. absurd (ground (arith, e));
  view = no_messages;
  messages = new-Shows;
  line = [];
  arrivals = new-IsQueue 5 (omega arith);
  waiters = λ ptr e. absurd (ground (arith, e));
  apart = λ id ptr e. refl;
  unique = tt;
}
