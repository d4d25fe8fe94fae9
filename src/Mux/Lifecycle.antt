-- ===== src/Mux/Lifecycle.antt =====
-- A connection is opened and closed, with what the other side is told.
use nps_mux.Base.{
  length-append, mem, ℕ, ◌≤◌, ◌<◌, ◌≡◌, ◌≢◌, refl, sym, ap, ◌∙◌, subst, arith, Bool, false, Option,
  none, some, [], ◌∷◌, ◌++◌, length, get_elem?, get_elem?-append_last, get_elem?-append_ne,
  get_elem?-none, set, if◌then◌else◌,
}
use native.Mathlib.Decide.{ℕ_discrete}
use nps_mux.Flag.{mux_new_conn, mux_conn_close}
use nps_mux.Packager.{MuxPackager, untyped_nil}
use nps_mux.PriorityQueue.{PriorityQueue}
use nps_mux.PriorityQueue.Policy.{View, put}
use nps_mux.PriorityQueue.Refine.{Shows}
use nps_mux.ReceiveQueue.Count.{new-Counts, Counts-Holds}
use nps_mux.ReceiveQueue.{new_receive_queue}
use nps_mux.ReceiveWindow.{new_receive_window}
use nps_mux.ConnMap.{lookup, get_conn, set_conn, delete_conn, size}
use nps_mux.ConnMap.Laws.{updated, lookup-delete_conn, lookup-set_conn, set_conn-Distinct}
use nps_mux.ConnMap.FreshId.{last_id, get_id-fresh}
use nps_mux.Mux.{Conn, new_conn, Mux, Supply, refused, send_info, close_conn, open_conn}
use nps_mux.Mux.Send.{Ample, send_info-notice}
use nps_mux.Mux.CloseConn.{Healthy, Closed, get_elem?-set, close_once_lem, close_once_again, marked}
use nps_mux.Mux.WellFormed.{Entry, WellFormed, Follows, shut-Follows, next_waits}

module _ (s : Supply) (m : Mux) (ample : Ample s) (running : m.is_close ≡ false)
    (h : WellFormed m) where
  -- Close of a connection of the map, on an open, well-formed mux, ends: the connection and both
  -- its windows are closed and its queue is empty, its id alone leaves the map, the mux stays
  -- well-formed, the other side is sent one muxConnClose, and a second Close does nothing.
  pub close_conn-Closed :
      (id ptr : ℕ) (c : Conn)
      → lookup m.conn_map id ≡ some (some ptr)
      → get_elem? m.conns ptr ≡ some c
      → (m' : Mux) × (close_conn s m ptr ≡ some m')
        × WellFormed m'
        × (c' : Conn) × (get_elem? m'.conns ptr ≡ some c')
        × Closed c c'
        × ((i : ℕ) → lookup m'.conn_map i ≡ updated (lookup m.conn_map) id none i)
        × (p : MuxPackager) × (p.flag ≡ mux_conn_close)
        × (p.id ≡ id)
        × Shows m'.write_queue (put h.view p)
        × (close_conn s m' ptr ≡ some m')
  unfolding close_conn
  close_conn-Closed id ptr c found stored =
      let entry = h.entries id (some ptr) found in
      let same : entry.conn ≡ c = ground (arith, entry.stored, entry.value, stored) in
      let named : c.conn_id ≡ id = ap (λ t. t.conn_id) (sym same) ∙ entry.conn_id in
      let fresh : c.once ≡ false = ap (λ t. t.once) (sym same) ∙ entry.fresh in
      let notice : Mux → ℕ → Option Mux = λ n i. send_info s mux_conn_close i untyped_nil n in
      let sends =
        send_info-notice s (marked m ptr c) h.view ample running h.messages mux_conn_close c.conn_id
          refl refl in
      let (c', eq, d) =
        close_once_lem notice m ptr c stored (h.healthy ptr c stored) fresh sends.queue
          (ground (arith, running, sends.result)) in
      let now = get_elem?-set m.conns ptr c c' stored in
      (
        record m {
          conns = set m.conns ptr c';
          conn_map = delete_conn m.conn_map c.conn_id;
          write_queue = sends.queue;
        },
        eq,
        (shut-Follows m h ptr c c' stored (h.apart id ptr found) d sends.queue
            (put h.view sends.message) sends.shows).sound,
        c',
        now,
        d,
        λ i.
            lookup-delete_conn m.conn_map c.conn_id i
            ∙ ap (λ (n : ℕ). updated (lookup m.conn_map) n none i) named,
        sends.message,
        sends.flag_of,
        sends.id_of ∙ named,
        sends.shows,
        close_once_again notice _ ptr c' now d.once,
      )

  -- The mux with a new connection of `id` in its map.
  abbrev pub added : ℕ → Mux
  added id = record m {
    id = id;
    conns = m.conns ++ (new_conn id ∷ []);
    conn_map = set_conn m.conn_map id (some (length m.conns));
  }

  stored_apart : (ptr : ℕ) (c : Conn) → get_elem? m.conns ptr ≡ some c → ptr ≢ length m.conns
  stored_apart ptr c e same =
      absurd (ground (arith, e, get_elem?-none m.conns ptr (omega (arith, same))))

  added-Entry :
      (id i : ℕ) (v : Option ℕ) → lookup (added id).conn_map i ≡ some v → Entry (added id).conns i v
  added-Entry id i v found = elim (ℕ_discrete id i) [
    | yes same ↦ record {
      ptr = length m.conns;
      conn = new_conn id;
      value = ground (arith, found, same, lookup-set_conn m.conn_map id (some (length m.conns)) i);
      stored = get_elem?-append_last m.conns (new_conn id);
      conn_id = same;
      is_open = refl;
      fresh = refl;
    }
    | no other ↦
        let old =
          h.entries i v (
            ground
              (arith, found, other, lookup-set_conn m.conn_map id (some (length m.conns)) i)) in
        record {
          ptr = old.ptr;
          conn = old.conn;
          value = old.value;
          stored =
              get_elem?-append_ne m.conns (new_conn id) old.ptr
                (stored_apart old.ptr old.conn old.stored)
              ∙ old.stored;
          conn_id = old.conn_id;
          is_open = old.is_open;
          fresh = old.fresh;
        }
  ]

  added-Healthy : (id ptr : ℕ) (c : Conn) → get_elem? (added id).conns ptr ≡ some c → Healthy c
  unfolding new_receive_window
  added-Healthy id ptr c e = elim (ℕ_discrete ptr (length m.conns)) [
    | yes same ↦
        let now : new_conn id ≡ c =
          ground (arith, e, same, get_elem?-append_last m.conns (new_conn id)) in
        subst Healthy now ([], false, Counts-Holds new_receive_queue [] false new-Counts)
    | no other ↦ h.healthy ptr c (sym (get_elem?-append_ne m.conns (new_conn id) ptr other) ∙ e)
  ]

  added_apart :
      (id i ptr : ℕ) → lookup (added id).conn_map i ≡ some (some ptr) → mem ptr h.line ≡ false
  added_apart id i ptr found = elim (ℕ_discrete id i) [
    | yes same ↦
        let last : length m.conns ≡ ptr =
          ground (arith, found, same, lookup-set_conn m.conn_map id (some (length m.conns)) i) in
        subst (λ (n : ℕ). mem n h.line ≡ false) last (next_waits m h)
    | no other ↦
        h.apart i ptr
          (ground (arith, found, other, lookup-set_conn m.conn_map id (some (length m.conns)) i))
  ]

  pub added-Follows :
      (id : ℕ) (q : PriorityQueue) (v : View)
      → Shows q v
      → (f : Follows m h (record (added id) { write_queue = q })) × (f.sound.line ≡ h.line)
  added-Follows id q v shows = (
    record {
      sound = record {
        distinct = set_conn-Distinct m.conn_map id (some (length m.conns)) h.distinct;
        entries = added-Entry id;
        healthy = added-Healthy id;
        view = v;
        messages = shows;
        line = h.line;
        arrivals = h.arrivals;
        waiters = λ ptr waits.
            let old = h.waiters ptr waits in
            record {
              conn = old.conn;
              stored =
                  get_elem?-append_ne m.conns (new_conn id) ptr
                    (stored_apart ptr old.conn old.stored)
                  ∙ old.stored;
              is_open = old.is_open;
              fresh = old.fresh;
            };
        apart = λ i ptr found. added_apart id i ptr found;
        unique = h.unique;
      };
      grows = omega (arith, length-append m.conns (new_conn id ∷ []));
      line_of = λ i lt waits. waits;
    },
    refl,
  )

  -- NewConn on an open, well-formed mux with fewer than 2147473648 connections always ends: it
  -- takes an id from 1 to 2147473648 that is not in use, stores a new connection under it and
  -- leaves the other entries, keeps the mux well-formed, sends one muxNewConn for the id, and
  -- returns an error exactly if the other side does not confirm.
  pub open_conn-Fresh :
      (confirmed : Bool)
      → m.id ≤ last_id
      → size m.conn_map < last_id
      → (m' : Mux) × (open_conn s confirmed m
          ≡ some (m', if confirmed then none else some refused, length m.conns))
        × WellFormed m'
        × (1 ≤ m'.id)
        × (m'.id ≤ last_id)
        × (get_conn m.conn_map m'.id ≡ none)
        × (get_elem? m'.conns (length m.conns) ≡ some (new_conn m'.id))
        × ((i : ℕ)
            → lookup m'.conn_map i
              ≡ updated (lookup m.conn_map) m'.id (some (some (length m.conns))) i)
        × (p : MuxPackager) × (p.flag ≡ mux_new_conn)
        × (p.id ≡ m'.id)
        × Shows m'.write_queue (put h.view p)
  unfolding open_conn
  open_conn-Fresh confirmed small few =
      let (id, eq, free, lo, hi) = get_id-fresh m.conn_map m.id small few in
      let m₁ = added id in
      let sends = send_info-notice s m₁ h.view ample running h.messages mux_new_conn id refl refl in
      (
        record m₁ { write_queue = sends.queue },
        ground (arith, running, eq, sends.result),
        (added-Follows id sends.queue (put h.view sends.message) sends.shows).0.sound,
        lo,
        hi,
        free,
        get_elem?-append_last m.conns (new_conn id),
        lookup-set_conn m.conn_map id (some (length m.conns)),
        sends.message,
        sends.flag_of,
        sends.id_of,
        sends.shows,
      )
