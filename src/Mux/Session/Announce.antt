-- ===== src/Mux/Session/Announce.antt =====
-- A connection that the other side opens is stored and waits; and the reader goroutine on any message.
use nps_mux.Base.{
  ℕ, ◌≡◌, refl, sym, ap, ◌∙◌, subst, arith, true, false, Option, some, List, [], ◌∷◌, ◌++◌, length,
  length-append, get_elem?, get_elem?-none, get_elem?-append_last, get_elem?-append_ne, mem,
  mem-append_last, append_last-Unique, ◌==◌, Option-cases, Bool-cases, inl, inr,
}
use native.Mathlib.Decide.{ℕ_discrete}
use nps_mux.Flag.{mux_new_conn, mux_ping_flag, mux_ping_return, mux_ping}
use nps_mux.Stream.{bytes}
use nps_mux.Packager.{MuxPackager, byte_slice}
use nps_mux.PriorityQueue.Refine.{Shows}
use nps_mux.Chain.Refine.{IsQueue, push-IsQueue}
use nps_mux.ConnQueue.{conn_push}
use nps_mux.ConnMap.{lookup, get_conn}
use nps_mux.ConnMap.Laws.{Distinct, lookup_of}
use nps_mux.SendWindow.{AllowAnswer}
use nps_mux.ReceiveQueue.{new_receive_queue}
use nps_mux.ReceiveQueue.Count.{new-Counts, Counts-Holds}
use nps_mux.ReceiveWindow.{Measured, new_receive_window}
use nps_mux.Mux.{Conn, new_conn, Mux, Supply}
use nps_mux.Mux.Send.{Ample}
use nps_mux.Mux.CloseConn.{Healthy}
use nps_mux.Mux.WellFormed.{Entry, Waiter, WellFormed, Follows, self-Follows, next_waits}
use nps_mux.Mux.Follows.{send_info_total}
use nps_mux.Mux.Session.{Handoff, nothing, pong, dispatch}
use nps_mux.Mux.Session.Serve.{serve_conn-Follows}

-- The other side opens a connection: it is stored, and waits.
module _ (m : Mux) (h : WellFormed m) (id : ℕ) where
  Announced : Mux → Type 0
  Announced m' =
      (m'.conns ≡ m.conns ++ (new_conn id ∷ []))
      × (m'.conn_map ≡ m.conn_map)
      × (m'.write_queue ≡ m.write_queue)

  fresh_queue : Healthy (new_conn id)
  unfolding new_receive_window
  fresh_queue = ([], false, Counts-Holds new_receive_queue [] false new-Counts)

  abbrev longer : List Conn
  longer = m.conns ++ (new_conn id ∷ [])

  longer_keeps : (i : ℕ) (c : Conn) → get_elem? m.conns i ≡ some c → get_elem? longer i ≡ some c
  longer_keeps i c e =
      get_elem?-append_ne m.conns (new_conn id) i
        (λ same. absurd (ground (arith, e, same, get_elem?-none m.conns i)))
      ∙ e

  longer-Healthy : (i : ℕ) (x : Conn) → get_elem? longer i ≡ some x → Healthy x
  longer-Healthy i x found = elim (ℕ_discrete i (length m.conns)) [
    | yes same ↦
        let now : new_conn id ≡ x =
          ground (arith, found, same, get_elem?-append_last m.conns (new_conn id)) in
        subst Healthy now fresh_queue
    | no other ↦ h.healthy i x (sym (get_elem?-append_ne m.conns (new_conn id) i other) ∙ found)
  ]

  longer-Waiter : (i : ℕ) → mem i (h.line ++ (length m.conns ∷ [])) ≡ true → Waiter longer i
  longer-Waiter i waits = elim (ℕ_discrete i (length m.conns)) [
    | yes same ↦ record {
      conn = new_conn id;
      stored =
          subst (λ (n : ℕ). get_elem? longer n ≡ some (new_conn id)) (sym same)
            (get_elem?-append_last m.conns (new_conn id));
      is_open = refl;
      fresh = refl;
    }
    | no other ↦
        let old =
          h.waiters i (ground (arith, waits, other, mem-append_last i h.line (length m.conns))) in
        record {
          conn = old.conn;
          stored = longer_keeps i old.conn old.stored;
          is_open = old.is_open;
          fresh = old.fresh;
        }
  ]

  longer-Entry : (i : ℕ) (v : Option ℕ) → Entry m.conns i v → Entry longer i v
  longer-Entry i v old = record {
    ptr = old.ptr;
    conn = old.conn;
    value = old.value;
    stored = longer_keeps old.ptr old.conn old.stored;
    conn_id = old.conn_id;
    is_open = old.is_open;
    fresh = old.fresh;
  }

  longer_apart :
      (i ptr : ℕ)
      → lookup m.conn_map i ≡ some (some ptr)
      → mem ptr (h.line ++ (length m.conns ∷ [])) ≡ false
  longer_apart i ptr found =
      let old = h.entries i (some ptr) found in
      ground (
        arith,
        old.stored,
        old.value,
        get_elem?-none m.conns ptr,
        h.apart i ptr found,
        mem-append_last ptr h.line (length m.conns),
      )

  announce_Follows :
      (m' : Mux)
      → Announced m'
      → IsQueue m'.waiting.chain (h.line ++ (length m.conns ∷ []))
      → Follows m h m'
  unfolding Announced
  announce_Follows m' (conns, map, queue) arrivals = record {
    sound = record {
      distinct = subst Distinct (sym map) h.distinct;
      entries = λ i v e.
          subst (λ k. Entry k i v) (sym conns)
            (longer-Entry i v (h.entries i v (sym (ap (λ t. lookup t i) map) ∙ e)));
      healthy = λ i x e. longer-Healthy i x (sym (ap (λ t. get_elem? t i) conns) ∙ e);
      view = h.view;
      messages = subst (λ q. Shows q h.view) (sym queue) h.messages;
      line = h.line ++ (length m.conns ∷ []);
      arrivals = arrivals;
      waiters = λ i e. subst (λ k. Waiter k i) (sym conns) (longer-Waiter i e);
      apart = λ i ptr e. longer_apart i ptr (sym (ap (λ t. lookup t i) map) ∙ e);
      unique = append_last-Unique h.line (length m.conns) h.unique (next_waits m h);
    };
    grows = omega (arith, ap length conns, length-append m.conns (new_conn id ∷ []));
    line_of = λ i lt e. ground (arith, e, mem-append_last i h.line (length m.conns));
  }

module _ (s : Supply) (ample : Ample s) (m : Mux) (h : WellFormed m) where
  pub dispatch-Follows :
      (t : Measured) (a : AllowAnswer) (p : MuxPackager)
      → (m' : Mux) × (hand : Handoff) × (dispatch s t a p m ≡ some (m', hand)) × Follows m h m'
  unfolding dispatch conn_push Announced
  dispatch-Follows t a p = elim (Bool-cases (p.flag == mux_new_conn)) [
    | inl opens ↦
        let (c, eq, hc) = push-IsQueue m.waiting.chain h.line (length m.conns) h.arrivals in
        let m' = record m {
          conns = m.conns ++ (new_conn p.id ∷ []);
          waiting = record m.waiting { chain = c };
        } in
        (m', nothing, ground (arith, opens, eq), announce_Follows m h p.id m' (refl, refl, refl) hc)
    | inr not_open ↦ elim (Bool-cases (p.flag == mux_ping_flag)) [
      | inl ping ↦
          let (m', sent, follows) =
            send_info_total s mux_ping_return mux_ping (byte_slice (some (bytes p.base.content))) m
              h ample refl in
          (m', nothing, ground (arith, not_open, ping, sent), follows)
      | inr not_ping ↦ elim (Bool-cases (p.flag == mux_ping_return)) [
        | inl answer ↦ (
          m,
          pong (bytes p.base.content),
          ground (arith, not_open, not_ping, answer),
          self-Follows m h,
        )
        | inr not_answer ↦ elim (Option-cases (get_conn m.conn_map p.id)) [
          | inl unknown ↦ (
            m,
            nothing,
            ground (arith, not_open, not_ping, not_answer, unknown),
            self-Follows m h,
          )
          | inr (ptr, found) ↦
              let there = lookup_of m.conn_map p.id ptr found in
              let old = h.entries p.id (some ptr) there in
              let stored : get_elem? m.conns ptr ≡ some old.conn =
                ground (arith, old.stored, old.value) in
              let (m', hand, ran, follows) =
                serve_conn-Follows s ample t m h ptr old.conn stored (h.apart p.id ptr there) a p in
              (
                m',
                hand,
                ground (arith, not_open, not_ping, not_answer, found, stored, old.is_open, ran),
                follows,
              )
        ]
      ]
    ]
  ]
