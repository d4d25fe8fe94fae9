-- ===== src/Mux/Session/Accept.antt =====
-- The goroutine that announces the connections of the other side.
mod Tests
use nps_mux.Base.{
  ℕ, ◌+◌, ◌≤◌, ◌<◌, ◌≡◌, ◌≢◌, refl, sym, ap, ◌∙◌, subst, arith, Bool, true, false, ◌||◌, Option,
  none, some, List, [], ◌∷◌, ◌++◌, length, get_elem?, get_elem?-none, mem, Unique, ◌==◌,
  Option-cases, Bool-cases, inl, inr,
}
use native.Mathlib.Decide.{ℕ_discrete}
use nps_mux.Flag.{mux_new_conn_ok}
use nps_mux.Packager.{MuxPackager, untyped_nil}
use nps_mux.PriorityQueue.{PriorityQueue}
use nps_mux.PriorityQueue.Policy.{View, put}
use nps_mux.PriorityQueue.Refine.{Shows}
use nps_mux.Chain.{BufChain}
use nps_mux.Chain.Refine.{IsQueue, pop-IsQueue_cons, pop-IsQueue_empty}
use nps_mux.ConnQueue.{conn_try_pop}
use nps_mux.ConnMap.{lookup, set_conn}
use nps_mux.ConnMap.Laws.{updated, lookup-set_conn, set_conn-Distinct}
use nps_mux.Mux.{Conn, Mux, Supply, send_info}
use nps_mux.Mux.Send.{Ample, Sends, send_info-notice}
use nps_mux.Mux.WellFormed.{
  Entry, Waiter, WellFormed, Follows, then_Follows, self-Follows, same-Follows,
}
use nps_mux.Mux.Follows.{Granted, send_info-Follows}
use nps_mux.Mux.Session.{offer_round, confirm_round, accept_round}

-- The first connection that waits goes into the map.
module _ (m : Mux) (h : WellFormed m) (ptr : ℕ) (rest : List ℕ) (first : h.line ≡ ptr ∷ rest) where
  oldest : Waiter m.conns ptr
  oldest = h.waiters ptr (ground (arith, first))

  rest_once : (mem ptr rest ≡ false) × Unique rest
  rest_once = subst Unique first h.unique

  module _ (chain : BufChain ℕ) (left : IsQueue chain rest) (c : Conn)
      (stored : get_elem? m.conns ptr ≡ some c) (queue : PriorityQueue) (v : View)
      (shows : Shows queue v) where
    abbrev accepted : Mux
    accepted = record m {
      waiting = record m.waiting { chain = chain };
      conn_map = set_conn m.conn_map c.conn_id (some ptr);
      write_queue = queue;
    }

    same_conn : oldest.conn ≡ c
    same_conn = ground (arith, oldest.stored, stored)

    accepted-Entry :
        (i : ℕ) (v : Option ℕ) → lookup accepted.conn_map i ≡ some v → Entry m.conns i v
    accepted-Entry i v found = elim (ℕ_discrete c.conn_id i) [
      | yes same ↦ record {
        ptr = ptr;
        conn = c;
        value = ground (arith, found, same, lookup-set_conn m.conn_map c.conn_id (some ptr) i);
        stored = stored;
        conn_id = same;
        is_open = sym (ap (λ t. t.is_close) same_conn) ∙ oldest.is_open;
        fresh = sym (ap (λ t. t.once) same_conn) ∙ oldest.fresh;
      }
      | no other ↦
          h.entries i v
            (ground (arith, found, other, lookup-set_conn m.conn_map c.conn_id (some ptr) i))
    ]

    accepted_apart : (i p : ℕ) → lookup accepted.conn_map i ≡ some (some p) → mem p rest ≡ false
    accepted_apart i p found = elim (ℕ_discrete c.conn_id i) [
      | yes same ↦
          let it : ptr ≡ p =
            ground (arith, found, same, lookup-set_conn m.conn_map c.conn_id (some ptr) i) in
          subst (λ (n : ℕ). mem n rest ≡ false) it rest_once.0
      | no other ↦
          let old =
            h.apart i p
              (ground (arith, found, other, lookup-set_conn m.conn_map c.conn_id (some ptr) i)) in
          ground (arith, old, first)
    ]

    accepted-Follows : (f : Follows m h accepted) × (f.sound.line ≡ rest)
    accepted-Follows = (
      record {
        sound = record {
          distinct = set_conn-Distinct m.conn_map c.conn_id (some ptr) h.distinct;
          entries = accepted-Entry;
          healthy = h.healthy;
          view = v;
          messages = shows;
          line = rest;
          arrivals = left;
          waiters = λ i waits. h.waiters i (ground (arith, waits, first));
          apart = accepted_apart;
          unique = rest_once.1;
        };
        grows = omega arith;
        line_of = λ i lt waits. ground (arith, waits, first);
      },
      refl,
    )

-- A round of the goroutine on an open, well-formed mux in which connections wait: it ends, Accept
-- gets the one that was Announced first, which is open, that one is stored under its id and the
-- other entries stay, the mux stays well-formed with the others waiting in their order, and the
-- other side is sent one muxNewConnOk for the id.
pub accept_round_oldest :
    (s : Supply) (m : Mux) (h : WellFormed m) (ptr : ℕ) (rest : List ℕ)
    → Ample s
    → m.is_close ≡ false
    → h.line ≡ ptr ∷ rest
    → (m' : Mux) × (accept_round s m ≡ some (m', some ptr))
      × (f : Follows m h m') × (f.sound.line ≡ rest)
      × (c : Conn) × (get_elem? m'.conns ptr ≡ some c)
      × (c.is_close ≡ false)
      × ((i : ℕ) → lookup m'.conn_map i ≡ updated (lookup m.conn_map) c.conn_id (some (some ptr)) i)
      × (p : MuxPackager) × (p.flag ≡ mux_new_conn_ok)
      × (p.id ≡ c.conn_id)
      × Shows m'.write_queue (put h.view p)
unfolding accept_round offer_round confirm_round conn_try_pop
accept_round_oldest s m h ptr rest ample running first =
    let (chain, eq, left) =
      pop-IsQueue_cons m.waiting.chain ptr rest
        (subst (IsQueue m.waiting.chain) first h.arrivals) in
    let w = h.waiters ptr (ground (arith, first)) in
    let m₁ : Mux = record m {
      waiting = record m.waiting { chain = chain };
      conn_map = set_conn m.conn_map w.conn.conn_id (some ptr);
    } in
    let sends =
      send_info-notice s m₁ h.view ample running h.messages mux_new_conn_ok w.conn.conn_id refl
        refl in
    let (f, same) =
      accepted-Follows m h ptr rest first chain left w.conn w.stored sends.queue
        (put h.view sends.message) sends.shows in
    (
      record m₁ { write_queue = sends.queue },
      ground (arith, running, eq, w.stored, sends.result),
      f,
      same,
      w.conn,
      w.stored,
      w.is_open,
      lookup-set_conn m.conn_map w.conn.conn_id (some ptr),
      sends.message,
      sends.flag_of,
      sends.id_of,
      sends.shows,
    )

idle :
    (m m' : Mux) (h : WellFormed m) (got : Option ℕ)
    → m.is_close ≡ false
    → h.line ≡ []
    → offer_round m ≡ some (m', got)
    → Granted m m' h got
unfolding offer_round conn_try_pop
idle m m' h got running empty done =
    let (chain, eq, left) =
      pop-IsQueue_empty m.waiting.chain (subst (IsQueue m.waiting.chain) empty h.arrivals) in
    absurd (ground (arith, done, running, eq))

-- The round up to the offer, where it gets that far.
pub offer_round-Granted :
    (m m' : Mux) (h : WellFormed m) (got : Option ℕ)
    → offer_round m ≡ some (m', got)
    → (line : List ℕ) → h.line ≡ line
    → Granted m m' h got
unfolding offer_round conn_try_pop
offer_round-Granted m m' h got done line e = elim (Bool-cases m.is_close) [
  | inl shut ↦
      let same : m ≡ m' = ground (arith, done, shut) in
      let nobody : none ≡ got = ground (arith, done, shut) in
      subst (Granted m m' h) nobody (subst (λ k. Follows m h k) same (self-Follows m h))
  | inr running ↦ waiting running line e
]
  where
    waiting : m.is_close ≡ false → (l : List ℕ) → h.line ≡ l → Granted m m' h got
    waiting running [] empty = idle m m' h got running empty done
    waiting running (ptr ∷ rest) first =
        let (chain, eq, left) =
          pop-IsQueue_cons m.waiting.chain ptr rest
            (subst (IsQueue m.waiting.chain) first h.arrivals) in
        let w = h.waiters ptr (ground (arith, first)) in
        let (f, same) =
          accepted-Follows m h ptr rest first chain left w.conn w.stored m.write_queue h.view
            h.messages in
        let it : accepted m h ptr rest first chain left w.conn w.stored m.write_queue h.view
              h.messages
            ≡ m' =
          ground (arith, done, running, eq, w.stored) in
        let owner : some ptr ≡ got = ground (arith, done, running, eq, w.stored) in
        let free : mem ptr f.sound.line ≡ false = rw same (rest_once m h ptr rest first).0 in
        let inside : ptr < length m.conns = ground (arith, w.stored, get_elem?-none m.conns ptr) in
        subst (Granted m m' h) owner (subst (λ k. Granted m k h (some ptr)) it (f, inside, free))

-- The rest of the round, where it ends.
pub confirm_round-Follows :
    (s : Supply) (m m' : Mux) (h : WellFormed m) (ptr : ℕ)
    → confirm_round s m ptr ≡ some m'
    → Follows m h m'
unfolding confirm_round
confirm_round-Follows s m m' h ptr done = elim (Option-cases (get_elem? m.conns ptr)) [
  | inl lost ↦ absurd (ground (arith, done, lost))
  | inr (c, stored) ↦
      send_info-Follows s mux_new_conn_ok c.conn_id untyped_nil m m' h
        (ground (arith, done, stored))
]
