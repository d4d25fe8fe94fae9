-- ===== src/Mux/PutConn.antt =====
-- A connection is replaced by one that differs in its windows alone.
use nps_mux.Base.{
  ℕ, ◌≡◌, sym, ap, ◌∙◌, subst, arith, Option, some, get_elem?, get_elem?-set_ne, set, length-set,
}
use native.Mathlib.Decide.{ℕ_discrete}
use nps_mux.Mux.{Conn, Mux, put_conn}
use nps_mux.Mux.CloseConn.{Healthy, get_elem?-set}
use nps_mux.Mux.WellFormed.{Entry, Waiter, WellFormed, Follows}

module _ (m : Mux) (h : WellFormed m) (ptr : ℕ) (c c' : Conn) (e : get_elem? m.conns ptr ≡ some c)
    (named : c'.conn_id ≡ c.conn_id) (shut : c'.is_close ≡ c.is_close) (once : c'.once ≡ c.once)
    (healthy : Healthy c') where
  put_Entry : (id : ℕ) (v : Option ℕ) → Entry m.conns id v → Entry (set m.conns ptr c') id v
  put_Entry id v old = elim (ℕ_discrete ptr old.ptr) [
    | yes same ↦
        let it : c ≡ old.conn = ground (arith, e, old.stored, same) in
        record {
          ptr = ptr;
          conn = c';
          value = old.value ∙ ap some (sym same);
          stored = get_elem?-set m.conns ptr c c' e;
          conn_id = named ∙ ap (λ t. t.conn_id) it ∙ old.conn_id;
          is_open = shut ∙ ap (λ t. t.is_close) it ∙ old.is_open;
          fresh = once ∙ ap (λ t. t.once) it ∙ old.fresh;
        }
    | no other ↦ record {
      ptr = old.ptr;
      conn = old.conn;
      value = old.value;
      stored = get_elem?-set_ne m.conns c' other ∙ old.stored;
      conn_id = old.conn_id;
      is_open = old.is_open;
      fresh = old.fresh;
    }
  ]

  put_waits : (i : ℕ) → Waiter m.conns i → Waiter (set m.conns ptr c') i
  put_waits i old = elim (ℕ_discrete ptr i) [
    | yes same ↦
        let it : c ≡ old.conn = ground (arith, e, old.stored, same) in
        record {
          conn = c';
          stored =
              subst (λ (n : ℕ). get_elem? (set m.conns ptr c') n ≡ some c') same
                (get_elem?-set m.conns ptr c c' e);
          is_open = shut ∙ ap (λ t. t.is_close) it ∙ old.is_open;
          fresh = once ∙ ap (λ t. t.once) it ∙ old.fresh;
        }
    | no other ↦ record {
      conn = old.conn;
      stored = get_elem?-set_ne m.conns c' other ∙ old.stored;
      is_open = old.is_open;
      fresh = old.fresh;
    }
  ]

  put_Healthy : (i : ℕ) (x : Conn) → get_elem? (set m.conns ptr c') i ≡ some x → Healthy x
  put_Healthy i x found = elim (ℕ_discrete ptr i) [
    | yes same ↦
        let now : c' ≡ x = ground (arith, found, same, get_elem?-set m.conns ptr c c' e) in
        subst Healthy now healthy
    | no other ↦ h.healthy i x (sym (get_elem?-set_ne m.conns c' other) ∙ found)
  ]

  pub put_conn-Follows : Follows m h (put_conn m ptr c')
  put_conn-Follows = record {
    sound = record {
      distinct = h.distinct;
      entries = λ id v found. put_Entry id v (h.entries id v found);
      healthy = put_Healthy;
      view = h.view;
      messages = h.messages;
      line = h.line;
      arrivals = h.arrivals;
      waiters = λ i waits. put_waits i (h.waiters i waits);
      apart = h.apart;
      unique = h.unique;
    };
    grows = omega (arith, length-set m.conns ptr c');
    line_of = λ i lt waits. waits;
  }
