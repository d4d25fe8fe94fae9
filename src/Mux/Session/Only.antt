-- ===== src/Mux/Session/Only.antt =====
-- The operations that touch one connection alone.
use nps_mux.Base.{
  ℕ, ◌≡◌, ◌≢◌, refl, sym, ◌∙◌, subst, arith, true, false, Option, some, get_elem?, get_elem?-set_ne,
  Option-cases, Bool-cases, inl, inr,
}
use nps_mux.Flag.{mux_conn_close}
use nps_mux.Packager.{untyped_nil}
use nps_mux.PriorityQueue.Policy.{View, put}
use nps_mux.PriorityQueue.Refine.{Shows}
use nps_mux.ReceiveWindow.Reader.{receive_close}
use nps_mux.ConnMap.{lookup, delete_conn}
use nps_mux.ConnMap.Laws.{lookup-delete_conn}
use nps_mux.Mux.{Conn, Mux, put_conn, Supply, send_info, close_once, close_process, close_conn}
use nps_mux.Mux.Send.{Ample, Sends, send_info-notice}
use nps_mux.Mux.CloseConn.{get_elem?-set}

-- From `m` to `m'` only the connection `ptr`, of `id`, and the queue of messages change.
pub record Only (ptr id : ℕ) (m m' : Mux) : Type 0 where
  pub others : (i : ℕ) → i ≢ ptr → get_elem? m'.conns i ≡ get_elem? m.conns i
  pub names : (i : ℕ) → i ≢ id → lookup m'.conn_map i ≡ lookup m.conn_map i
  pub owner :
      (c : Conn)
      → get_elem? m.conns ptr ≡ some c
      → (c' : Conn) × (get_elem? m'.conns ptr ≡ some c') × (c'.conn_id ≡ c.conn_id)
  pub running : m'.is_close ≡ m.is_close
  pub view : View
  pub shows : Shows m'.write_queue view

pub then_Only :
    {ptr id : ℕ} {m m' m'' : Mux} → Only ptr id m m' → Only ptr id m' m'' → Only ptr id m m''
then_Only a b = record {
  others = λ i other. b.others i other ∙ a.others i other;
  names = λ i other. b.names i other ∙ a.names i other;
  owner = λ c e.
      let (c', e', n) = a.owner c e in let (c'', e'', n') = b.owner c' e' in (c'', e'', n' ∙ n);
  running = b.running ∙ a.running;
  view = b.view;
  shows = b.shows;
}

pub put_conn-Only :
    (ptr id : ℕ) (m : Mux) (v : View) (c c' : Conn)
    → Shows m.write_queue v
    → get_elem? m.conns ptr ≡ some c
    → c'.conn_id ≡ c.conn_id
    → Only ptr id m (put_conn m ptr c')
put_conn-Only ptr id m v c c' shows e n = record {
  others = λ i other. get_elem?-set_ne m.conns c' (λ same. other (sym same));
  names = λ i other. refl;
  owner = λ x e'. (c', get_elem?-set m.conns ptr c c' e, ground (arith, e, e', n));
  running = refl;
  view = v;
  shows = shows;
}

pub same-Only : (ptr id : ℕ) (m : Mux) (v : View) → Shows m.write_queue v → Only ptr id m m
same-Only ptr id m v shows = record {
  others = λ i other. refl;
  names = λ i other. refl;
  owner = λ c e. (c, e, refl);
  running = refl;
  view = v;
  shows = shows;
}

pub Sends-Only :
    {flag window : ℕ} {r : Option Mux} (ptr id to : ℕ) (m m' : Mux) (v : View)
    → Sends flag to window m v r
    → r ≡ some m'
    → Only ptr id m m'
Sends-Only ptr id to m m' v s e =
    let queued : Only ptr id m (record m { write_queue = s.queue }) = record {
      others = λ i other. refl;
      names = λ i other. refl;
      owner = λ c e. (c, e, refl);
      running = refl;
      view = put v s.message;
      shows = s.shows;
    } in
    subst (λ t. Only ptr id m t) (ground (arith, s.result, e)) queued

pub delete-Only :
    (ptr : ℕ) (m : Mux) (v : View) (c : Conn)
    → Shows m.write_queue v
    → Only ptr c.conn_id m (record m { conn_map = delete_conn m.conn_map c.conn_id })
delete-Only ptr m v c shows = record {
  others = λ i other. refl;
  names = λ i other. ground (arith, lookup-delete_conn m.conn_map c.conn_id i, other);
  owner = λ x e. (x, e, refl);
  running = refl;
  view = v;
  shows = shows;
}

module _ (s : Supply) (ample : Ample s) where
  abbrev notice : Mux → ℕ → Option Mux
  notice n id = send_info s mux_conn_close id untyped_nil n

  close_process-Only :
      (m m' : Mux) (ptr : ℕ) (c : Conn) (v : View)
      → m.is_close ≡ false
      → Shows m.write_queue v
      → get_elem? m.conns ptr ≡ some c
      → close_process notice m ptr ≡ some m'
      → Only ptr c.conn_id m m'
  unfolding close_process
  close_process-Only m m' ptr c v running shows e done =
      let m₁ = record (put_conn m ptr (record c { is_close = true })) {
        conn_map = delete_conn m.conn_map c.conn_id;
      } in
      let marks =
        then_Only (put_conn-Only ptr c.conn_id m v c (record c { is_close = true }) shows e refl)
          (delete-Only ptr (put_conn m ptr (record c { is_close = true })) v c shows) in
      let sends = send_info-notice s m₁ v ample running shows mux_conn_close c.conn_id refl refl in
      let m₂ = record m₁ { write_queue = sends.queue } in
      let tells = then_Only marks (Sends-Only ptr c.conn_id c.conn_id m₁ m₂ v sends sends.result) in
      let (c', e', n') = tells.owner c e in
      elim (Option-cases (receive_close c'.receive_window)) [
        | inl stuck ↦ absurd (ground (arith, done, e, running, sends.result, e', stuck))
        | inr (r, closed) ↦
            let shut = record c' {
              send_window = record c'.send_window { close_op = true };
              receive_window = r;
            } in
            let last =
              then_Only tells
                (put_conn-Only ptr c.conn_id m₂ tells.view c' shut tells.shows e' refl) in
            subst (λ t. Only ptr c.conn_id m t)
              (ground (arith, done, e, running, sends.result, e', closed)) last
      ]

  pub close_conn-Only :
      (m m' : Mux) (ptr : ℕ) (c : Conn) (v : View)
      → m.is_close ≡ false
      → Shows m.write_queue v
      → get_elem? m.conns ptr ≡ some c
      → close_conn s m ptr ≡ some m'
      → Only ptr c.conn_id m m'
  unfolding close_conn close_once
  close_conn-Only m m' ptr c v running shows e done = elim (Bool-cases c.once) [
    | inl again ↦
        subst (λ t. Only ptr c.conn_id m t) (ground (arith, done, e, again))
          (same-Only ptr c.conn_id m v shows)
    | inr first ↦
        let c₁ = record c { once = true } in
        let m₁ = put_conn m ptr c₁ in
        then_Only (put_conn-Only ptr c.conn_id m v c c₁ shows e refl) (
          close_process-Only m₁ m' ptr c₁ v running shows (get_elem?-set m.conns ptr c c₁ e)
            (ground (arith, done, e, first)))
  ]
