-- ===== src/Mux/Session/Isolation.antt =====
-- A message for one connection leaves the others alone.
use nps_mux.Base.{
  ℕ, ◌≡◌, ◌≢◌, refl, sym, ap, ◌∙◌, subst, arith, Bool, true, false, ◌||◌, Option, some, List, [],
  ◌∷◌, ◌++◌, length, get_elem?, get_elem?-append_ne, get_elem?-none, ◌==◌, Option-cases, Bool-cases,
  inl, inr,
}
use nps_mux.Flag.{
  mux_ping_flag, mux_new_msg, mux_new_msg_part, mux_msg_send_ok, mux_new_conn, mux_conn_close,
  mux_ping_return,
}
use nps_mux.Stream.{bytes}
use nps_mux.Packager.{MuxPackager}
use nps_mux.PriorityQueue.Policy.{View}
use nps_mux.PriorityQueue.Refine.{Shows}
use nps_mux.ConnQueue.{conn_push}
use nps_mux.SendWindow.{AllowAnswer, set_size}
use nps_mux.ReceiveWindow.{Measured, ReceiveError, receive_write}
use nps_mux.ReceiveWindow.Reader.{receive_stop}
use nps_mux.ConnMap.{lookup, get_conn}
use nps_mux.ConnMap.Laws.{lookup_of}
use nps_mux.Mux.{Conn, new_conn, Mux, put_conn, Supply}
use nps_mux.Mux.Send.{Ample, send_info-report}
use nps_mux.Mux.WellFormed.{WellFormed}
use nps_mux.Mux.Session.{Handoff, write_conn, new_msg, serve_conn, dispatch}
use nps_mux.Mux.Session.Only.{
  Only, then_Only, put_conn-Only, same-Only, Sends-Only, close_conn-Only,
}

-- A message for `id` leaves every other connection and every other entry of the map as it was.
record Isolated (id : ℕ) (m m' : Mux) : Type 0 where
  pub running : m'.is_close ≡ false
  pub others :
      (i : ℕ) (c : Conn)
      → get_elem? m.conns i ≡ some c
      → get_conn m.conn_map id ≢ some i
      → get_elem? m'.conns i ≡ some c
  pub names : (i : ℕ) → i ≢ id → lookup m'.conn_map i ≡ lookup m.conn_map i

module _ (s : Supply) (ample : Ample s) where
  write_conn-Only :
      (t : Measured) (m m' : Mux) (ptr : ℕ) (c : Conn) (v : View) (content : List ℕ) (l : ℕ)
      (part : Bool) (id : ℕ) (err : Option ReceiveError)
      → m.is_close ≡ false
      → Shows m.write_queue v
      → get_elem? m.conns ptr ≡ some c
      → write_conn s t m ptr content l part id ≡ some (m', err)
      → Only ptr c.conn_id m m'
  unfolding write_conn
  write_conn-Only t m m' ptr c v content l part id err running shows e done =
      elim (Option-cases (receive_write [] t c.receive_window content l part)) [
        | inl stuck ↦ absurd (ground (arith, done, e, stuck))
        | inr ((w, x, ack), ran) ↦
            let m₁ = put_conn m ptr (record c { receive_window = w }) in
            let puts =
              put_conn-Only ptr c.conn_id m v c (record c { receive_window = w }) shows e refl in
            elim (Option-cases ack) [
              | inl quiet ↦
                  subst (λ k. Only ptr c.conn_id m k) (ground (arith, done, e, ran, quiet)) puts
              | inr (report, told) ↦
                  let sends = send_info-report s m₁ v ample running shows id report in
                  then_Only puts (
                    Sends-Only ptr c.conn_id id m₁ m' v sends
                      (sends.result ∙ ground (arith, done, e, ran, told, sends.result)))
            ]
      ]

  new_msg-Only :
      (t : Measured) (m m' : Mux) (ptr : ℕ) (c : Conn) (v : View) (p : MuxPackager)
      → m.is_close ≡ false
      → Shows m.write_queue v
      → get_elem? m.conns ptr ≡ some c
      → new_msg s t m ptr p ≡ some m'
      → Only ptr c.conn_id m m'
  unfolding new_msg
  new_msg-Only t m m' ptr c v p running shows e done =
      elim (Option-cases (
        write_conn s t m ptr (bytes p.base.content) p.base.length (p.flag == mux_new_msg_part)
          p.id)) [
            | inl stuck ↦ absurd (ground (arith, done, stuck))
            | inr ((m₁, err), ran) ↦
                let writes = write_conn-Only t m m₁ ptr c v _ _ _ _ err running shows e ran in
                elim (Option-cases err) [
                  | inl fine ↦
                      subst (λ k. Only ptr c.conn_id m k) (ground (arith, done, ran, fine)) writes
                  | inr (x, failed) ↦
                      let (c₁, e₁, named) = writes.owner c e in
                      let closes =
                        close_conn-Only s ample m₁ m' ptr c₁ writes.view (writes.running ∙ running)
                          writes.shows e₁ (ground (arith, done, ran, failed)) in
                      then_Only writes (subst (λ (i : ℕ). Only ptr i m₁ m') named closes)
                ]
          ]

  -- A message that is not a content.
  signal-Only :
      (t : Measured) (a : AllowAnswer) (p : MuxPackager) (m m' : Mux) (ptr : ℕ) (c : Conn)
      (v : View) (hand : Handoff)
      → Shows m.write_queue v
      → get_elem? m.conns ptr ≡ some c
      → (p.flag == mux_new_msg || p.flag == mux_new_msg_part) ≡ false
      → serve_conn s t a p m ptr c ≡ some (m', hand)
      → Only ptr c.conn_id m m'
  unfolding serve_conn
  signal-Only t a p m m' ptr c v hand shows e other done =
      elim (Bool-cases (p.flag == mux_msg_send_ok)) [
        | inl size ↦ elim (Option-cases (set_size [] a c.send_window p.window)) [
          | inl stuck ↦ absurd (ground (arith, done, other, size, stuck))
          | inr ((w, closed, signal), ran) ↦
              subst (λ k. Only ptr c.conn_id m k) (ground (arith, done, other, size, ran))
                (put_conn-Only ptr c.conn_id m v c (record c { send_window = w }) shows e refl)
        ]
        | inr not_size ↦ elim (Bool-cases (p.flag == mux_conn_close)) [
          | inl closes ↦
              let c' = record c {
                closing_flag = true;
                receive_window = receive_stop c.receive_window;
              } in
              subst (λ k. Only ptr c.conn_id m k) (ground (arith, done, closes))
                (put_conn-Only ptr c.conn_id m v c c' shows e refl)
          | inr not_close ↦
              subst (λ k. Only ptr c.conn_id m k) (ground (arith, done, other, not_size, not_close))
                (same-Only ptr c.conn_id m v shows)
        ]
      ]

  serve_conn-Only :
      (t : Measured) (a : AllowAnswer) (p : MuxPackager) (m m' : Mux) (ptr : ℕ) (c : Conn)
      (v : View) (hand : Handoff)
      → m.is_close ≡ false
      → Shows m.write_queue v
      → get_elem? m.conns ptr ≡ some c
      → serve_conn s t a p m ptr c ≡ some (m', hand)
      → Only ptr c.conn_id m m'
  unfolding serve_conn
  serve_conn-Only t a p m m' ptr c v hand running shows e done =
      elim (Bool-cases (p.flag == mux_new_msg || p.flag == mux_new_msg_part)) [
        | inl content ↦ elim (Option-cases (new_msg s t m ptr p)) [
          | inl stuck ↦ absurd (ground (arith, done, content, stuck))
          | inr (m₁, ran) ↦
              let same : m₁ ≡ m' = ground (arith, done, content, ran) in
              new_msg-Only t m m' ptr c v p running shows e (ran ∙ ap some same)
        ]
        | inr other ↦ signal-Only t a p m m' ptr c v hand shows e other done
      ]

  open_Isolated :
      (id : ℕ) (m m' : Mux) (c : Conn)
      → m.is_close ≡ false
      → m'.is_close ≡ m.is_close
      → m'.conns ≡ m.conns ++ (c ∷ [])
      → m'.conn_map ≡ m.conn_map
      → Isolated id m m'
  open_Isolated id m m' c running still conns map = record {
    running = still ∙ running;
    others = λ i x e miss.
        ap (λ t. get_elem? t i) conns
        ∙ get_elem?-append_ne m.conns c i
            (λ same. absurd (ground (arith, e, get_elem?-none m.conns i (omega (arith, same)))))
        ∙ e;
    names = λ i other. ap (λ t. lookup t i) map;
  }

  serve_Isolated :
      (t : Measured) (a : AllowAnswer) (p : MuxPackager) (m m' : Mux) (hand : Handoff) (ptr : ℕ)
      (c : Conn)
      → m.is_close ≡ false
      → WellFormed m
      → get_conn m.conn_map p.id ≡ some ptr
      → get_elem? m.conns ptr ≡ some c
      → serve_conn s t a p m ptr c ≡ some (m', hand)
      → Isolated p.id m m'
  serve_Isolated t a p m m' hand ptr c running h found stored done =
      let entry = h.entries p.id (some ptr) (lookup_of m.conn_map p.id ptr found) in
      let same : entry.conn ≡ c = ground (arith, entry.stored, entry.value, stored) in
      let named : c.conn_id ≡ p.id = ap (λ t. t.conn_id) (sym same) ∙ entry.conn_id in
      let only = serve_conn-Only t a p m m' ptr c h.view hand running h.messages stored done in
      record {
        running = only.running ∙ running;
        others = λ i x e miss. only.others i (λ here. miss (found ∙ ap some (sym here))) ∙ e;
        names = λ i other. only.names i (λ q. other (q ∙ named));
      }

  dispatch-Isolated :
      (t : Measured) (a : AllowAnswer) (p : MuxPackager) (m m' : Mux) (hand : Handoff)
      → m.is_close ≡ false
      → WellFormed m
      → p.flag ≢ mux_ping_flag
      → dispatch s t a p m ≡ some (m', hand)
      → Isolated p.id m m'
  unfolding dispatch
  dispatch-Isolated t a p m m' hand running h no_ping done =
      elim (Bool-cases (p.flag == mux_new_conn)) [
        | inl opens ↦ elim (Option-cases (conn_push m.waiting (length m.conns))) [
          | inl stuck ↦ absurd (ground (arith, done, opens, stuck))
          | inr (q, pushed) ↦
              let m₁ = record m { conns = m.conns ++ (new_conn p.id ∷ []); waiting = q } in
              let same : m₁ ≡ m' = ground (arith, done, opens, pushed) in
              subst (λ k. Isolated p.id m k) same
                (open_Isolated p.id m m₁ (new_conn p.id) running refl refl refl)
        ]
        | inr not_open ↦ elim (Bool-cases (p.flag == mux_ping_return)) [
          | inl answer ↦ nothing_done (ground (arith, done, not_open, no_ping, answer))
          | inr not_answer ↦ elim (Option-cases (get_conn m.conn_map p.id)) [
            | inl unknown ↦
                nothing_done (ground (arith, done, not_open, no_ping, not_answer, unknown))
            | inr (ptr, found) ↦ elim (Option-cases (get_elem? m.conns ptr)) [
              | inl lost ↦ absurd (ground (arith, done, not_open, no_ping, not_answer, found, lost))
              | inr (c, stored) ↦ elim (Bool-cases c.is_close) [
                | inl closed ↦
                    nothing_done
                      (ground (arith, done, not_open, no_ping, not_answer, found, stored, closed))
                | inr is_open ↦
                    serve_Isolated t a p m m' hand ptr c running h found stored
                      (ground (arith, done, not_open, no_ping, not_answer, found, stored, is_open))
              ]
            ]
          ]
        ]
      ]
    where
      nothing_done : m ≡ m' → Isolated p.id m m'
      nothing_done same =
          subst (λ k. Isolated p.id m k) same
            (record { running = running; others = λ i x e miss. e; names = λ i other. refl })

  -- On an open mux that is well-formed, a message that is no ping, if it is handled without a
  -- panic, leaves the mux open, every connection but the one of its id as it was, and every other
  -- entry of the map.
  pub dispatch_others :
      (t : Measured) (a : AllowAnswer) (p : MuxPackager) (m m' : Mux) (hand : Handoff) (i id : ℕ)
      (c : Conn)
      → m.is_close ≡ false
      → WellFormed m
      → p.flag ≢ mux_ping_flag
      → dispatch s t a p m ≡ some (m', hand)
      → get_elem? m.conns i ≡ some c
      → get_conn m.conn_map p.id ≢ some i
      → id ≢ p.id
      → (m'.is_close ≡ false)
        × (get_elem? m'.conns i ≡ some c)
        × (lookup m'.conn_map id ≡ lookup m.conn_map id)
  dispatch_others t a p m m' hand i id c running h no_ping done stored miss other =
      let isolated = dispatch-Isolated t a p m m' hand running h no_ping done in
      (isolated.running, isolated.others i c stored miss, isolated.names id other)
