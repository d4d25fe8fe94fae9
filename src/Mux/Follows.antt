-- ===== src/Mux/Follows.antt =====
-- The operations of a mux that keep it well-formed, whether it is open or closed.
use nps_mux.Base.{
  ℕ, ◌+◌, ◌<◌, ◌≡◌, refl, ap, subst, arith, Bool, true, false, Option, none, some, List, [], length,
  get_elem?, mem, ◌==◌, Option-cases, Bool-cases, inl, inr,
}
use nps_mux.Flag.{mux_conn_close, mux_msg_send_ok}
use nps_mux.Packager.{
  MuxPackager, Payload, PackError, untyped_nil, byte_slice, word, mux_set, base_set, carries_bytes,
}
use nps_mux.PriorityQueue.{stop_queue}
use nps_mux.PriorityQueue.Policy.{put}
use nps_mux.PriorityQueue.Refine.{push-Shows}
use nps_mux.ConnQueue.{stop_conn_queue}
use nps_mux.Mux.{Conn, Mux, Supply, send_info, close_conn, close_mux}
use nps_mux.Mux.Send.{Ample, send_info-notice}
use nps_mux.Mux.CloseConn.{get_elem?-set, close_once_lem, close_once_again, marked}
use nps_mux.Mux.WellFormed.{
  WellFormed, Follows, shut-Follows, same-Follows, fewer-Follows, then_Follows, self-Follows,
}
use nps_mux.Mux.Drain.{release_mux-Drained}
use nps_mux.Mux.Shuts.{close_conns-Shuts}
use nps_mux.Mux.CloseAll.{marked-Follows, stopped-Shows}

-- `Close` of a mux ends, whatever keys Go finds and whether the mux is closed already.
pub close_mux-Follows :
    (order : List ℕ) (m : Mux) (h : WellFormed m)
    → (m' : Mux) × (again : Bool) × (close_mux order m ≡ some (m', again))
      × Follows m h m'
      × (m'.is_close ≡ true)
unfolding close_mux stop_conn_queue
close_mux-Follows order m h = elim (Bool-cases m.is_close) [
  | inl shut ↦ (m, true, ground (arith, shut), self-Follows m h, shut)
  | inr running ↦
      let marks = marked-Follows m h in
      let (m₁, eq, s) = close_conns-Shuts order (record m { is_close = true }) marks.sound refl in
      let m₂ : Mux = record m₁ {
        close_tokens = m₁.close_tokens + 1;
        accept_open = false;
        conn_open = false;
      } in
      let h₁ = s.follows.sound in
      let (q, w, eq', v, sv, over, hw) =
        release_mux-Drained m₂ h₁.view h₁.line h₁.messages h₁.arrivals in
      let m₃ = record m₂ { write_queue = stop_queue q; waiting = stop_conn_queue w } in
      let releases =
        fewer-Follows m₁ m₃ h₁ refl refl [] hw (λ ptr e. absurd (ground (arith, e))) tt
          (record v { stopped = true }) (stopped-Shows q v sv) in
      (
        m₃,
        false,
        ground (arith, running, eq, eq'),
        then_Follows marks (then_Follows s.follows releases),
        ap (λ t. t.is_close) s.rest,
      )
]

-- `sendInfo`, where it ends.
pub send_info-Follows :
    (s : Supply) (flag id : ℕ) (payload : Payload) (m m' : Mux) (h : WellFormed m)
    → send_info s flag id payload m ≡ some m'
    → Follows m h m'
unfolding send_info
send_info-Follows s flag id payload m m' h done = elim (Bool-cases m.is_close) [
  | inl shut ↦ subst (λ t. Follows m h t) (ground (arith, done, shut)) (self-Follows m h)
  | inr running ↦ elim (Option-cases (mux_set s.pack flag id payload s.buf s.content)) [
    | inl stuck ↦ absurd (ground (arith, done, running, stuck))
    | inr ((p, err), ran) ↦ elim (Option-cases err) [
      | inl fine ↦
          let (q, eq, hq) = push-Shows m.write_queue h.view p h.messages in
          subst (λ t. Follows m h t) (ground (arith, done, running, ran, fine, eq))
            (same-Follows m (record m { write_queue = q }) h refl refl refl (put h.view p) hq)
      | inr (x, bad) ↦
          let (m₁, again, eq, follows, _) = close_mux-Follows s.order m h in
          subst (λ t. Follows m h t) (ground (arith, done, running, ran, bad, eq)) follows
    ]
  ]
]

-- The payloads that the program gives to `sendInfo` under a flag.
abbrev pub Sendable : ℕ → Payload → Type 0
Sendable flag (byte_slice body) = carries_bytes flag ≡ true
Sendable flag (word w) = flag ≡ mux_msg_send_ok
Sendable flag untyped_nil = (carries_bytes flag ≡ false) × ((flag == mux_msg_send_ok) ≡ false)

mux_set_total :
    (s : Supply) (flag id : ℕ) (payload : Payload)
    → Ample s
    → Sendable flag payload
    → (p : MuxPackager) × (e : Option PackError) × (mux_set s.pack flag id payload s.buf s.content
        ≡ some (p, e))
unfolding mux_set base_set
mux_set_total s flag id untyped_nil ample able =
    elim (Option-cases (mux_set s.pack flag id untyped_nil s.buf s.content)) [
      | inl stuck ↦ absurd (ground (arith, stuck, able.0, able.1, ample.0))
      | inr ((p, e), ran) ↦ (p, e, ran)
    ]
mux_set_total s flag id (word w) ample able =
    elim (Option-cases (mux_set s.pack flag id (word w) s.buf s.content)) [
      | inl stuck ↦ absurd (ground (arith, stuck, able, ample.0))
      | inr ((p, e), ran) ↦ (p, e, ran)
    ]
mux_set_total s flag id (byte_slice none) ample able =
    elim (Option-cases (mux_set s.pack flag id (byte_slice none) s.buf s.content)) [
      | inl stuck ↦ absurd (ground (arith, stuck, able, ample.0, ample.1))
      | inr ((p, e), ran) ↦ (p, e, ran)
    ]
mux_set_total s flag id (byte_slice (some body)) ample able =
    elim (Option-cases (mux_set s.pack flag id (byte_slice (some body)) s.buf s.content)) [
      | inl stuck ↦ absurd (ground (arith, stuck, able, ample.0, ample.1))
      | inr ((p, e), ran) ↦ (p, e, ran)
    ]

-- `sendInfo` of such a payload ends, also where the mux has to close.
pub send_info_total :
    (s : Supply) (flag id : ℕ) (payload : Payload) (m : Mux) (h : WellFormed m)
    → Ample s
    → Sendable flag payload
    → (m' : Mux) × (send_info s flag id payload m ≡ some m') × Follows m h m'
unfolding send_info
send_info_total s flag id payload m h ample able =
    elim (Option-cases (send_info s flag id payload m)) [
      | inr (m', ran) ↦ (m', ran, send_info-Follows s flag id payload m m' h ran)
      | inl stuck ↦
          let (p, err, ran) = mux_set_total s flag id payload ample able in
          let (q, eq, hq) = push-Shows m.write_queue h.view p h.messages in
          let (m₁, again, closes, follows, _) = close_mux-Follows s.order m h in
          absurd (ground (arith, stuck, ran, eq, closes))
    ]

-- `Close` of a stored connection that does not wait: it ends.
pub close_conn-Follows :
    (s : Supply) (m : Mux) (h : WellFormed m) (ptr : ℕ) (c : Conn)
    → Ample s
    → get_elem? m.conns ptr ≡ some c
    → mem ptr h.line ≡ false
    → (m' : Mux) × (close_conn s m ptr ≡ some m') × Follows m h m' × (close_conn s m' ptr ≡ some m')
unfolding close_conn
close_conn-Follows s m h ptr c ample e taken = elim (Bool-cases c.once) [
  | inl again ↦
      let same =
        close_once_again (λ n id. send_info s mux_conn_close id untyped_nil n) m ptr c e again in
      (m, same, self-Follows m h, same)
  | inr first ↦
      let notice : Mux → ℕ → Option Mux = λ n id. send_info s mux_conn_close id untyped_nil n in
      elim (Bool-cases m.is_close) [
        | inl shut ↦
            let (c', eq, d) =
              close_once_lem notice m ptr c e (h.healthy ptr c e) first m.write_queue
                (ground (arith, shut)) in
            (
              _,
              eq,
              shut-Follows m h ptr c c' e taken d m.write_queue h.view h.messages,
              close_once_again notice _ ptr c' (get_elem?-set m.conns ptr c c' e) d.once,
            )
        | inr running ↦
            let sends =
              send_info-notice s (marked m ptr c) h.view ample running h.messages mux_conn_close
                c.conn_id refl refl in
            let (c', eq, d) =
              close_once_lem notice m ptr c e (h.healthy ptr c e) first sends.queue
                (ground (arith, running, sends.result)) in
            (
              _,
              eq,
              shut-Follows m h ptr c c' e taken d sends.queue (put h.view sends.message)
                  sends.shows,
              close_once_again notice _ ptr c' (get_elem?-set m.conns ptr c c' e) d.once,
            )
      ]
]

-- Who gets a connection may use it from then on: it is stored, and does not wait.
abbrev pub Granted : (m m' : Mux) → (h : WellFormed m) → Option ℕ → Type 0
Granted m m' h none = Follows m h m'
Granted m m' h (some ptr) =
    (f : Follows m h m') × (ptr < length m'.conns) × (mem ptr f.sound.line ≡ false)
