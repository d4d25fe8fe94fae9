-- ===== src/Mux/Session/Safe.antt =====
-- The rounds of the goroutines on a well-formed mux, open or closed: which of them end on every input, and
-- that each leaves a well-formed mux.
use nps_mux.Base.{
  ℕ, ◌+◌, ◌≡◌, refl, subst, arith, Bool, true, false, Option, none, some, List, [], ◌++◌, length,
  get_elem?-append_last, mem, ltb, Option-cases, Bool-cases, inl, inr, ◌%◌, ◌^◌,
}
use nps_mux.Flag.{mux_ping_flag, mux_ping, mux_new_conn}
use nps_mux.Stream.{Writer}
use nps_mux.Packager.{byte_slice, untyped_nil, mux_pack}
use nps_mux.Packager.Total.{unpack_total}
use nps_mux.PriorityQueue.Policy.{serve}
use nps_mux.PriorityQueue.Refine.{try_pop-Shows}
use nps_mux.ConnMap.{get_id}
use nps_mux.SendWindow.{AllowAnswer}
use nps_mux.ReceiveWindow.{Measured}
use nps_mux.Mux.{new_conn, Mux, Supply, OpenError, open_conn}
use nps_mux.Mux.Send.{Ample}
use nps_mux.Mux.WellFormed.{
  WellFormed, Follows, self-Follows, then_Follows, same-Follows, next_waits,
}
use nps_mux.Mux.Lifecycle.{added, added-Follows}
use nps_mux.Mux.Follows.{Granted, send_info_total, close_mux-Follows}
use nps_mux.Mux.Session.Serve.{still_taken, stored_lt}
use nps_mux.Mux.Session.{Handoff, nothing, read_round, ping_round, write_session_round}
use nps_mux.Mux.Session.Announce.{dispatch-Follows}

-- The connection that `NewConn` returns.
abbrev pub granted : Option OpenError → ℕ → Option ℕ
granted none ptr = some ptr
granted (some e) ptr = none

module _ (s : Supply) (ample : Ample s) (m : Mux) (h : WellFormed m) where
  -- A round of the reader goroutine ends on any bytes.
  pub read_round-Follows :
      (t : Measured) (a : AllowAnswer) (src : List ℕ)
      → (m' : Mux) × (rest : List ℕ) × (hand : Handoff) × (goes : Bool) × (read_round s t a m src
          ≡ some (m', rest, hand, goes))
        × Follows m h m'
        × (got : List ℕ) × (got ++ rest ≡ src)
  unfolding read_round
  read_round-Follows t a src = elim (Bool-cases m.is_close) [
    | inl shut ↦ (m, src, nothing, false, ground (arith, shut), self-Follows m h, [], refl)
    | inr running ↦
        let (u, read, got, split) = unpack_total s.pack s.buf s.content src ample.0 ample.1 in
        elim (Option-cases u.error) [
          | inr (e, broken) ↦
              let (m', again, closes, follows, _) = close_mux-Follows s.order m h in
              (
                m',
                u.rest,
                nothing,
                false,
                ground (arith, running, read, broken, closes),
                follows,
                got,
                split,
              )
          | inl fine ↦
              let (m', hand, ran, follows) = dispatch-Follows s ample m h t a u.pack in
              (
                m',
                u.rest,
                hand,
                true,
                ground (arith, running, read, fine, ran),
                follows,
                got,
                split,
              )
        ]
  ]

  -- A tick ends, whatever the time is as text.
  pub ping_round-Follows :
      (now : List ℕ)
      → (m' : Mux) × (goes : Bool) × (ping_round s now m ≡ some (m', goes)) × Follows m h m'
  unfolding ping_round
  ping_round-Follows now = elim (Bool-cases m.is_close) [
    | inl shut ↦ (m, false, ground (arith, shut), self-Follows m h)
    | inr running ↦ elim (Bool-cases (ltb m.ping_check_threshold m.ping_check_time)) [
      | inl late ↦
          let (m', again, closes, follows, _) = close_mux-Follows s.order m h in
          (m', false, ground (arith, running, late, closes), follows)
      | inr early ↦
          let (m₁, sent, follows) =
            send_info_total s mux_ping_flag mux_ping (byte_slice (some now)) m h ample refl in
          let m' = record m₁ { ping_check_time = (m₁.ping_check_time + 1) % 2 ^ 32 } in
          let h₁ = follows.sound in
          (
            m',
            true,
            ground (arith, running, early, sent),
            then_Follows follows (same-Follows m₁ m' h₁ refl refl refl h₁.view h₁.messages),
          )
    ]
  ]

  -- A round of the writer goroutine, where it ends.
  pub write_session_round-Follows :
      (w w' : Writer) (m' : Mux) (goes : Bool)
      → write_session_round s m w ≡ some (m', w', goes)
      → Follows m h m'
  unfolding write_session_round
  write_session_round-Follows w w' m' goes done = elim (Bool-cases m.is_close) [
    | inl shut ↦ subst (λ k. Follows m h k) (ground (arith, done, shut)) (self-Follows m h)
    | inr running ↦
        let (q, popped, shows) = try_pop-Shows m.write_queue h.view h.messages in
        let m₁ = record m { write_queue = q } in
        let pops = same-Follows m m₁ h refl refl refl (serve h.view).0 shows in
        elim (Option-cases (serve h.view).1) [
          | inl nil ↦ absurd (ground (arith, done, running, popped, nil))
          | inr (p, served) ↦ elim (Option-cases (mux_pack p w)) [
            | inl stuck ↦ absurd (ground (arith, done, running, popped, served, stuck))
            | inr ((p', w₁, e), packed) ↦ elim (Option-cases e) [
              | inl fine ↦
                  subst (λ k. Follows m h k)
                    (ground (arith, done, running, popped, served, packed, fine)) pops
              | inr (x, broken) ↦
                  let (m₂, again, closes, follows, _) = close_mux-Follows s.order m₁ pops.sound in
                  subst (λ k. Follows m h k)
                    (ground (arith, done, running, popped, served, packed, broken, closes))
                    (then_Follows pops follows)
            ]
          ]
        ]
  ]

  -- `NewConn`, where it finds an id.
  pub open_conn-Granted :
      (confirmed : Bool) (m' : Mux) (e : Option OpenError) (ptr : ℕ)
      → open_conn s confirmed m ≡ some (m', e, ptr)
      → Granted m m' h (granted e ptr)
  unfolding open_conn
  open_conn-Granted confirmed m' e ptr done = elim (Bool-cases m.is_close) [
    | inl shut ↦
        let nobody : none ≡ granted e ptr = ground (arith, done, shut) in
        subst (Granted m m' h) nobody
          (subst (λ k. Follows m h k) (ground (arith, done, shut)) (self-Follows m h))
    | inr running ↦ elim (Option-cases (get_id m.conn_map m.id)) [
      | inl stuck ↦ absurd (ground (arith, done, running, stuck))
      | inr (id, found) ↦
          let m₁ = added s m ample running h id in
          let (adds, line) = added-Follows s m ample running h id m.write_queue h.view h.messages in
          let (m₂, sent, sends) =
            send_info_total s mux_new_conn id untyped_nil m₁ adds.sound ample (refl, refl) in
          let (c, stored, free) =
            still_taken sends (length m.conns) (new_conn id)
              (get_elem?-append_last m.conns (new_conn id)) (rw line (next_waits m h)) in
          let same : m₂ ≡ m' = ground (arith, done, running, found, sent) in
          let both : Follows m h m₂ = record {
            sound = sends.sound;
            grows = omega (arith, adds.grows, sends.grows);
            line_of = λ i lt waits.
                subst (λ l. mem i l ≡ true) line
                  (sends.line_of i (omega (arith, lt, adds.grows)) waits);
          } in
          subst (λ k. Granted m k h (granted e ptr)) same
            (elim (Bool-cases confirmed) [
              | inl yes_sent ↦
                  let owner : some (length m.conns) ≡ granted e ptr =
                    ground (arith, done, running, found, sent, yes_sent) in
                  subst (Granted m m₂ h) owner
                    (both, stored_lt m₂.conns (length m.conns) c stored, free)
              | inr refused_by ↦
                  let nobody : none ≡ granted e ptr =
                    ground (arith, done, running, found, sent, refused_by) in
                  subst (Granted m m₂ h) nobody both
            ])
    ]
  ]
