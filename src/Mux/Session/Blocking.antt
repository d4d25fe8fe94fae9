-- ===== src/Mux/Session/Blocking.antt =====
-- The messages that can hold the reader goroutine up: those for which it sends on an unbuffered channel, itself
-- or in a Push.
use nps_mux.Base.{
  ℕ, ◌≡◌, arith, Bool, false, ◌||◌, ◌&&◌, none, some, List, [], get_elem?, length, ◌==◌,
  Option-cases, Bool-cases, inl, inr,
}
use nps_mux.Flag.{
  mux_new_conn_ok, mux_new_conn_fail, mux_new_msg, mux_new_msg_part, mux_msg_send_ok, mux_new_conn,
  mux_ping_flag, mux_ping_return, mux_ping,
}
use nps_mux.Packager.{MuxPackager, Unpacked, mux_unpack, byte_slice}
use nps_mux.SendWindow.{AllowAnswer}
use nps_mux.ReceiveWindow.{Measured}
use nps_mux.ReceiveQueue.{ListElement, ReceiveQueue, receive_push}
use nps_mux.ConnMap.{get_conn}
use nps_mux.ConnQueue.{conn_push}
use nps_mux.Stream.{bytes}
use nps_mux.Mux.{Conn, Mux, Supply, send_info, close_mux}
use nps_mux.Mux.Session.{Handoff, nothing, new_msg, serve_conn, dispatch, read_round}

-- The answer to a ping, a confirmation, a refusal, a report.
pub hands_over : MuxPackager → Bool
hands_over p =
    p.flag == mux_ping_return
    || (p.flag == mux_new_conn_ok || (p.flag == mux_new_conn_fail || p.flag == mux_msg_send_ok))

-- Whether a Push of `e` signals a reader that is marked as waiting.
abbrev signals_reader : ReceiveQueue → ListElement → Bool
signals_reader q e = elim (receive_push [] q e) [ none ↦ false | some (q', waited) ↦ waited ]

-- A content for a connection of the map, the Push of which signals a reader.
pub wakes : Mux → MuxPackager → Bool
wakes m p =
    (p.flag == mux_new_msg || p.flag == mux_new_msg_part) && elim (get_conn m.conn_map p.id) [
      | none ↦ false
      | some ptr ↦ elim (get_elem? m.conns ptr) [
        | none ↦ false
        | some c ↦ signals_reader c.receive_window.buf_queue (record {
          buf = bytes p.base.content;
          l = p.base.length;
          part = p.flag == mux_new_msg_part;
        })
      ]
    ]

module _ (s : Supply) (t : Measured) (a : AllowAnswer) where
  serve_conn_free :
      (p : MuxPackager) (m m' : Mux) (ptr : ℕ) (c : Conn) (hand : Handoff)
      → hands_over p ≡ false
      → serve_conn s t a p m ptr c ≡ some (m', hand)
      → (hand ≡ nothing) × ((a' : AllowAnswer) → serve_conn s t a' p m ptr c ≡ some (m', hand))
  unfolding hands_over serve_conn
  serve_conn_free p m m' ptr c hand never done =
      elim (Bool-cases (p.flag == mux_new_msg || p.flag == mux_new_msg_part)) [
        | inl content ↦ elim (Option-cases (new_msg s t m ptr p)) [
          | inl stuck ↦ absurd (ground (arith, done, content, stuck))
          | inr (m₁, ran) ↦
              (ground (arith, done, content, ran), λ a'. ground (arith, done, content, ran))
        ]
        | inr other ↦ (ground (arith, done, never, other), λ a'. ground (arith, done, never, other))
      ]

  dispatch_free :
      (p : MuxPackager) (m m' : Mux) (hand : Handoff)
      → hands_over p ≡ false
      → dispatch s t a p m ≡ some (m', hand)
      → (hand ≡ nothing) × ((a' : AllowAnswer) → dispatch s t a' p m ≡ some (m', hand))
  unfolding hands_over dispatch
  dispatch_free p m m' hand never done = elim (Bool-cases (p.flag == mux_new_conn)) [
    | inl opening ↦ elim (Option-cases (conn_push m.waiting (length m.conns))) [
      | inl stuck ↦ absurd (ground (arith, done, opening, stuck))
      | inr (q, ran) ↦
          (ground (arith, done, opening, ran), λ a'. ground (arith, done, opening, ran))
    ]
    | inr not_opening ↦ elim (Bool-cases (p.flag == mux_ping_flag)) [
      | inl ping ↦
          elim (Option-cases
            (send_info s mux_ping_return mux_ping (byte_slice (some (bytes p.base.content))) m)) [
              | inl stuck ↦ absurd (ground (arith, done, not_opening, ping, stuck))
              | inr (m₁, ran) ↦ (
                ground (arith, done, not_opening, ping, ran),
                λ a'. ground (arith, done, not_opening, ping, ran),
              )
            ]
      | inr not_ping ↦ elim (Option-cases (get_conn m.conn_map p.id)) [
        | inl missing ↦ (
          ground (arith, done, never, not_opening, not_ping, missing),
          λ a'. ground (arith, done, never, not_opening, not_ping, missing),
        )
        | inr (ptr, found) ↦ elim (Option-cases (get_elem? m.conns ptr)) [
          | inl lost ↦ absurd (ground (arith, done, never, not_opening, not_ping, found, lost))
          | inr (c, stored) ↦ elim (Bool-cases c.is_close) [
            | inl over ↦ (
              ground (arith, done, never, not_opening, not_ping, found, stored, over),
              λ a'. ground (arith, done, never, not_opening, not_ping, found, stored, over),
            )
            | inr running ↦
                let ran : serve_conn s t a p m ptr c ≡ some (m', hand) =
                  ground (arith, done, never, not_opening, not_ping, found, stored, running) in
                let (nothing_sent, same) = serve_conn_free p m m' ptr c hand never ran in
                (
                  nothing_sent,
                  λ a'.
                      ground (arith, same a', never, not_opening, not_ping, found, stored, running),
                )
          ]
        ]
      ]
    ]
  ]

-- With every other message a round sends nothing on a channel, and does the same whatever `allow` meets.
pub read_round_free :
    (s : Supply) (t : Measured) (a : AllowAnswer) (m m' : Mux) (src rest : List ℕ)
    (u : Unpacked MuxPackager) (hand : Handoff) (goes : Bool)
    → mux_unpack s.pack s.buf s.content src ≡ some u
    → hands_over u.pack ≡ false
    → read_round s t a m src ≡ some (m', rest, hand, goes)
    → (hand ≡ nothing)
      × ((a' : AllowAnswer) → read_round s t a' m src ≡ some (m', rest, hand, goes))
unfolding read_round
read_round_free s t a m m' src rest u hand goes read never done = elim (Bool-cases m.is_close) [
  | inl shut ↦ (ground (arith, done, shut), λ a'. ground (arith, done, shut))
  | inr running ↦ elim (Option-cases u.error) [
    | inr (e, broken) ↦ elim (Option-cases (close_mux s.order m)) [
      | inl stuck ↦ absurd (ground (arith, done, running, read, broken, stuck))
      | inr ((m₁, again), closes) ↦ (
        ground (arith, done, running, read, broken, closes),
        λ a'. ground (arith, done, running, read, broken, closes),
      )
    ]
    | inl fine ↦ elim (Option-cases (dispatch s t a u.pack m)) [
      | inl stuck ↦ absurd (ground (arith, done, running, read, fine, stuck))
      | inr ((m₁, hand₁), ran) ↦
          let (nothing_sent, same) = dispatch_free s t a u.pack m m₁ hand₁ never ran in
          (
            ground (arith, done, running, read, fine, ran, nothing_sent),
            λ a'. ground (arith, done, running, read, fine, ran, same a'),
          )
    ]
  ]
]
