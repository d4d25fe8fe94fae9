-- ===== src/Mux/Calls.antt =====
-- conn.go, `Read` and `Write` of a connection of a mux with what they hand to `sendInfo`: the reports of
-- `sendStatus`, and the segments of `WriteFull`.
use nps_mux.Base.{
  ℕ, ◌≡◌, refl, subst, arith, Option, none, some, ◌>>=◌, List, [], ◌∷◌, map, get_elem?, replicate,
  ◌==◌, Option-cases, Bool-cases, inl, inr,
}
use nps_mux.Flag.{mux_msg_send_ok}
use nps_mux.Packager.{Payload, word, byte_slice}
use nps_mux.SendWindow.{Turn, Written, Sent, write_full}
use nps_mux.ReceiveWindow.Safe.{Queued}
use nps_mux.ReceiveWindow.Reader.{Visit, Reading, receive_read}
use nps_mux.ReceiveWindow.Reader.Rounds.{quiet}
use nps_mux.ReceiveWindow.Reader.Safe.{receive_read-Queued}
use nps_mux.Mux.{Conn, Mux, put_conn, Supply, send_info}
use nps_mux.Mux.WellFormed.{WellFormed, Follows, self-Follows, then_Follows}
use nps_mux.Mux.PutConn.{put_conn-Follows}
use nps_mux.Mux.Follows.{send_info-Follows}
use nps_mux.Mux.Io.{IoError, read_conn, write_conn_buf}

-- Some calls of `sendInfo` for one connection, each with what the pools hand out.
unfoldable pub send_each : List Supply → ℕ → List (ℕ × Payload) → Mux → Option Mux
send_each supplies id [] m = some m
send_each [] id (x ∷ xs) m = none
send_each (s ∷ supplies) id ((flag, payload) ∷ xs) m = do
  m' ← send_info s flag id payload m
  send_each supplies id xs m'

abbrev pub report_message : ℕ → ℕ × Payload
report_message report = (mux_msg_send_ok, word report)

abbrev pub segment_message : Sent → ℕ × Payload
segment_message (flag, body) = (flag, byte_slice (some body))

-- `Read`
unfoldable pub mux_read :
    List Supply → List Visit → Mux → ℕ → Option ℕ → Option (Mux × Reading × Option IoError)
unfolding send_each
mux_read supplies visits m ptr room = do
  c ← get_elem? m.conns ptr
  (c', r, e) ← read_conn visits c room
  m' ← send_each supplies c.conn_id (map report_message r.reports) (put_conn m ptr c')
  some (m', r, e)

-- `Write`
unfoldable pub mux_write :
    List Supply → List Turn → Mux → ℕ → List ℕ → Option (Mux × Written × Option IoError)
mux_write supplies turns m ptr buf = do
  c ← get_elem? m.conns ptr
  (c', r, e) ← write_conn_buf turns c buf
  m' ← send_each supplies c.conn_id (map segment_message r.messages) (put_conn m ptr c')
  some (m', r, e)

pub send_each-Follows :
    (supplies : List Supply) (id : ℕ) (xs : List (ℕ × Payload)) (m m' : Mux) (h : WellFormed m)
    → send_each supplies id xs m ≡ some m'
    → Follows m h m'
unfolding send_each
send_each-Follows supplies id [] m m' h done =
    subst (λ k. Follows m h k) (ground (arith, done)) (self-Follows m h)
send_each-Follows [] id (x ∷ xs) m m' h done = absurd (ground (arith, done))
send_each-Follows (s ∷ supplies) id ((flag, payload) ∷ xs) m m' h done =
    elim (Option-cases (send_info s flag id payload m)) [
      | inl stuck ↦ absurd (ground (arith, done, stuck))
      | inr (m₁, sent) ↦
          let first = send_info-Follows s flag id payload m m₁ h sent in
          then_Follows first
            (send_each-Follows supplies id xs m₁ m' first.sound (ground (arith, done, sent)))
    ]

-- What a call on a connection leaves of it.
record Handled (c c' : Conn) : Type 0 where
  pub named : c'.conn_id ≡ c.conn_id
  pub shut : c'.is_close ≡ c.is_close
  pub once : c'.once ≡ c.once
  pub queued : Queued c'.receive_window.buf_queue

read_conn-Handled :
    (k : ℕ) (c c' : Conn) (room : Option ℕ) (r : Reading) (e : Option IoError)
    → Queued c.receive_window.buf_queue
    → read_conn (replicate k quiet) c room ≡ some (c', r, e)
    → Handled c c'
unfolding read_conn
read_conn-Handled k c c' none r e h done =
    let same : c ≡ c' = ground (arith, done) in
    subst (Handled c) same record { named = refl; shut = refl; once = refl; queued = h }
read_conn-Handled k c c' (some room) r e h done =
    elim (Option-cases (receive_read (replicate k quiet) c.receive_window room)) [
      | inr (r', ran) ↦ elim (Bool-cases c.is_close) [
        | inl shut ↦ unmoved (ground (arith, done, shut))
        | inr running ↦ elim (Bool-cases (room == 0)) [
          | inl nothing ↦ unmoved (ground (arith, done, running, nothing))
          | inr some_room ↦
              let same : record c { receive_window = r'.window } ≡ c' =
                ground (arith, done, running, some_room, ran) in
              subst (Handled c) same record {
                named = refl;
                shut = refl;
                once = refl;
                queued = receive_read-Queued k c.receive_window room r' h ran;
              }
        ]
      ]
      | inl stuck ↦ elim (Bool-cases c.is_close) [
        | inl shut ↦ unmoved (ground (arith, done, shut))
        | inr running ↦ unmoved (ground (arith, done, running, stuck))
      ]
    ]
  where
    unmoved : c ≡ c' → Handled c c'
    unmoved same =
        subst (Handled c) same record { named = refl; shut = refl; once = refl; queued = h }

write_conn_buf-Handled :
    (turns : List Turn) (c c' : Conn) (buf : List ℕ) (r : Written) (e : Option IoError)
    → Queued c.receive_window.buf_queue
    → write_conn_buf turns c buf ≡ some (c', r, e)
    → Handled c c'
unfolding write_conn_buf
write_conn_buf-Handled turns c c' buf r e h done =
    let same : record c { send_window = c'.send_window } ≡ c' =
      elim (Option-cases (write_full turns c.send_window buf)) [
        | inl stuck ↦ ground (arith, done, stuck)
        | inr (r', ran) ↦ ground (arith, done, ran)
      ] in
    subst (Handled c) same record { named = refl; shut = refl; once = refl; queued = h }

-- A Read that finds what it pops, if it returns.
pub mux_read-Follows :
    (supplies : List Supply) (k : ℕ) (m m' : Mux) (h : WellFormed m) (ptr : ℕ) (room : Option ℕ)
    (r : Reading) (e : Option IoError)
    → mux_read supplies (replicate k quiet) m ptr room ≡ some (m', r, e)
    → Follows m h m'
unfolding mux_read
mux_read-Follows supplies k m m' h ptr room r e done = elim (Option-cases (get_elem? m.conns ptr)) [
  | inl lost ↦ absurd (ground (arith, done, lost))
  | inr (c, stored) ↦ elim (Option-cases (read_conn (replicate k quiet) c room)) [
    | inl stuck ↦ absurd (ground (arith, done, stored, stuck))
    | inr ((c', r', e'), ran) ↦
        let d = read_conn-Handled k c c' room r' e' (h.healthy ptr c stored) ran in
        let puts = put_conn-Follows m h ptr c c' stored d.named d.shut d.once d.queued in
        let xs = map report_message r'.reports in
        elim (Option-cases (send_each supplies c.conn_id xs (put_conn m ptr c'))) [
          | inl stuck ↦ absurd (ground (arith, done, stored, ran, stuck))
          | inr (m₁, sent) ↦
              let sends =
                send_each-Follows supplies c.conn_id xs (put_conn m ptr c') m₁ puts.sound sent in
              subst (λ t. Follows m h t) (ground (arith, done, stored, ran, sent))
                (then_Follows puts sends)
        ]
  ]
]

-- A Write, if it returns.
pub mux_write-Follows :
    (supplies : List Supply) (turns : List Turn) (m m' : Mux) (h : WellFormed m) (ptr : ℕ)
    (buf : List ℕ) (r : Written) (e : Option IoError)
    → mux_write supplies turns m ptr buf ≡ some (m', r, e)
    → Follows m h m'
unfolding mux_write
mux_write-Follows supplies turns m m' h ptr buf r e done =
    elim (Option-cases (get_elem? m.conns ptr)) [
      | inl lost ↦ absurd (ground (arith, done, lost))
      | inr (c, stored) ↦ elim (Option-cases (write_conn_buf turns c buf)) [
        | inl stuck ↦ absurd (ground (arith, done, stored, stuck))
        | inr ((c', r', e'), ran) ↦
            let d = write_conn_buf-Handled turns c c' buf r' e' (h.healthy ptr c stored) ran in
            let puts = put_conn-Follows m h ptr c c' stored d.named d.shut d.once d.queued in
            let xs = map segment_message r'.messages in
            elim (Option-cases (send_each supplies c.conn_id xs (put_conn m ptr c'))) [
              | inl stuck ↦ absurd (ground (arith, done, stored, ran, stuck))
              | inr (m₁, sent) ↦
                  let sends =
                    send_each-Follows supplies c.conn_id xs (put_conn m ptr c') m₁ puts.sound
                      sent in
                  subst (λ t. Follows m h t) (ground (arith, done, stored, ran, sent))
                    (then_Follows puts sends)
            ]
      ]
    ]
