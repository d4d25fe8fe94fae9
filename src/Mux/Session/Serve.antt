-- ===== src/Mux/Session/Serve.antt =====
-- What the reader goroutine does with a message for a connection: it ends, and leaves a well-formed mux.
use nps_mux.Base.{
  ℕ, zero, suc, ◌<◌, ◌≡◌, refl, subst, arith, Bool, true, false, ◌||◌, Option, some, List, [], ◌∷◌,
  length, get_elem?, get_elem?-none, mem, ◌==◌, Option-cases, Bool-cases, inl, inr,
}
use nps_mux.Flag.{mux_new_msg, mux_new_msg_part, mux_msg_send_ok, mux_conn_close}
use nps_mux.Stream.{bytes}
use nps_mux.Packager.{MuxPackager, word}
use nps_mux.SendWindow.{SendWindow, AllowAnswer, set_size}
use nps_mux.ReceiveQueue.{stop_receive_queue}
use nps_mux.ReceiveWindow.{ReceiveWindow, Measured, ReceiveError}
use nps_mux.ReceiveWindow.Safe.{Queued, receive_write-Queued}
use nps_mux.ReceiveWindow.Reader.{receive_stop}
use nps_mux.Mux.{Conn, Mux, put_conn, Supply}
use nps_mux.Mux.Send.{Ample}
use nps_mux.Mux.WellFormed.{WellFormed, Follows, self-Follows, then_Follows}
use nps_mux.Mux.PutConn.{put_conn-Follows}
use nps_mux.Mux.Follows.{send_info_total, close_conn-Follows}
use nps_mux.Mux.Session.{Handoff, nothing, write_conn, new_msg, serve_conn}

pub set_size_total :
    (a : AllowAnswer) (w : SendWindow) (report : ℕ)
    → (w' : SendWindow) × (closed : Bool) × (signal : Bool) × (set_size [] a w report
        ≡ some (w', closed, signal))
unfolding set_size
set_size_total a w report = elim (Option-cases (set_size [] a w report)) [
  | inl stuck ↦ absurd (ground (arith, stuck))
  | inr ((w', closed, signal), ran) ↦ (w', closed, signal, ran)
]

pub stop-Queued : (w : ReceiveWindow) → Queued w.buf_queue → Queued (receive_stop w).buf_queue
unfolding receive_stop stop_receive_queue
stop-Queued w (xs, wait, h) = (xs, wait, ground (arith, h.queue, h.word))

pub stored_lt : (cs : List Conn) (ptr : ℕ) (c : Conn) → get_elem? cs ptr ≡ some c → ptr < length cs
stored_lt cs ptr c e = ground (arith, e, get_elem?-none cs ptr)

pub stored_of :
    (cs : List Conn) (ptr : ℕ) → ptr < length cs → (c : Conn) × (get_elem? cs ptr ≡ some c)
stored_of [] ptr lt = absurd (omega arith)
stored_of (c ∷ cs) zero lt = (c, refl)
stored_of (c ∷ cs) (suc ptr) lt = stored_of cs ptr (omega arith)

-- A connection that does not wait is still stored and still does not wait.
pub still_taken :
    {m m' : Mux} {h : WellFormed m}
    → (f : Follows m h m') → (ptr : ℕ) (c : Conn) → get_elem? m.conns ptr ≡ some c
    → mem ptr h.line ≡ false
    → (c' : Conn) × (get_elem? m'.conns ptr ≡ some c') × (mem ptr f.sound.line ≡ false)
still_taken {m} {m'} {h} f ptr c e taken =
    let inside = stored_lt m.conns ptr c e in
    let (c', e') = stored_of m'.conns ptr (omega (arith, inside, f.grows)) in
    (
      c',
      e',
      elim (Bool-cases (mem ptr f.sound.line)) [
        | inl waits ↦ absurd (ground (arith, f.line_of ptr inside waits, taken))
        | inr free ↦ free
      ],
    )

module _ (s : Supply) (ample : Ample s) (t : Measured) (m : Mux) (h : WellFormed m) (ptr : ℕ)
    (c : Conn) (e : get_elem? m.conns ptr ≡ some c) where
  write_conn-Follows :
      (content : List ℕ) (l : ℕ) (part : Bool) (id : ℕ)
      → (m' : Mux) × (err : Option ReceiveError) × (write_conn s t m ptr content l part id
          ≡ some (m', err))
        × Follows m h m'
  unfolding write_conn
  write_conn-Follows content l part id =
      let (w, err, ack, ran, queued) =
        receive_write-Queued t c.receive_window content l part (h.healthy ptr c e) in
      let m₁ = put_conn m ptr (record c { receive_window = w }) in
      let puts =
        put_conn-Follows m h ptr c (record c { receive_window = w }) e refl refl refl queued in
      elim (Option-cases ack) [
        | inl quiet ↦ (m₁, err, ground (arith, e, ran, quiet), puts)
        | inr (report, told) ↦
            let (m₂, sent, sends) =
              send_info_total s mux_msg_send_ok id (word report) m₁ puts.sound ample refl in
            (m₂, err, ground (arith, e, ran, told, sent), then_Follows puts sends)
      ]

  module _ (taken : mem ptr h.line ≡ false) where
    new_msg-Follows :
        (p : MuxPackager) → (m' : Mux) × (new_msg s t m ptr p ≡ some m') × Follows m h m'
    unfolding new_msg
    new_msg-Follows p =
        let (m₁, err, ran, writes) =
          write_conn-Follows (bytes p.base.content) p.base.length (p.flag == mux_new_msg_part)
            p.id in
        elim (Option-cases err) [
          | inl fine ↦ (m₁, ground (arith, ran, fine), writes)
          | inr (x, failed) ↦
              let (c₁, e₁, free) = still_taken writes ptr c e taken in
              let (m₂, closed, closes, _) =
                close_conn-Follows s m₁ writes.sound ptr c₁ ample e₁ free in
              (m₂, ground (arith, ran, failed, closed), then_Follows writes closes)
        ]

    signal-Follows :
        (a : AllowAnswer) (p : MuxPackager)
        → (p.flag == mux_new_msg || p.flag == mux_new_msg_part) ≡ false
        → (m' : Mux) × (hand : Handoff) × (serve_conn s t a p m ptr c ≡ some (m', hand))
          × Follows m h m'
    unfolding serve_conn
    signal-Follows a p other = elim (Option-cases (serve_conn s t a p m ptr c)) [
      | inl stuck ↦
          let (w, closed, signal, ran) = set_size_total a c.send_window p.window in
          absurd (ground (arith, stuck, other, ran))
      | inr ((m', hand), done) ↦ elim (Bool-cases (p.flag == mux_msg_send_ok)) [
        | inl size ↦
            let (w, closed, signal, ran) = set_size_total a c.send_window p.window in
            let c' = record c { send_window = w } in
            (
              m',
              hand,
              done,
              subst (λ k. Follows m h k) (ground (arith, done, other, size, ran))
                  (put_conn-Follows m h ptr c c' e refl refl refl (h.healthy ptr c e)),
            )
        | inr not_size ↦ elim (Bool-cases (p.flag == mux_conn_close)) [
          | inl closes ↦
              let c' = record c {
                closing_flag = true;
                receive_window = receive_stop c.receive_window;
              } in
              (
                m',
                hand,
                done,
                subst (λ k. Follows m h k) (ground (arith, done, closes))
                    (put_conn-Follows m h ptr c c' e refl refl refl
                      (stop-Queued c.receive_window (h.healthy ptr c e))),
              )
          | inr not_close ↦ (
            m',
            hand,
            done,
            subst (λ k. Follows m h k) (ground (arith, done, other, not_size, not_close))
                (self-Follows m h),
          )
        ]
      ]
    ]

    pub serve_conn-Follows :
        (a : AllowAnswer) (p : MuxPackager)
        → (m' : Mux) × (hand : Handoff) × (serve_conn s t a p m ptr c ≡ some (m', hand))
          × Follows m h m'
    unfolding serve_conn
    serve_conn-Follows a p =
        elim (Bool-cases (p.flag == mux_new_msg || p.flag == mux_new_msg_part)) [
          | inl content ↦
              let (m', ran, follows) = new_msg-Follows p in
              (m', nothing, ground (arith, content, ran), follows)
          | inr other ↦ signal-Follows a p other
        ]
