-- ===== src/Mux/Over.antt =====
-- A closed mux stays closed.
use nps_mux.Base.{
  ℕ, ◌≡◌, refl, sym, ap, ◌∙◌, subst, arith, true, false, Option, none, some, List, [], ◌∷◌, map,
  length, length-set, set, get_elem?, replicate, Option-cases, Bool-cases, inl, inr,
}
use nps_mux.Packager.{Payload, untyped_nil}
use nps_mux.Flag.{mux_conn_close}
use nps_mux.SendWindow.{Turn, Written}
use nps_mux.ReceiveWindow.Reader.{Visit, Reading}
use nps_mux.ReceiveWindow.Reader.Rounds.{quiet}
use nps_mux.ConnMap.{lookup, delete_conn}
use nps_mux.ConnMap.Laws.{lookup-delete_conn}
use nps_mux.Mux.{
  Conn, Mux, put_conn, Supply, send_info, close_mux, close_conn, close_once, open_conn,
}
use nps_mux.Mux.CloseConn.{close_once_lem}
use nps_mux.Mux.WellFormed.{WellFormed}
use nps_mux.Mux.Io.{IoError, read_conn, write_conn_buf}
use nps_mux.Mux.Deadlines.{Deadline, mux_deadline, with_deadline}
use nps_mux.Mux.Calls.{send_each, mux_read, mux_write, report_message, segment_message}
use nps_mux.Mux.Session.{read_round, write_session_round, offer_round, ping_round}
use nps_mux.Mux.Session.Safe.{granted}
use nps_mux.Mux.Steps.{
  State, grants, crashes, Step, Reach, start, next, reads, writes, pings, pongs, offers, accepts,
  opens, closes, conn_reads, conn_writes, deadlines, shuts,
}
use nps_mux.Mux.Reached.{Reach-Sound}

-- What a step of a closed mux leaves: it stays closed, and nothing is opened in it.
pub record Over (m m' : Mux) : Type 0 where
  pub shut : m'.is_close ≡ true
  pub gone : (i : ℕ) → lookup m.conn_map i ≡ none → lookup m'.conn_map i ≡ none
  pub stored : length m'.conns ≡ length m.conns

self-Over : {m m' : Mux} → m.is_close ≡ true → m ≡ m' → Over m m'
self-Over {m} {m'} shut same =
    subst (Over m) same record { shut = shut; gone = λ i none_there. none_there; stored = refl }

send_each-closed :
    (supplies : List Supply) (id : ℕ) (xs : List (ℕ × Payload)) (m m' : Mux)
    → m.is_close ≡ true
    → send_each supplies id xs m ≡ some m'
    → m ≡ m'
unfolding send_each send_info
send_each-closed supplies id [] m m' shut done = ground (arith, done)
send_each-closed [] id (x ∷ xs) m m' shut done = absurd (ground (arith, done))
send_each-closed (s ∷ supplies) id ((flag, payload) ∷ xs) m m' shut done =
    send_each-closed supplies id xs m m' shut (ground (arith, done, shut))

put-Over : (m : Mux) (ptr : ℕ) (c : Conn) → m.is_close ≡ true → Over m (put_conn m ptr c)
put-Over m ptr c shut = record {
  shut = shut;
  gone = λ i none_there. none_there;
  stored = length-set m.conns ptr c;
}

close_conn-Over :
    (s : Supply) (m m' : Mux) (ptr : ℕ)
    → WellFormed m
    → m.is_close ≡ true
    → close_conn s m ptr ≡ some m'
    → Over m m'
unfolding close_conn close_once
close_conn-Over s m m' ptr h shut done = elim (Option-cases (get_elem? m.conns ptr)) [
  | inl lost ↦ absurd (ground (arith, done, lost))
  | inr (c, e) ↦ elim (Bool-cases c.once) [
    | inl again ↦ self-Over shut (ground (arith, done, e, again))
    | inr first ↦
        let notice : Mux → ℕ → Option Mux = λ n id. send_info s mux_conn_close id untyped_nil n in
        let (c', eq, d) =
          close_once_lem notice m ptr c e (h.healthy ptr c e) first m.write_queue
            (ground (arith, shut)) in
        let m₁ : Mux = record m {
          conns = set m.conns ptr c';
          conn_map = delete_conn m.conn_map c.conn_id;
        } in
        let over : Over m m₁ = record {
          shut = shut;
          gone =
              λ i none_there. ground (arith, none_there, lookup-delete_conn m.conn_map c.conn_id i);
          stored = length-set m.conns ptr c';
        } in
        subst (Over m) (ground (arith, eq, done)) over
  ]
]

mux_read-Over :
    (supplies : List Supply) (visits : List Visit) (m m' : Mux) (ptr : ℕ) (room : Option ℕ)
    (r : Reading) (e : Option IoError)
    → m.is_close ≡ true
    → mux_read supplies visits m ptr room ≡ some (m', r, e)
    → Over m m'
unfolding mux_read
mux_read-Over supplies visits m m' ptr room r e shut done =
    elim (Option-cases (get_elem? m.conns ptr)) [
      | inl lost ↦ absurd (ground (arith, done, lost))
      | inr (c, stored) ↦ elim (Option-cases (read_conn visits c room)) [
        | inl stuck ↦ absurd (ground (arith, done, stored, stuck))
        | inr ((c', r', e'), ran) ↦
            let xs = map report_message r'.reports in
            elim (Option-cases (send_each supplies c.conn_id xs (put_conn m ptr c'))) [
              | inl stuck ↦ absurd (ground (arith, done, stored, ran, stuck))
              | inr (m₁, sent) ↦
                  let idle =
                    send_each-closed supplies c.conn_id xs (put_conn m ptr c') m₁ shut sent in
                  let same : put_conn m ptr c' ≡ m' =
                    idle ∙ ground (arith, done, stored, ran, sent) in
                  subst (Over m) same (put-Over m ptr c' shut)
            ]
      ]
    ]

mux_write-Over :
    (supplies : List Supply) (turns : List Turn) (m m' : Mux) (ptr : ℕ) (buf : List ℕ) (r : Written)
    (e : Option IoError)
    → m.is_close ≡ true
    → mux_write supplies turns m ptr buf ≡ some (m', r, e)
    → Over m m'
unfolding mux_write
mux_write-Over supplies turns m m' ptr buf r e shut done =
    elim (Option-cases (get_elem? m.conns ptr)) [
      | inl lost ↦ absurd (ground (arith, done, lost))
      | inr (c, stored) ↦ elim (Option-cases (write_conn_buf turns c buf)) [
        | inl stuck ↦ absurd (ground (arith, done, stored, stuck))
        | inr ((c', r', e'), ran) ↦
            let xs = map segment_message r'.messages in
            elim (Option-cases (send_each supplies c.conn_id xs (put_conn m ptr c'))) [
              | inl stuck ↦ absurd (ground (arith, done, stored, ran, stuck))
              | inr (m₁, sent) ↦
                  let idle =
                    send_each-closed supplies c.conn_id xs (put_conn m ptr c') m₁ shut sent in
                  let same : put_conn m ptr c' ≡ m' =
                    idle ∙ ground (arith, done, stored, ran, sent) in
                  subst (Over m) same (put-Over m ptr c' shut)
            ]
      ]
    ]

mux_deadline-Over :
    (d : Deadline) (t : ℕ) (m m' : Mux) (ptr : ℕ)
    → m.is_close ≡ true
    → mux_deadline d t m ptr ≡ some m'
    → Over m m'
unfolding mux_deadline
mux_deadline-Over d t m m' ptr shut done = elim (Option-cases (get_elem? m.conns ptr)) [
  | inl lost ↦ absurd (ground (arith, done, lost))
  | inr (c, stored) ↦
      subst (Over m) (ground (arith, done, stored)) (put-Over m ptr (with_deadline d t c) shut)
]

step-Over :
    (x y : State)
    → WellFormed x.mux
    → x.mux.is_close ≡ true
    → crashes x.offered x.mux ≡ false
    → Step x y
    → Over x.mux y.mux × (y.held ≡ x.held)
unfolding read_round write_session_round offer_round ping_round open_conn close_mux
step-Over x y h shut lives (reads s t a src rest hand goes ample done) =
    (self-Over shut (ground (arith, done, shut)), refl)
step-Over x y h shut lives (writes s w w' goes ample done) =
    (self-Over shut (ground (arith, done, shut)), refl)
step-Over x y h shut lives (pings s now goes ample done) =
    (self-Over shut (ground (arith, done, shut)), refl)
step-Over x y h shut lives pongs =
    (record { shut = shut; gone = λ i none_there. none_there; stored = refl }, refl)
step-Over x y h shut lives (offers got done) = (self-Over shut (ground (arith, done, shut)), refl)
step-Over x y h shut lives (accepts s ptr done) = absurd (ground (arith, lives, shut))
step-Over x y h shut lives (opens {held = held} s confirmed e ptr ample done) =
    let nobody : none ≡ granted e ptr = ground (arith, done, shut) in
    (self-Over shut (ground (arith, done, shut)), ap (λ g. grants g held) (sym nobody))
step-Over x y h shut lives (closes {m} {m'} s ptr ample has done) =
    (close_conn-Over s m m' ptr h shut done, refl)
step-Over x y h shut lives (conn_reads {m} {m'} supplies k ptr room r e has done) =
    (mux_read-Over supplies (replicate k quiet) m m' ptr room r e shut done, refl)
step-Over x y h shut lives (conn_writes {m} {m'} supplies turns ptr buf r e has done) =
    (mux_write-Over supplies turns m m' ptr buf r e shut done, refl)
step-Over x y h shut lives (deadlines {m} {m'} d t ptr has done) =
    (mux_deadline-Over d t m m' ptr shut done, refl)
step-Over x y h shut lives (shuts order again done) =
    (self-Over shut (ground (arith, done, shut)), refl)

Reach-lives : (x : State) → Reach x → crashes x.offered x.mux ≡ false
Reach-lives x (start kcp threshold) = refl
Reach-lives x (next r step lives) = lives

-- A mux that is closed in a state that is reached stays closed in every step: an id that is not in
-- its map does not come into it, no connection is stored, and the program gets no new one.
pub closed_stays :
    (x y : State)
    → Reach x
    → x.mux.is_close ≡ true
    → Step x y
    → Over x.mux y.mux × (y.held ≡ x.held)
closed_stays x y r shut step = step-Over x y (Reach-Sound x r).formed shut (Reach-lives x r) step
