-- ===== src/Mux/Steps.antt =====
-- The mux as a whole: its goroutines, the program that uses it and the other side take steps in any order.
use nps_mux.Base.{ℕ, ◌≡◌, Bool, true, false, Option, none, some, List, [], ◌∷◌, mem, replicate}
use nps_mux.Stream.{Writer}
use nps_mux.SendWindow.{AllowAnswer, Turn, Written}
use nps_mux.ReceiveWindow.{Measured}
use nps_mux.ReceiveWindow.Reader.{Reading}
use nps_mux.ReceiveWindow.Reader.Rounds.{quiet}
use nps_mux.Mux.{Mux, new_mux, Supply, close_mux, close_conn, OpenError, open_conn}
use nps_mux.Mux.Send.{Ample}
use nps_mux.Mux.Io.{IoError}
use nps_mux.Mux.Deadlines.{Deadline, mux_deadline}
use nps_mux.Mux.Calls.{mux_read, mux_write}
use nps_mux.Mux.Session.{
  Handoff, read_round, write_session_round, offer_round, confirm_round, ping_round, pong_round,
}
use nps_mux.Mux.Session.Safe.{granted}

-- A mux, the connection that is offered to Accept and not received yet, and the connections that the
-- program got from NewConn and Accept.
pub record State : Type 0 where
  pub mux : Mux
  pub offered : Option ℕ
  pub held : List ℕ

abbrev pub grants : Option ℕ → List ℕ → List ℕ
grants none held = held
grants (some ptr) held = ptr ∷ held

abbrev pub state : Mux → Option ℕ → List ℕ → State
state m o held = record { mux = m; offered = o; held = held }

-- Go panics where `newConnCh` is closed while the goroutine waits in its send; Close of the mux closes it.
abbrev pub crashes : Option ℕ → Mux → Bool
crashes none m = false
crashes (some ptr) m = m.is_close

-- One round of a goroutine, with whatever the other side sends, or one call of the program on the mux or
-- on a connection that it holds. A step is one that returns.
pub data Step : State → State → Type 0 where
  reads :
      {m m' : Mux} {o : Option ℕ} {held : List ℕ} (s : Supply) (t : Measured) (a : AllowAnswer)
      (src rest : List ℕ) (hand : Handoff) (goes : Bool)
      → Ample s
      → read_round s t a m src ≡ some (m', rest, hand, goes)
      → Step (state m o held) (state m' o held)
  writes :
      {m m' : Mux} {o : Option ℕ} {held : List ℕ} (s : Supply) (w w' : Writer) (goes : Bool)
      → Ample s
      → write_session_round s m w ≡ some (m', w', goes)
      → Step (state m o held) (state m' o held)
  pings :
      {m m' : Mux} {o : Option ℕ} {held : List ℕ} (s : Supply) (now : List ℕ) (goes : Bool)
      → Ample s
      → ping_round s now m ≡ some (m', goes)
      → Step (state m o held) (state m' o held)
  pongs :
      {m : Mux} {o : Option ℕ} {held : List ℕ} → Step (state m o held) (state (pong_round m) o held)
  offers :
      {m m' : Mux} {held : List ℕ} (got : Option ℕ)
      → offer_round m ≡ some (m', got)
      → Step (state m none held) (state m' got held)
  accepts :
      {m m' : Mux} {held : List ℕ} (s : Supply) (ptr : ℕ)
      → confirm_round s m ptr ≡ some m'
      → Step (state m (some ptr) held) (state m' none (ptr ∷ held))
  opens :
      {m m' : Mux} {o : Option ℕ} {held : List ℕ} (s : Supply) (confirmed : Bool)
      (e : Option OpenError) (ptr : ℕ)
      → Ample s
      → open_conn s confirmed m ≡ some (m', e, ptr)
      → Step (state m o held) (state m' o (grants (granted e ptr) held))
  closes :
      {m m' : Mux} {o : Option ℕ} {held : List ℕ} (s : Supply) (ptr : ℕ)
      → Ample s
      → mem ptr held ≡ true
      → close_conn s m ptr ≡ some m'
      → Step (state m o held) (state m' o held)
  conn_reads :
      {m m' : Mux} {o : Option ℕ} {held : List ℕ} (supplies : List Supply) (k ptr : ℕ)
      (room : Option ℕ) (r : Reading) (e : Option IoError)
      → mem ptr held ≡ true
      → mux_read supplies (replicate k quiet) m ptr room ≡ some (m', r, e)
      → Step (state m o held) (state m' o held)
  conn_writes :
      {m m' : Mux} {o : Option ℕ} {held : List ℕ} (supplies : List Supply) (turns : List Turn)
      (ptr : ℕ) (buf : List ℕ) (r : Written) (e : Option IoError)
      → mem ptr held ≡ true
      → mux_write supplies turns m ptr buf ≡ some (m', r, e)
      → Step (state m o held) (state m' o held)
  deadlines :
      {m m' : Mux} {o : Option ℕ} {held : List ℕ} (d : Deadline) (t ptr : ℕ)
      → mem ptr held ≡ true
      → mux_deadline d t m ptr ≡ some m'
      → Step (state m o held) (state m' o held)
  shuts :
      {m m' : Mux} {o : Option ℕ} {held : List ℕ} (order : List ℕ) (again : Bool)
      → close_mux order m ≡ some (m', again)
      → Step (state m o held) (state m' o held)

-- The states that a new mux gets to, as long as nothing panics.
pub data Reach : State → Type 0 where
  start : (kcp : Bool) (threshold : ℕ) → Reach (state (new_mux kcp threshold) none [])
  next : {x y : State} → Reach x → Step x y → crashes y.offered y.mux ≡ false → Reach y
