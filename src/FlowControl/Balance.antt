-- ===== src/FlowControl/Balance.antt =====
-- The balance of the bytes, which every step keeps.
use nps_mux.Base.{
  ℕ, ◌+◌, ◌^◌, ◌≤◌, ◌<◌, ◌≡◌, refl, arith, Bool, true, false, ◌&&◌, List, [], ◌∷◌, ◌++◌, length,
  All, ltb, ◌==◌,
}
use nps_mux.Window.{window_pack}
use nps_mux.Window.Word.{Fits31}
use nps_mux.ReceiveQueue.{ListElement}
use nps_mux.ReceiveQueue.Count.{total, new-Counts}
use nps_mux.SendWindow.{SendWindow, new_send_window}
use nps_mux.ReceiveWindow.{new_receive_window}
use nps_mux.ReceiveWindow.Report.{IsReport}
use nps_mux.ReceiveWindow.Reader.Unread.{held, all_acked}
use nps_mux.ReceiveWindow.Reader.Rounds.{Ready, unread}
use nps_mux.FlowControl.{Link, new_link}

-- The bytes of the messages on their way.
abbrev pub in_flight : List (List ℕ × Bool) → ℕ
in_flight [] = 0
in_flight ((p, part) ∷ ms) = length p + in_flight ms

abbrev pub contents : List (List ℕ × Bool) → List ℕ
contents [] = []
contents ((p, part) ∷ ms) = p ++ contents ms

abbrev pub IsContent : List ℕ × Bool → Type 0
IsContent c = (1 ≤ length c.0) × (length c.0 < 2 ^ 16)

-- The sender's window: open, of size `m`, with `s` bytes outstanding. It waits only if there is no room.
pub record Sends (w : SendWindow) (m s : ℕ) (b : Bool) : Type 0 where
  pub word : w.max_size_done ≡ window_pack m s b
  pub size_fits : Fits31 m
  pub count_fits : Fits31 s
  pub open_still : w.close_op ≡ false
  pub channel : w.set_size_open ≡ true
  pub inside : w.off ≤ length w.buf
  pub small : length w.buf < 2 ^ 32
  pub stuck : (b && ltb s m) ≡ false

-- Every outstanding byte is on its way, or waits, or is read and not reported, or is reported on the way
-- back; if nothing waits at the receiver, everything that was read is reported.
pub record Balanced (k : Link) : Type 0 where
  pub m : ℕ
  pub s : ℕ
  pub b : Bool
  pub sends : Sends k.sender m s b
  pub size : ℕ
  pub size_fits : Fits31 size
  pub pending : ℕ
  pub cur : ListElement
  pub xs : List ListElement
  pub ready : Ready k.receiver cur xs size pending
  pub formed : All IsContent k.messages
  pub words : All IsReport k.reports
  pub ledger :
      s ≡ in_flight k.messages + total xs + held cur k.receiver.off + pending + all_acked k.reports
  pub idle : (total xs + held cur k.receiver.off == 0 && ltb 0 pending) ≡ false
  pub history : k.written ≡ k.read ++ (unread k.receiver cur xs ++ contents k.messages)

pub in_flight-append :
    (ms ns : List (List ℕ × Bool)) → in_flight (ms ++ ns) ≡ in_flight ms + in_flight ns
in_flight-append [] ns = omega arith
in_flight-append ((p, part) ∷ ms) ns = omega (arith, in_flight-append ms ns)

pub new-Balanced : Balanced new_link
unfolding new_link new_send_window new_receive_window
new-Balanced = record {
  m = 122550;
  s = 0;
  b = false;
  sends = record {
    word = refl;
    size_fits = omega arith;
    count_fits = omega arith;
    open_still = refl;
    channel = refl;
    inside = omega arith;
    small = omega arith;
    stuck = refl;
  };
  size = 122550;
  size_fits = omega arith;
  pending = 0;
  cur = record { buf = []; l = 0; part = false };
  xs = [];
  ready = record {
    element = refl;
    inside = omega arith;
    sized = refl;
    short = omega arith;
    open_still = refl;
    wait = false;
    word = refl;
    fits = omega arith;
    reader = false;
    counts = new-Counts;
    formed = tt;
  };
  formed = tt;
  words = tt;
  ledger = refl;
  idle = refl;
  history = refl;
}
