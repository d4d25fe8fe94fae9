-- ===== src/Mux/Session/Wire/Tests.antt =====
-- Two bytes and one byte, from one mux to another.
use nps_mux.Base.{
  ℕ, ◌-◌, ◌≡◌, ◌≢◌, refl, arith, true, false, none, some, List, [], ◌∷◌, ◌++◌, length, All,
}
use nps_mux.Stream.{Writer}
use nps_mux.Packager.RoundTrip.{frames}
use nps_mux.PriorityQueue.Refine.{new-Shows}
use nps_mux.Window.{window_pack}
use nps_mux.ReceiveQueue.Count.{new-Counts}
use nps_mux.SendWindow.{taken}
use nps_mux.ReceiveWindow.{Measured, new_receive_window}
use nps_mux.ConnMap.{get_conn}
use nps_mux.Mux.{new_conn, Mux, Supply}
use nps_mux.Mux.Tests.{one, supply, supply-Ample}
use nps_mux.Mux.Session.Sending.{Segment, IsSend, contents, messages, send_segments, write_rounds}
use nps_mux.SendWindow.{Written, new_send_window}
use nps_mux.ReceiveQueue.{ListElement}
use nps_mux.ReceiveWindow.Reader.Unread.{bytes_of}
use nps_mux.Mux.Calls.{mux_write}
use nps_mux.Mux.Session.Arrival.{write_arrives}
use nps_mux.Mux.Session.Wire.{Listens, elements, read_rounds, wire_delivers}

abbrev slow : Measured
slow = record { product = 0; latency_gain = 0; low_fill = λ n rem size. n; limit = none }

abbrev couple : List (Supply × Segment)
couple = (supply, (true, 7 ∷ 8 ∷ [])) ∷ (supply, (false, 9 ∷ [])) ∷ []

couple_sends : All IsSend couple
couple_sends =
    ((supply-Ample, (omega arith, omega arith)), ((supply-Ample, (omega arith, omega arith)), tt))

one-Listens : Listens one 1 0 []
unfolding get_conn new_receive_window
one-Listens = record {
  running = refl;
  found = refl;
  conn = new_conn 1;
  stored = refl;
  is_open = refl;
  open_still = refl;
  size = 122550;
  read = 0;
  full = false;
  word = refl;
  size_fits = omega arith;
  read_fits = omega arith;
  wait = false;
  counts = new-Counts;
  view = contents [] 0 false;
  shows = new-Shows;
}

abbrev line : Writer
line = record { sent = []; room = 100 }

space : length (frames (messages 1 couple)) ≡ 17
unfolding nps_mux.Stream.le_bytes
space = refl

wire_delivers_example :
    (here₁ : Mux) × (send_segments 1 couple one ≡ some here₁)
    × (here₂ : Mux) × (write_rounds supply 2 here₁ line
        ≡ some (
          here₂,
          record {
            sent = [] ++ frames (messages 1 couple);
            room = 100 - length (frames (messages 1 couple));
          },
        ))
    × (there' : Mux) × (read_rounds supply slow taken 2 one (frames (messages 1 couple) ++ (5 ∷ []))
        ≡ some (there', 5 ∷ []))
    × Listens there' 1 0 ([] ++ elements couple)
wire_delivers_example =
    wire_delivers 1 0 couple one one supply supply slow taken line [] 0 false (omega arith)
      couple_sends refl new-Shows supply-Ample (omega (arith, space)) one-Listens (omega arith)
      (5 ∷ [])

fresh_window : (new_conn 1).send_window.max_size_done ≡ window_pack 122550 0 false
unfolding new_send_window
fresh_window = refl

window_open : (new_conn 1).send_window.close_op ≡ false
unfolding new_send_window
window_open = refl

some_bytes : ◌≢◌ {A = List ℕ} (7 ∷ 8 ∷ 9 ∷ []) []
some_bytes e = absurd (ground (arith, e))

write_arrives_example :
    (here₁ : Mux) × (r : Written) × (mux_write
        (supply ∷ supply ∷ supply ∷ [])
        []
        one
        0
        (7 ∷ 8 ∷ 9 ∷ [])
      ≡ some (here₁, r, none))
    × (r.error ≡ none)
    × (r.n ≡ 3)
    × (k : ℕ) × (here₂ : Mux) × (wire : List ℕ) × (write_rounds supply k here₁ line
        ≡ some (here₂, record { sent = [] ++ wire; room = 100 - length wire }))
    × (there' : Mux) × (read_rounds supply slow taken k one (wire ++ (5 ∷ []))
        ≡ some (there', 5 ∷ []))
    × (es : List ListElement) × Listens there' 1 0 ([] ++ es)
    × (bytes_of es ≡ 7 ∷ 8 ∷ 9 ∷ [])
write_arrives_example =
    write_arrives one one 0 1 0 (new_conn 1) (7 ∷ 8 ∷ 9 ∷ []) 122550 0 0 false false
      (supply ∷ supply ∷ supply ∷ []) supply supply slow taken line [] refl refl refl refl
      fresh_window (omega arith) window_open some_bytes (omega arith) refl new-Shows
      (supply-Ample, (supply-Ample, (supply-Ample, tt))) (omega arith) supply-Ample (omega arith)
      (omega arith) one-Listens (omega arith) (5 ∷ [])
