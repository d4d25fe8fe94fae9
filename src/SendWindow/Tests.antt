-- ===== src/SendWindow/Tests.antt =====
-- Windows and buffers of a few bytes.
use nps_mux.Base.{
  ℕ, ◌≡◌, ◌≢◌, refl, ap, arith, ◌≤◌, true, false, some, none, List, [], ◌∷◌, length, All, cas_loop,
}
use nps_mux.Window.{window_pack, window_unpack}
use nps_mux.SendWindow.{
  SendWindow, set_size, taken, remaining_size, sent, sent_round, cut, attempt, free_space, set_wait,
  write_to, write_loop, write_full, Turn, woken, segment, Written,
}
use nps_mux.SendWindow.SetSize.{set_size_slides}
use nps_mux.SendWindow.Segments.Loop.{
  joined, reassemble, IsSegment, write_full_lem, write_full_whole,
}
use nps_mux.SendWindow.Segments.Total.{write_full_total}

abbrev window_of : ℕ → SendWindow
window_of word = record {
  max_size_done = word;
  off = 0;
  close_op = false;
  buf = [];
  set_size_open = true;
  timeout = 0;
}

-- 100 bytes are outstanding in a window of 100 and the writer waits.
abbrev stuck : SendWindow
stuck = window_of (window_pack 100 100 true)

set_size_slides_example :
    set_size [] taken stuck (window_pack 100 40 false)
    ≡ some (record stuck { max_size_done = window_pack 100 60 false }, false, true)
set_size_slides_example =
    set_size_slides stuck 100 100 100 40 true false refl refl (omega arith) (omega arith)
      (omega arith) (omega arith) (omega arith) refl refl

-- A window of two bytes, and three to write: the writer waits once.
abbrev tight : SendWindow
tight = window_of (window_pack 2 0 false)

abbrev letters : List ℕ
letters = 97 ∷ 98 ∷ 99 ∷ []

abbrev turns : List Turn
turns =
    record { before = λ w. w; during = λ w. window_pack 2 0 false; closes = false; wake = woken }
    ∷ []

abbrev result : Written
result = record {
  window = record tight { max_size_done = window_pack 2 1 false; off = 3; buf = letters };
  n = 3;
  error = none;
  messages = (4, 97 ∷ 98 ∷ []) ∷ (3, 99 ∷ []) ∷ [];
}

writes_letters : write_full turns tight letters ≡ some result
unfolding write_full write_loop write_to attempt free_space set_wait cut sent sent_round cas_loop
    window_unpack window_pack remaining_size
writes_letters = refl

write_full_lem_example :
    (result.n ≤ length letters) × (joined result.messages ≡ letters) × All IsSegment result.messages
write_full_lem_example = write_full_lem turns tight letters result (omega arith) writes_letters

letters_inhabited : letters ≢ []
letters_inhabited e = absurd (omega (arith, ap length e))

write_full_whole_example : (result.n ≡ length letters) × (reassemble result.messages ≡ some letters)
write_full_whole_example =
    write_full_whole turns tight letters result (omega arith) writes_letters refl letters_inhabited

abbrev loaded : SendWindow
loaded = record tight { buf = letters }

abbrev loaded' : SendWindow
loaded' = record loaded { max_size_done = window_pack 2 2 false; off = 2 }

cuts_letters : write_to [] loaded ≡ some ([], loaded', segment (97 ∷ 98 ∷ []) 2 true)
unfolding write_to attempt free_space cut sent sent_round cas_loop window_unpack window_pack
    remaining_size
cuts_letters = refl

write_full_total_example :
    (r : Written) × (write_full [] (window_of (window_pack 10 4 false)) letters ≡ some r)
    × (r.error ≡ none)
    × (r.window.max_size_done ≡ window_pack 10 7 false)
write_full_total_example =
    write_full_total 10 false (omega arith) (window_of (window_pack 10 4 false)) letters 4 refl refl
      (omega arith) (omega arith)
