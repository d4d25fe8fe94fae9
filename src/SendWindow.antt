-- ===== src/SendWindow.antt =====
-- conn.go, sendWindow: the sender's side of flow control. `setSizeCh` and `closeOpCh` are modelled
-- by what a `select` on them answers, which is an argument.
pub mod SetSize
pub mod Segments
mod Tests
use nps_mux.Base.{
  ℕ, zero, suc, ◌+◌, ◌-◌, ◌*◌, ◌%◌, ◌^◌, bit_and, Bool, true, false, not, ◌||◌, ◌&&◌, Option, none,
  some, List, [], ◌∷◌, ◌++◌, map, length, take, drop, ltb, ◌==◌, if◌then◌else◌, Round, leave, again,
  cas_loop, ◌>>=◌,
}
use nps_mux.Flag.{maximum_segment_size, mux_new_msg, mux_new_msg_part}
use nps_mux.Window.{window_unpack, window_pack, mask31}

pub record SendWindow : Type 0 where
  pub max_size_done : ℕ
  pub off : ℕ
  pub close_op : Bool
  pub buf : List ℕ
  pub set_size_open : Bool
  -- in nanoseconds after the zero Time
  pub timeout : ℕ

-- `new(sendWindow)` and `New`
unfoldable pub new_send_window : SendWindow
new_send_window = record {
  max_size_done = window_pack (maximum_segment_size * 30) 0 false;
  off = 0;
  close_op = false;
  buf = [];
  set_size_open = true;
  timeout = 0;
}

abbrev pub set_send_buf : SendWindow → List ℕ → SendWindow
set_send_buf w buf = record w { buf = buf; off = 0 }

-- `int64(maxSize&mask31) - int64(send&mask31)`, or 0 where that is not positive
unfoldable pub remaining_size : ℕ → ℕ → ℕ
remaining_size max_size send =
    let limit = bit_and max_size mask31 in
    let used = bit_and send mask31 in if ltb used limit then limit - used else 0

-- What the `select` of `allow` finds: a writer that takes the signal, or a token to close.
pub data AllowAnswer : Type 0 where
  taken closing : AllowAnswer

-- `allow`: a send on the closed channel, and a second close, panic; `SetSize` recovers from that and
-- answers that the window is closed.
abbrev allow : AllowAnswer → SendWindow → SendWindow × Bool
allow taken w = (w, not w.set_size_open)
allow closing w = (record w { set_size_open = false }, not w.set_size_open)

-- One round of the loop of `SetSize`; the state has the local `newWait`, which the code sets and never
-- resets. It leaves with `wait` if the word was replaced.
unfoldable pub set_size_round :
    ℕ
    → ℕ
    → (SendWindow × Bool → SendWindow × Bool)
    → SendWindow × Bool
    → Round (SendWindow × Bool) (Option Bool)
set_size_round current_max_size read other (w, new_wait) =
    let ptrs = w.max_size_done in
    let (max_size, send, wait) = window_unpack ptrs in
    let left = send - read in
    let keep = new_wait || (remaining_size current_max_size left == 0 && wait) in
    let (w', _) = other (w, new_wait) in
    if ltb send read
    then leave (w, new_wait) none
    else if read == 0 && current_max_size == max_size
    then leave (w, new_wait) none
    else if w'.max_size_done == ptrs
    then leave (record w' { max_size_done = window_pack current_max_size left keep }, keep)
        (some wait)
    else again (w', keep)

abbrev pub on_window : (SendWindow → SendWindow) → SendWindow × Bool → SendWindow × Bool
on_window other (w, b) = (other w, b)

-- `SetSize`: the window, `closed`, and whether `allow` was called.
unfoldable pub set_size :
    List (SendWindow → SendWindow)
    → AllowAnswer
    → SendWindow
    → ℕ
    → Option (SendWindow × Bool × Bool)
unfolding cas_loop set_size_round
set_size others answer w current_max_size_done =
    if w.close_op then some (record w { set_size_open = false }, true, false) else (do
      let (current_max_size, read, _) = window_unpack current_max_size_done
      ((w', new_wait), wait) ←
          cas_loop (set_size_round current_max_size read) (map on_window others) (w, false)
      elim wait [
        | none ↦ some (w', false, false)
        | some waited ↦
            if waited && not new_wait
            then (do let (w'', panicked) = allow answer w'; some (w'', panicked, true))
            else some (w', false, false)
      ])

-- One round of the loop of `sent`; it goes round again for as long as the sum overflows.
unfoldable pub sent_round : ℕ → (SendWindow → SendWindow) → SendWindow → Round SendWindow (Unit {0})
sent_round sent_size other w =
    let ptrs = w.max_size_done in
    let (max_size, send, wait) = window_unpack ptrs in
    let w' = other w in
    let sum = (send + sent_size) % 2 ^ 32 in
    if ltb (bit_and sum mask31) send
    then again w'
    else if w'.max_size_done == ptrs
    then leave (record w' { max_size_done = window_pack max_size sum wait }) tt
    else again w'

unfoldable pub sent : List (SendWindow → SendWindow) → SendWindow → ℕ → Option SendWindow
unfolding cas_loop sent_round
sent others w sent_size = do (w', _) ← cas_loop (sent_round sent_size) others w; some w'

pub data WriteError : Type 0 where
  window_closed write_timeout : WriteError

-- How a wait for the receive window ends: the receive on `setSizeCh` succeeds, that channel is closed,
-- a token to close arrives, or the timer fires.
pub data Wake : Type 0 where
  woken channel_closed close_token timed_out : Wake

-- What happens around one wait: what the others do to the word before the wait flag is set, and during
-- the wait, whether they close the window, and how the wait ends.
pub record Turn : Type 0 where
  pub before : ℕ → ℕ
  pub during : ℕ → ℕ
  pub closes : Bool
  pub wake : Wake

-- `waitReceiveWindow`
abbrev pub wait_error : Wake → Option WriteError
wait_error woken = none
wait_error channel_closed = some window_closed
wait_error close_token = some window_closed
wait_error timed_out = some write_timeout

-- What `WriteTo` returns: a segment, its `sendSize` and `part`; `io.EOF`; another error.
pub data Wrote : Type 0 where
  segment : List ℕ → ℕ → Bool → Wrote
  drained : Wrote
  failed : WriteError → Wrote

-- `sendSize`, where `remain` bytes of the window are free and the buffer has `left` more.
abbrev pub segment_size : ℕ → List ℕ → ℕ
segment_size remain left =
    let whole =
      if ltb maximum_segment_size (length left)
      then maximum_segment_size
      else length left % 2 ^ 32 in
    if ltb remain whole then remain else whole

-- The end of `WriteTo`.
unfoldable pub cut : SendWindow → ℕ → Option (SendWindow × Wrote)
unfolding sent
cut w remain =
    let left = drop w.off w.buf in
    let send_size = segment_size remain left in
    let part = ltb send_size (length left % 2 ^ 32) in
    (do
      w' ← sent [] (record w { off = (w.off + send_size) % 2 ^ 32 }) send_size
      some (w', segment (take send_size left) send_size part))

unfoldable pub free_space : SendWindow → ℕ
free_space w =
    let (max_size, send, _) = window_unpack w.max_size_done in remaining_size max_size send

-- The word with its wait flag set.
pub set_wait : ℕ → ℕ
set_wait ptrs = let (max_size, send, _) = window_unpack ptrs in window_pack max_size send true

-- The loop of `WriteTo` at `start`. Each attempt that finds no space takes one turn; `none`: all turns
-- are used up and the writer still waits. It also leaves the turns that are still to come.
unfoldable pub attempt : List Turn → SendWindow → Option (List Turn × SendWindow × Wrote)
attempt [] w = elim (free_space w) [
  | zero ↦ none
  | suc n ↦ (do (w', r) ← cut w (suc n); some ([], w', r))
]
attempt (t ∷ ts) w =
    let ptrs = w.max_size_done in
    let moved = t.before ptrs in
    let w₁ = record w { max_size_done = moved } in
    let w₂ = record w {
      max_size_done = t.during (set_wait ptrs);
      close_op = w.close_op || t.closes;
    } in
    let retry = attempt ts w₁ in
    let resume = attempt ts w₂ in
    elim (free_space w) [
      | zero ↦
          if moved == ptrs
          then elim (wait_error t.wake) [ some e ↦ some (ts, w₂, failed e) | none ↦ resume ]
          else retry
      | suc n ↦ (do (w', r) ← cut w (suc n); some (t ∷ ts, w', r))
    ]

unfoldable pub write_to : List Turn → SendWindow → Option (List Turn × SendWindow × Wrote)
unfolding attempt free_space set_wait
write_to turns w =
    if w.close_op
    then some (turns, w, failed window_closed)
    else if w.off == length w.buf % 2 ^ 32
    then some (turns, w, drained)
    else attempt turns w

-- A message handed to `Mux.sendInfo`: the flag and the content.
abbrev pub Sent : Type 0
Sent = ℕ × List ℕ

-- The loop of `WriteFull`, and what it returns: `n`, the error and the messages sent.
pub record Written : Type 0 where
  pub window : SendWindow
  pub n : ℕ
  pub error : Option WriteError
  pub messages : List Sent

pub write_loop : ℕ → List Turn → SendWindow → ℕ → List Sent → Option Written
write_loop zero turns w n out = none
write_loop (suc fuel) turns w n out = do
  (turns', w', r) ← write_to turns w
  elim r [
    | drained ↦ some (record { window = w'; n = n; error = none; messages = out })
    | failed e ↦ some (record { window = w'; n = n; error = some e; messages = out })
    | segment p l part ↦
        write_loop fuel turns' w' (n + l)
          (out ++ ((if part then mux_new_msg_part else mux_new_msg, p) ∷ []))
  ]

-- `WriteFull`: every round but the last takes at least one byte of the buffer.
unfoldable pub write_full : List Turn → SendWindow → List ℕ → Option Written
unfolding write_loop write_to
write_full turns w buf = write_loop (suc (length buf)) turns (set_send_buf w buf) 0 []

-- `SetTimeOut`
unfoldable pub set_send_timeout : ℕ → SendWindow → SendWindow
set_send_timeout t w = record w { timeout = t }
