-- ===== src/Packager/RoundTrip.antt =====
-- What one side packs into the connection the other side unpacks from it: one message, and a stream.
use nps_mux.Base.{
  ℕ, zero, suc, ◌-◌, ◌≤◌, ◌≡◌, refl, arith, Option, none, some, ◌>>=◌, List, [], ◌∷◌, ◌++◌, length,
  length-append, take_all, All, leb,
}
use mathlib.Core.List.{append_assoc, append-nil}
use nps_mux.Flag.{pool_size_window}
use nps_mux.Stream.{Writer}
use nps_mux.Packager.{MuxPackager, PackError, write_error, mux_unpack, mux_set, mux_pack}
use nps_mux.Packager.Frame.{
  Message, frame, IsMessage, message_of, flag_of, id_of, payload_of, mux_set_lem,
}
use nps_mux.Packager.Pack.{after, pack-filled}
use nps_mux.Packager.Unpack.{unpack-frame}

module _ (p : MuxPackager) (x y : List ℕ) where
  -- `Set` on a packager from the pool, then `Pack`, as `sendInfo` and `writeSession` call them.
  pub send : Message → Writer → Option (Writer × Option PackError)
  send m w = do
    (q, e) ← mux_set p (flag_of m) (id_of m) (payload_of m) x y
    elim e [ some bad ↦ some (w, some bad) | none ↦ (do (r, w', e') ← mux_pack q w; some (w', e')) ]

  pub send_all : List Message → Writer → Option (Writer × Option PackError)
  send_all [] w = some (w, none)
  send_all (m ∷ ms) w = do
    (w', e) ← send m w
    let rest = send_all ms w'
    elim e [ some bad ↦ some (w', some bad) | none ↦ rest ]

  -- The other side's loop for `n` messages: those read, and the bytes left.
  pub receive : ℕ → List ℕ → Option (List Message × List ℕ)
  receive zero src = some ([], src)
  receive (suc n) src = do
    u ← mux_unpack p x y src
    let more = receive n u.rest
    elim u.error [
      | some bad ↦ none
      | none ↦ (do (ms, rest) ← more; some (message_of u.pack ∷ ms, rest))
    ]

abbrev pub frames : List Message → List ℕ
frames [] = []
frames (m ∷ ms) = frame m ++ frames ms

module _ (p : MuxPackager) (x y : List ℕ) (hx : length x ≡ pool_size_window)
    (hy : length y ≡ pool_size_window) where
  -- Setting and packing a message in range sends its frame as far as the connection takes it, and
  -- reports an error exactly when it does not take all of it.
  pub send-frame :
      (m : Message) (w : Writer)
      → IsMessage m
      → send p x y m w ≡ some (after w (frame m), write_error (leb (length (frame m)) w.room))
  unfolding send
  send-frame m w h =
      let (q, e) = pack-filled m p x y w h hx hy in ground (arith, mux_set_lem m p x y h hx hy, e)

  -- Setting and packing a list of messages in range, on a connection with room for all of them,
  -- sends exactly their frames one behind another.
  pub send_all-frames :
      (ms : List Message) (w : Writer)
      → All IsMessage ms
      → length (frames ms) ≤ w.room
      → send_all p x y ms w ≡ some (after w (frames ms), none)
  unfolding send_all
  send_all-frames [] w h fits = ground (arith, append-nil w.sent, take_all {A = ℕ} w.room [])
  send_all-frames (m ∷ ms) w h fits = ground (
    arith,
    send-frame m w h.0,
    take_all w.room (frame m),
    take_all (w.room - length (frame m)) (frames ms),
    take_all w.room (frame m ++ frames ms),
    send_all-frames ms (after w (frame m)) h.1,
    append_assoc w.sent (frame m) (frames ms),
    length-append (frame m) (frames ms),
  )

  -- Any list of messages in range, written as frames one behind another, is read back by as many
  -- calls of UnPack, and what follows the frames is left unread.
  pub receive-frames :
      (ms : List Message) (rest : List ℕ)
      → All IsMessage ms
      → receive p x y (length ms) (frames ms ++ rest) ≡ some (ms, rest)
  unfolding receive
  receive-frames [] rest h = refl
  receive-frames (m ∷ ms) rest h =
      let (u, e, d) = unpack-frame m p x y (frames ms ++ rest) h.0 hx hy in
      ground (
        arith,
        e,
        d.left,
        d.quiet,
        d.message,
        append_assoc (frame m) (frames ms) rest,
        receive-frames ms rest h.1,
      )
