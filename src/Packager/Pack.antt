-- ===== src/Packager/Pack.antt =====
-- `muxPackager.Pack`: what reaches the connection, whole or cut short by an error.
use nps_mux.Base.{
  ℕ, ◌+◌, ◌-◌, ◌≡◌, arith, true, false, some, List, [], ◌∷◌, ◌++◌, length, length-append, take,
  take_all, take-append, leb,
}
use mathlib.Core.List.{append_assoc, append-nil}
use nps_mux.Flag.{mux_msg_send_ok, pool_size_window}
use nps_mux.Stream.{
  put_at, take-put_at_end, length-put_at, le_bytes, length-le_bytes, Writer, write,
}
use nps_mux.Packager.{MuxPackager, write_error, mux_pack, base_pack}
use nps_mux.Packager.Frame.{
  Message, content, send_ok, signal, frame, IsMessage, filled, headed, header_bytes, field_bytes,
  length-headed,
}

-- What a connection has after `p` is written to it, in one call or in several.
abbrev pub after : Writer → List ℕ → Writer
after w p = record { sent = w.sent ++ take w.room p; room = w.room - length p }

write_lem : (w : Writer) (p : List ℕ) → write w p ≡ (after w p, leb (length p) w.room)
unfolding write
write_lem w p = ground (arith, take_all w.room p)

pub length-frame_content : (f i : ℕ) (b : List ℕ) → length (frame (content f i b)) ≡ 7 + length b
length-frame_content f i b = omega (
  arith,
  length-append (le_bytes 4 i) (le_bytes 2 (length b) ++ b),
  length-append (le_bytes 2 (length b)) b,
  length-le_bytes 4 i,
  length-le_bytes 2 (length b),
)

signal_pack :
    (f i : ℕ) (p : MuxPackager) (x y : List ℕ) (w : Writer)
    → IsMessage (signal f i)
    → length x ≡ pool_size_window
    → (q : MuxPackager) × (mux_pack (filled (signal f i) p x y) w
        ≡ some (
          q,
          after w (frame (signal f i)),
          write_error (leb (length (frame (signal f i))) w.room),
        ))
unfolding mux_pack
signal_pack f i p x y w h hx = (
  record (filled (signal f i) p x y) {
    base = record p.base { buf = record { arr = headed x f i; len = 13 } };
  },
  ground (
    arith,
    header_bytes x f i,
    write_lem w (f ∷ le_bytes 4 i),
    length-put_at x 0 (f ∷ []),
    length-headed x f i,
  ),
)

send_ok_pack :
    (i v : ℕ) (p : MuxPackager) (x y : List ℕ) (w : Writer)
    → length x ≡ pool_size_window
    → (q : MuxPackager) × (mux_pack (filled (send_ok i v) p x y) w
        ≡ some (
          q,
          after w (frame (send_ok i v)),
          write_error (leb (length (frame (send_ok i v))) w.room),
        ))
unfolding mux_pack
send_ok_pack i v p x y w hx = (
  record (filled (send_ok i v) p x y) {
    base = record p.base {
      buf = record { arr = put_at (headed x mux_msg_send_ok i) 5 (le_bytes 8 v); len = 13 };
    };
  },
  ground (
    arith,
    field_bytes 13 8 v x mux_msg_send_ok i,
    write_lem w (frame (send_ok i v)),
    length-put_at x 0 (mux_msg_send_ok ∷ []),
    length-headed x mux_msg_send_ok i,
    length-put_at (headed x mux_msg_send_ok i) 5 (le_bytes 8 v),
  ),
)

-- Two writes in a row, the second made only if the first went through, are one write of both.
write_twice :
    (w : Writer) (p r : List ℕ)
    → leb (length p) w.room ≡ true
    → after (after w p) r ≡ after w (p ++ r)
write_twice w p r h = ground (
  arith,
  take_all w.room p,
  take-append w.room p r,
  append_assoc w.sent p (take (w.room - length p) r),
  length-append p r,
)

write_cut :
    (w : Writer) (p r : List ℕ) → leb (length p) w.room ≡ false → after w p ≡ after w (p ++ r)
write_cut w p r h =
    ground (arith, take-append w.room p r, append-nil (take w.room p), length-append p r)

content_pack :
    (f i : ℕ) (b : List ℕ) (p : MuxPackager) (x y : List ℕ) (w : Writer)
    → IsMessage (content f i b)
    → length x ≡ pool_size_window
    → length y ≡ pool_size_window
    → (q : MuxPackager) × (mux_pack (filled (content f i b) p x y) w
        ≡ some (
          q,
          after w (frame (content f i b)),
          write_error (leb (length (frame (content f i b))) w.room),
        ))
unfolding mux_pack base_pack
content_pack f i b p x y w h hx hy = (
  record (filled (content f i b) p x y) {
    base = record (filled (content f i b) p x y).base {
      buf = record { arr = put_at (headed x f i) 5 (le_bytes 2 (length b)); len = 13 };
    };
  },
  ground (
    arith,
    field_bytes 7 2 (length b) x f i,
    write_lem w (f ∷ (le_bytes 4 i ++ le_bytes 2 (length b))),
    write_lem (after w (f ∷ (le_bytes 4 i ++ le_bytes 2 (length b)))) b,
    write_twice w (f ∷ (le_bytes 4 i ++ le_bytes 2 (length b))) b,
    write_cut w (f ∷ (le_bytes 4 i ++ le_bytes 2 (length b))) b,
    append_assoc (le_bytes 4 i) (le_bytes 2 (length b)) b,
    length-le_bytes 4 i,
    length-le_bytes 2 (length b),
    length-append (le_bytes 4 i) (le_bytes 2 (length b)),
    length-frame_content f i b,
    length-put_at x 0 (f ∷ []),
    length-headed x f i,
    length-put_at (headed x f i) 5 (le_bytes 2 (length b)),
    length-put_at y 0 b,
    take-put_at_end (length b) y 0 b,
  ),
)

-- `Pack` after `Set` sends the frame as far as the connection takes it.
pub pack-filled :
    (m : Message) (p : MuxPackager) (x y : List ℕ) (w : Writer)
    → IsMessage m
    → length x ≡ pool_size_window
    → length y ≡ pool_size_window
    → (q : MuxPackager) × (mux_pack (filled m p x y) w
        ≡ some (q, after w (frame m), write_error (leb (length (frame m)) w.room)))
pack-filled (content f i b) p x y w h hx hy = content_pack f i b p x y w h hx hy
pack-filled (send_ok i v) p x y w h hx hy = send_ok_pack i v p x y w hx
pack-filled (signal f i) p x y w h hx hy = signal_pack f i p x y w h hx
