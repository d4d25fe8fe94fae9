-- ===== src/Packager/Unpack.antt =====
-- `muxPackager.UnPack` on what `Pack` wrote.
use nps_mux.Base.{
  ℕ, ◌+◌, ◌≤◌, ◌≡◌, refl, arith, none, some, List, [], ◌∷◌, ◌++◌, length, length-append,
  if◌then◌else◌,
}
use mathlib.Core.List.{append_assoc}
use nps_mux.Flag.{mux_msg_send_ok, maximum_segment_size, pool_size_window}
use nps_mux.Stream.{
  bytes, put_at, take-put_at_end, length-put_at, le_bytes, length-le_bytes, le_value,
  le_value-le_bytes, range, range-put_at, read_full-append,
}
use nps_mux.Packager.Pack.{length-frame_content}
use nps_mux.Packager.{BasePackager, MuxPackager, Unpacked, mux_unpack, base_unpack, carries_bytes}
use nps_mux.Packager.Frame.{Message, content, send_ok, signal, frame, IsMessage, message_of}

-- The array after the five bytes of a header were read into it.
abbrev read_header : List ℕ → ℕ → ℕ → List ℕ
read_header arr f i = put_at arr 0 (f ∷ le_bytes 4 i)

header_flag : (arr : List ℕ) (f i : ℕ) → 13 ≤ length arr → range (read_header arr f i) 0 1 ≡ f ∷ []
unfolding put_at
header_flag [] f i h = absurd (omega arith)
header_flag (c ∷ arr) f i h = refl

header_id :
    (arr : List ℕ) (f i : ℕ) → 13 ≤ length arr → range (read_header arr f i) 1 5 ≡ le_bytes 4 i
unfolding put_at
header_id [] f i h = absurd (omega arith)
header_id (c ∷ arr) f i h =
    range-put_at arr 0 4 (le_bytes 4 i) (omega (arith, length-le_bytes 4 i)) (omega arith)

flag_value : (f : ℕ) → le_value (f ∷ []) ≡ f
unfolding le_value
flag_value f = omega arith

-- What `UnPack` has to deliver for a frame followed by `rest`.
pub record Delivers (m : Message) (rest : List ℕ) (u : Unpacked MuxPackager) : Type 0 where
  pub left : u.rest ≡ rest
  pub quiet : u.error ≡ none
  pub counted : u.count ≡ length (frame m)
  pub message : message_of u.pack ≡ m
  pub sized :
      (if carries_bytes u.pack.flag then u.pack.base.length else length (bytes u.pack.base.content))
      ≡ length (bytes u.pack.base.content)

signal_unpack :
    (f i : ℕ) (p : MuxPackager) (x y rest : List ℕ)
    → IsMessage (signal f i)
    → length x ≡ pool_size_window
    → (u : Unpacked MuxPackager) × (mux_unpack p x y (frame (signal f i) ++ rest) ≡ some u)
      × Delivers (signal f i) rest u
unfolding mux_unpack
signal_unpack f i p x y rest h hx = (
  record {
    pack = record p {
      flag = f;
      id = i;
      base = record p.base { buf = record { arr = read_header x f i; len = 13 } };
    };
    rest = rest;
    count = 5;
    error = none;
  },
  ground (
    arith,
    read_full-append 5 (f ∷ le_bytes 4 i) rest,
    length-le_bytes 4 i,
    header_flag x f i,
    header_id x f i,
    flag_value f,
    le_value-le_bytes 4 i,
    length-put_at x 0 (f ∷ le_bytes 4 i),
  ),
  ground (arith, length-le_bytes 4 i),
)

send_ok_unpack :
    (i v : ℕ) (p : MuxPackager) (x y rest : List ℕ)
    → IsMessage (send_ok i v)
    → length x ≡ pool_size_window
    → (u : Unpacked MuxPackager) × (mux_unpack p x y (frame (send_ok i v) ++ rest) ≡ some u)
      × Delivers (send_ok i v) rest u
unfolding mux_unpack
send_ok_unpack i v p x y rest h hx = (
  record {
    pack = record p {
      flag = mux_msg_send_ok;
      id = i;
      window = v;
      base = record p.base {
        buf = record { arr = put_at (read_header x mux_msg_send_ok i) 5 (le_bytes 8 v); len = 13 };
      };
    };
    rest = rest;
    count = 13;
    error = none;
  },
  ground (
    arith,
    append_assoc (le_bytes 4 i) (le_bytes 8 v) rest,
    read_full-append 5 (mux_msg_send_ok ∷ le_bytes 4 i) (le_bytes 8 v ++ rest),
    length-le_bytes 4 i,
    length-le_bytes 8 v,
    read_full-append 8 (le_bytes 8 v) rest,
    header_flag x mux_msg_send_ok i,
    header_id x mux_msg_send_ok i,
    flag_value mux_msg_send_ok,
    le_value-le_bytes 4 i,
    le_value-le_bytes 8 v,
    range-put_at (read_header x mux_msg_send_ok i) 5 13 (le_bytes 8 v),
    length-put_at (read_header x mux_msg_send_ok i) 5 (le_bytes 8 v),
    length-put_at x 0 (mux_msg_send_ok ∷ le_bytes 4 i),
  ),
  ground (
    arith,
    length-append (le_bytes 4 i) (le_bytes 8 v),
    length-le_bytes 4 i,
    length-le_bytes 8 v,
  ),
)

-- The content's length field and the content are read behind the header.
base_unpack_lem :
    (b : List ℕ) (p : BasePackager) (rest : List ℕ)
    → length b ≤ maximum_segment_size
    → length p.content.arr ≡ pool_size_window
    → 7 ≤ length p.buf.arr
    → base_unpack p (le_bytes 2 (length b) ++ (b ++ rest))
      ≡ some (record {
        pack = record {
          buf = record p.buf { arr = put_at p.buf.arr 5 (le_bytes 2 (length b)) };
          length = length b;
          content = record { arr = put_at p.content.arr 0 b; len = length b };
        };
        rest = rest;
        count = 2 + length b;
        error = none;
      })
unfolding base_unpack
base_unpack_lem b p rest hb hc hbuf = ground (
  arith,
  read_full-append 2 (le_bytes 2 (length b)) (b ++ rest),
  read_full-append (length b) b rest,
  length-le_bytes 2 (length b),
  le_value-le_bytes 2 (length b),
  range-put_at p.buf.arr 5 7 (le_bytes 2 (length b)),
  length-put_at p.buf.arr 5 (le_bytes 2 (length b)),
)

content_unpack :
    (f i : ℕ) (b : List ℕ) (p : MuxPackager) (x y rest : List ℕ)
    → IsMessage (content f i b)
    → length x ≡ pool_size_window
    → length y ≡ pool_size_window
    → (u : Unpacked MuxPackager) × (mux_unpack p x y (frame (content f i b) ++ rest) ≡ some u)
      × Delivers (content f i b) rest u
unfolding mux_unpack
content_unpack f i b p x y rest h hx hy = (
  record {
    pack = record p {
      flag = f;
      id = i;
      base = record {
        buf = record { arr = put_at (read_header x f i) 5 (le_bytes 2 (length b)); len = 13 };
        length = length b;
        content = record { arr = put_at y 0 b; len = length b };
      };
    };
    rest = rest;
    count = 7 + length b;
    error = none;
  },
  ground (
    arith,
    append_assoc (le_bytes 4 i) (le_bytes 2 (length b) ++ b) rest,
    append_assoc (le_bytes 2 (length b)) b rest,
    read_full-append 5 (f ∷ le_bytes 4 i) (le_bytes 2 (length b) ++ (b ++ rest)),
    length-le_bytes 4 i,
    header_flag x f i,
    header_id x f i,
    flag_value f,
    le_value-le_bytes 4 i,
    base_unpack_lem b
        (record {
          buf = record { arr = read_header x f i; len = 13 };
          length = p.base.length;
          content = record { arr = y; len = pool_size_window };
        })
        rest,
    length-put_at x 0 (f ∷ le_bytes 4 i),
  ),
  ground (arith, length-frame_content f i b, length-put_at y 0 b, take-put_at_end (length b) y 0 b),
)

-- Every message that can be sent is read back from its frame.
pub unpack-frame :
    (m : Message) (p : MuxPackager) (x y rest : List ℕ)
    → IsMessage m
    → length x ≡ pool_size_window
    → length y ≡ pool_size_window
    → (u : Unpacked MuxPackager) × (mux_unpack p x y (frame m ++ rest) ≡ some u) × Delivers m rest u
unpack-frame (content f i b) p x y rest h hx hy = content_unpack f i b p x y rest h hx hy
unpack-frame (send_ok i v) p x y rest h hx hy = send_ok_unpack i v p x y rest h hx
unpack-frame (signal f i) p x y rest h hx hy = signal_unpack f i p x y rest h hx
