-- ===== src/Packager/Frame.antt =====
-- The bytes of each kind of message on the wire, and that `Set` and `Pack` write exactly these.
use nps_mux.Base.{
  ℕ, ◌+◌, ◌^◌, ◌≤◌, ◌<◌, ◌≡◌, refl, ap, ◌∙◌, arith, true, false, none, some, List, [], ◌∷◌, ◌++◌,
  length, take, ◌==◌, if◌then◌else◌,
}
use nps_mux.Flag.{mux_msg_send_ok, maximum_segment_size, pool_size_window}
use nps_mux.Stream.{bytes, put_at, length-put_at, take-put_at_end, le_bytes, length-le_bytes}
use nps_mux.Packager.{
  MuxPackager, Payload, byte_slice, untyped_nil, word, carries_bytes, mux_set, base_set,
}

-- A message of the protocol: with a content, with a window word, or with nothing but its id.
pub data Message : Type 0 where
  content : ℕ → ℕ → List ℕ → Message
  send_ok : ℕ → ℕ → Message
  signal : ℕ → ℕ → Message

-- The layout of a frame, written down independently of the code.
abbrev pub frame : Message → List ℕ
frame (content f i b) = f ∷ (le_bytes 4 i ++ (le_bytes 2 (length b) ++ b))
frame (send_ok i w) = mux_msg_send_ok ∷ (le_bytes 4 i ++ le_bytes 8 w)
frame (signal f i) = f ∷ le_bytes 4 i

-- What the program can send: fields in range, the flag fits the kind, 1 to 4085 bytes of content.
abbrev pub IsMessage : Message → Type 0
IsMessage (content f i b) =
    (carries_bytes f ≡ true) × (i < 2 ^ 32) × (1 ≤ length b) × (length b ≤ maximum_segment_size)
IsMessage (send_ok i w) = (i < 2 ^ 32) × (w < 2 ^ 64)
IsMessage (signal f i) =
    (carries_bytes f ≡ false) × ((f == mux_msg_send_ok) ≡ false) × (f < 256) × (i < 2 ^ 32)

abbrev pub flag_of : Message → ℕ
flag_of (content f i b) = f
flag_of (send_ok i w) = mux_msg_send_ok
flag_of (signal f i) = f

abbrev pub id_of : Message → ℕ
id_of (content f i b) = i
id_of (send_ok i w) = i
id_of (signal f i) = i

abbrev pub payload_of : Message → Payload
payload_of (content f i b) = byte_slice (some b)
payload_of (send_ok i w) = word w
payload_of (signal f i) = untyped_nil

-- The message that a packager holds.
abbrev pub message_of : MuxPackager → Message
message_of p =
    if carries_bytes p.flag
    then content p.flag p.id (bytes p.base.content)
    else if p.flag == mux_msg_send_ok
    then send_ok p.id p.window
    else signal p.flag p.id

-- The array of the header after the flag and the id are in place.
abbrev pub headed : List ℕ → ℕ → ℕ → List ℕ
headed arr f i = put_at (put_at arr 0 (f ∷ [])) 1 (le_bytes 4 i)

pub header_bytes :
    (arr : List ℕ) (f i : ℕ) → 13 ≤ length arr → take 5 (headed arr f i) ≡ f ∷ le_bytes 4 i
header_bytes arr f i h =
    take-put_at_end 5 (put_at arr 0 (f ∷ [])) 1 (le_bytes 4 i) (omega (arith, length-le_bytes 4 i))
      (omega (arith, length-put_at arr 0 (f ∷ [])))
    ∙ ap (λ t. t ++ le_bytes 4 i) (take-put_at_end 1 arr 0 (f ∷ []) refl (omega arith))

pub length-headed : (arr : List ℕ) (f i : ℕ) → length (headed arr f i) ≡ length arr
length-headed arr f i =
    length-put_at (put_at arr 0 (f ∷ [])) 1 (le_bytes 4 i) ∙ length-put_at arr 0 (f ∷ [])

-- A field of `k` bytes behind the header.
pub field_bytes :
    (n k v : ℕ) (arr : List ℕ) (f i : ℕ)
    → 5 + k ≡ n
    → n ≤ 13
    → 13 ≤ length arr
    → take n (put_at (headed arr f i) 5 (le_bytes k v)) ≡ f ∷ (le_bytes 4 i ++ le_bytes k v)
field_bytes n k v arr f i e small h =
    take-put_at_end n (headed arr f i) 5 (le_bytes k v) (omega (arith, length-le_bytes k v))
      (omega (arith, length-headed arr f i))
    ∙ ap (λ t. t ++ le_bytes k v) (header_bytes arr f i h)

-- The packager that `Set` leaves.
abbrev pub filled : Message → MuxPackager → List ℕ → List ℕ → MuxPackager
filled (content f i b) p pool_buf pool_content = record p {
  flag = f;
  id = i;
  base = record {
    buf = record { arr = pool_buf; len = pool_size_window };
    length = length b;
    content = record { arr = put_at pool_content 0 b; len = length b };
  };
}
filled (send_ok i w) p pool_buf pool_content = record p {
  flag = mux_msg_send_ok;
  id = i;
  window = w;
  base = record p.base { buf = record { arr = pool_buf; len = pool_size_window } };
}
filled (signal f i) p pool_buf pool_content = record p {
  flag = f;
  id = i;
  base = record p.base { buf = record { arr = pool_buf; len = pool_size_window } };
}

pub mux_set_lem :
    (m : Message) (p : MuxPackager) (pool_buf pool_content : List ℕ)
    → IsMessage m
    → length pool_buf ≡ pool_size_window
    → length pool_content ≡ pool_size_window
    → mux_set p (flag_of m) (id_of m) (payload_of m) pool_buf pool_content
      ≡ some (filled m p pool_buf pool_content, none)
unfolding mux_set base_set
mux_set_lem (content f i b) p x y h hx hy = ground arith
mux_set_lem (send_ok i w) p x y h hx hy = ground arith
mux_set_lem (signal f i) p x y h hx hy = ground arith
