-- ===== src/Packager.antt =====
-- netpackager.go: one message of the protocol, packed into a connection and unpacked from it.
-- An int32 id is its bit pattern. The buffers that the pool hands out are arguments.
pub mod Frame
pub mod Pack
pub mod Unpack
pub mod RoundTrip
pub mod Total
mod Tests
use nps_mux.Base.{
  ℕ, ◌+◌, ◌%◌, ◌^◌, Bool, true, false, ◌||◌, Option, none, some, ◌>>=◌, List, [], ◌∷◌, length, ltb,
  ◌==◌, if◌then◌else◌, take,
}
use nps_mux.Flag.{
  mux_ping_flag, mux_ping_return, mux_new_msg, mux_new_msg_part, mux_msg_send_ok,
  maximum_segment_size, pool_size_window,
}
use nps_mux.Stream.{
  Slice, nil_slice, bytes, reslice, poke, peek, put_at, range, le_bytes, le_value, Writer, write,
  ReadError, read_full,
}

pub record BasePackager : Type 0 where
  pub buf : Slice
  pub length : ℕ
  pub content : Slice

pub record MuxPackager : Type 0 where
  pub flag : ℕ
  pub id : ℕ
  pub window : ℕ
  pub base : BasePackager

pub data PackError : Type 0 where
  zero_length too_large nil_content over_capacity write_failed : PackError
  read_failed : ReadError → PackError

-- The values that the program passes as `content interface{}`: a nil interface, a byte slice (which
-- may be nil), a uint64.
pub data Payload : Type 0 where
  untyped_nil : Payload
  byte_slice : Option (List ℕ) → Payload
  word : ℕ → Payload

-- `windowBuff.Get()`
abbrev pub pool_get : List ℕ → Option Slice
pool_get arr = reslice (record { arr = arr; len = 0 }) pool_size_window

abbrev pub base_reset : BasePackager → BasePackager
base_reset p = record p { length = 0; content = record p.content { len = 0 } }

abbrev pub set_length : BasePackager → BasePackager
set_length p = record p { length = p.content.len % 2 ^ 16 }

-- `basePackager.Set`; `none` is a panic.
unfoldable pub base_set : BasePackager → Option (List ℕ) → Option (BasePackager × Option PackError)
base_set p none = some (set_length (base_reset p), some nil_content)
base_set p (some body) =
    let q = base_reset p in
    let n = length body in
    if ltb maximum_segment_size n then some (q, some too_large) else (do
      c ← reslice q.content n
      some (
        set_length (record q { content = record c { arr = put_at c.arr 0 body } }),
        if n == 0 then some zero_length else none,
      ))

abbrev pub carries_bytes : ℕ → Bool
carries_bytes f =
    f == mux_ping_flag || (f == mux_ping_return || (f == mux_new_msg || f == mux_new_msg_part))

-- `muxPackager.Set`, given the arrays behind the two buffers from the pool.
unfoldable pub mux_set :
    MuxPackager → ℕ → ℕ → Payload → List ℕ → List ℕ → Option (MuxPackager × Option PackError)
mux_set p flag id payload pool_buf pool_content = do
  buf ← pool_get pool_buf
  let q = record p { flag = flag; id = id; base = record p.base { buf = buf } }
  if carries_bytes flag
      then (do
        content ← pool_get pool_content
        (b, e) ← elim payload [
          | byte_slice body ↦ base_set (record q.base { content = content }) body
          | _ ↦ none
        ]
        some (record q { base = b }, e))
      else if flag == mux_msg_send_ok
      then elim payload [ word w ↦ some (record q { window = w }, none) | _ ↦ none ]
      else some (q, none)

abbrev pub write_error : Bool → Option PackError
write_error true = none
write_error false = some write_failed

-- `basePackager.Pack`: the header, then the content if the header went out.
unfoldable pub base_pack : BasePackager → Writer → Option (BasePackager × Writer × Option PackError)
base_pack p w = do
  buf ← poke p.buf 5 7 (le_bytes 2 p.length)
  let q = record p { buf = buf }
  header ← peek buf 0 7
  let (w', sent) = write w header
  if sent
      then (do
        c ← reslice q.content q.length
        let (w'', done) = write w' (bytes c)
        some (q, w'', write_error done))
      else some (q, w', some write_failed)

-- `muxPackager.Pack`
unfoldable pub mux_pack : MuxPackager → Writer → Option (MuxPackager × Writer × Option PackError)
mux_pack p w = do
  buf ← reslice p.base.buf 13
  buf' ← poke buf 0 1 (p.flag ∷ [])
  buf'' ← poke buf' 1 5 (le_bytes 4 p.id)
  let q = record p { base = record p.base { buf = buf'' } }
  if carries_bytes p.flag
      then (do (b, w', e) ← base_pack q.base w; some (record q { base = b }, w', e))
      else if p.flag == mux_msg_send_ok
      then (do
        full ← poke buf'' 5 13 (le_bytes 8 p.window)
        header ← peek full 0 13
        let (w', done) = write w header
        some (record q { base = record q.base { buf = full } }, w', write_error done))
      else (do
        header ← peek buf'' 0 5
        let (w', done) = write w header
        some (q, w', write_error done))

-- What a read leaves: the packager, the bytes not yet read, the count `n` and the error.
pub record Unpacked (P : Type 0) : Type 0 where
  pub pack : P
  pub rest : List ℕ
  pub count : ℕ
  pub error : Option PackError

abbrev pub read_error : Option ReadError → Option PackError
read_error none = none
read_error (some e) = some (read_failed e)

-- `basePackager.UnPack`
unfoldable pub base_unpack : BasePackager → List ℕ → Option (Unpacked BasePackager)
base_unpack p src = do
  let q = base_reset p
  let (got, rest, e) = read_full src 2
  buf ← poke q.buf 5 7 got
  let r = record q { buf = buf }
  elim e [
    | some x ↦ some (record { pack = r; rest = rest; count = 0; error = some (read_failed x) })
    | none ↦ (do
      field ← peek buf 5 7
      let len = le_value field
      let s = record r { length = len }
      if ltb (length r.content.arr) len
          then some (record { pack = s; rest = rest; count = 2; error = some over_capacity })
          else if ltb maximum_segment_size len
          then some (record { pack = s; rest = rest; count = 2; error = some too_large })
          else (do
            let (body, rest', e') = read_full rest len
            let c : Slice = record { arr = put_at s.content.arr 0 body; len = len }
            some (record {
              pack = record s { content = c };
              rest = rest';
              count = (2 + length body) % 2 ^ 16;
              error = read_error e';
            })))
  ]

-- `muxPackager.UnPack`
unfoldable pub mux_unpack : MuxPackager → List ℕ → List ℕ → List ℕ → Option (Unpacked MuxPackager)
mux_unpack p pool_buf pool_content src = do
  fresh ← pool_get pool_buf
  short ← reslice fresh 13
  let (got, rest, e) = read_full src 5
  buf ← poke short 0 5 got
  let q = record p { base = record p.base { buf = buf } }
  elim e [
    | some x ↦ some (record { pack = q; rest = rest; count = 0; error = some (read_failed x) })
    | none ↦ (do
      first ← peek buf 0 1
      field ← peek buf 1 5
      let r = record q { flag = le_value first; id = le_value field }
      if carries_bytes r.flag
          then (do
            content ← pool_get pool_content
            u ← base_unpack (record r.base { content = content }) rest
            some (record {
              pack = record r { base = u.pack };
              rest = u.rest;
              count = (5 + u.count) % 2 ^ 16;
              error = u.error;
            }))
          else if r.flag == mux_msg_send_ok
          then (do
            let (got', rest', e') = read_full rest 8
            full ← poke buf 5 13 got'
            window ← peek full 5 13
            some (record {
              pack = record r { window = le_value window; base = record r.base { buf = full } };
              rest = rest';
              count = (5 + length got') % 2 ^ 16;
              error = read_error e';
            }))
          else some (record { pack = r; rest = rest; count = 5; error = none }))
  ]

-- `muxPackager.reset`
unfoldable pub mux_reset : MuxPackager → MuxPackager
mux_reset p = record {
  flag = 0;
  id = 0;
  window = 0;
  base = record { buf = nil_slice; length = 0; content = nil_slice };
}
