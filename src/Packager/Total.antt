-- ===== src/Packager/Total.antt =====
-- `muxPackager.UnPack` on any input: no panic, and nothing of the stream is lost or read twice.
use nps_mux.Base.{
  ℕ, ◌+◌, ◌%◌, ◌^◌, ◌≤◌, ◌≡◌, refl, arith, true, false, none, some, List, [], ◌++◌, length,
  length-append, subst, ◌==◌, if◌then◌else◌, inl, inr, Bool-cases, ltb,
}
use mathlib.Core.List.{append_assoc, append-nil}
use nps_mux.Flag.{mux_msg_send_ok, maximum_segment_size, pool_size_window}
use nps_mux.Stream.{
  put_at, length-put_at, le_value, range, range-put_at, read_full, read_full_cases,
}
use nps_mux.Packager.{
  BasePackager, MuxPackager, Unpacked, PackError, carries_bytes, mux_unpack, base_unpack,
  read_failed, over_capacity,
}

-- A read that reports no error has taken `count` bytes from the front of the stream: a header of at
-- most `header` bytes, and a content of at most one segment.
record Consumes {P : Type 0} (header : ℕ) (src : List ℕ) (content_len : P → ℕ) (u : Unpacked P)
    : Type 0 where
  pub got : List ℕ
  pub split : got ++ u.rest ≡ src
  pub counted : u.error ≡ none → length got ≡ u.count
  pub bounded : u.error ≡ none → content_len u.pack ≤ maximum_segment_size
  pub framed : u.error ≡ none → u.count ≤ header + content_len u.pack

module _ {P : Type 0} {src : List ℕ} (header : ℕ) (content_len : P → ℕ) (u : Unpacked P)
    (got : List ℕ) where
  failed :
      (e : PackError) → got ++ u.rest ≡ src → u.error ≡ some e → Consumes header src content_len u
  failed e s h = record {
    got = got;
    split = s;
    counted = λ q. cc;
    bounded = λ q. cc;
    framed = λ q. cc;
  }

  passed :
      got ++ u.rest ≡ src
      → length got ≡ u.count
      → content_len u.pack ≤ maximum_segment_size
      → u.count ≤ header + content_len u.pack
      → Consumes header src content_len u
  passed s c b f = record {
    got = got;
    split = s;
    counted = λ q. c;
    bounded = λ q. b;
    framed = λ q. f;
  }

abbrev length_read : BasePackager → List ℕ → BasePackager
length_read p g = record {
  buf = record p.buf { arr = put_at p.buf.arr 5 g };
  length = le_value g;
  content = record p.content { len = 0 };
}

abbrev content_read : BasePackager → List ℕ → List ℕ → BasePackager
content_read p g b = record (length_read p g) {
  content = record { arr = put_at p.content.arr 0 b; len = le_value g };
}

abbrev pub len_of : BasePackager → ℕ
len_of q = q.content.len

Total : BasePackager → List ℕ → Type 0
Total p src = (u : Unpacked BasePackager) × (base_unpack p src ≡ some u) × Consumes 2 src len_of u

-- The read behind the length field.
base_content :
    (p : BasePackager) (src g r : List ℕ)
    → length p.content.arr ≡ pool_size_window
    → 7 ≤ length p.buf.arr
    → read_full src 2 ≡ (g, r, none)
    → length g ≡ 2
    → g ++ r ≡ src
    → ltb maximum_segment_size (le_value g) ≡ false
    → Total p src
unfolding base_unpack Total
base_content p src g r hc hb e l s fits = elim (read_full_cases r (le_value g)) [
  | inl (b, r', e', l', s') ↦
      let u : Unpacked BasePackager = record {
        pack = content_read p g b;
        rest = r';
        count = 2 + length b;
        error = none;
      } in
      (
        u,
        ground (arith, e, e', l', range-put_at p.buf.arr 5 7 g, length-put_at p.buf.arr 5 g),
        passed 2 len_of u (g ++ b) (rw (append_assoc, s') s) (omega (arith, length-append g b))
            (ground arith) (omega arith),
      )
  | inr (x, e') ↦
      let u : Unpacked BasePackager = record {
        pack = content_read p g r;
        rest = [];
        count = (2 + length r) % 2 ^ 16;
        error = some (read_failed x);
      } in
      (
        u,
        ground (arith, e, e', range-put_at p.buf.arr 5 7 g, length-put_at p.buf.arr 5 g),
        failed 2 len_of u src (read_failed x) (append-nil src) refl,
      )
]

base_reads :
    (p : BasePackager) (src : List ℕ)
    → length p.content.arr ≡ pool_size_window
    → 7 ≤ length p.buf.arr
    → Total p src
unfolding base_unpack Total
base_reads p src hc hb = elim (read_full_cases src 2) [
  | inl (g, r, e, l, s) ↦ elim (Bool-cases (ltb maximum_segment_size (le_value g))) [
    | inl big ↦
        let u : Unpacked BasePackager = record {
          pack = length_read p g;
          rest = r;
          count = 2;
          error = some over_capacity;
        } in
        (
          u,
          ground (arith, e, range-put_at p.buf.arr 5 7 g, length-put_at p.buf.arr 5 g),
          failed 2 len_of u g over_capacity s refl,
        )
    | inr fits ↦ base_content p src g r hc hb e l s fits
  ]
  | inr (x, e) ↦
      let u : Unpacked BasePackager = record {
        pack = record p {
          buf = record p.buf { arr = put_at p.buf.arr 5 src };
          length = 0;
          content = record p.content { len = 0 };
        };
        rest = [];
        count = 0;
        error = some (read_failed x);
      } in
      (u, ground (arith, e), failed 2 len_of u src (read_failed x) (append-nil src) refl)
]

abbrev pub content_len : MuxPackager → ℕ
content_len q = if carries_bytes q.flag then q.base.content.len else 0

-- The packager after the five bytes `g` of the header.
abbrev header_read : MuxPackager → List ℕ → List ℕ → MuxPackager
header_read p x g = record p {
  flag = le_value (range (put_at x 0 g) 0 1);
  id = le_value (range (put_at x 0 g) 1 5);
  base = record p.base { buf = record { arr = put_at x 0 g; len = 13 } };
}

Reads : MuxPackager → List ℕ → List ℕ → List ℕ → Type 0
Reads p x y src =
    (u : Unpacked MuxPackager) × (mux_unpack p x y src ≡ some u) × Consumes 13 src content_len u

module _ (p : MuxPackager) (x y src g r : List ℕ) (hx : length x ≡ pool_size_window)
    (hy : length y ≡ pool_size_window) (e : read_full src 5 ≡ (g, r, none)) (l : length g ≡ 5)
    (s : g ++ r ≡ src) where
  -- The content's part is handed over by the lemma on `basePackager.UnPack`.
  read_content_by :
      carries_bytes (header_read p x g).flag ≡ true
      → (v : Unpacked BasePackager)
      → base_unpack
          (record (header_read p x g).base { content = record { arr = y; len = pool_size_window } })
          r
        ≡ some v
      → Consumes 2 r len_of v
      → Reads p x y src
  unfolding mux_unpack Reads
  read_content_by h v ev c =
      let q = header_read p x g in
      let u : Unpacked MuxPackager = record {
        pack = record q { base = v.pack };
        rest = v.rest;
        count = (5 + v.count) % 2 ^ 16;
        error = v.error;
      } in
      (
        u,
        ground (arith, e, ev, length-put_at x 0 g),
        record {
          got = g ++ c.got;
          split = rw (append_assoc, c.split) s;
          counted = λ q. omega (arith, length-append g c.got, c.counted q, c.bounded q, c.framed q);
          bounded = λ q. rw h (c.bounded q);
          framed = λ q. rw h (omega (arith, c.bounded q, c.framed q));
        },
      )

  read_content : carries_bytes (header_read p x g).flag ≡ true → Reads p x y src
  unfolding Total
  read_content h =
      let b = record (header_read p x g).base {
        content = record { arr = y; len = pool_size_window };
      } in
      let (v, ev, c) = base_reads b r hy (omega (arith, length-put_at x 0 g)) in
      read_content_by h v ev c

  read_window :
      carries_bytes (header_read p x g).flag ≡ false
      → ((header_read p x g).flag == mux_msg_send_ok) ≡ true
      → Reads p x y src
  unfolding mux_unpack Reads
  read_window h k = elim (read_full_cases r 8) [
    | inl (b, r', e', l', s') ↦
        let full = put_at (put_at x 0 g) 5 b in
        let u : Unpacked MuxPackager = record {
          pack = record (header_read p x g) {
            window = le_value (range full 5 13);
            base = record p.base { buf = record { arr = full; len = 13 } };
          };
          rest = r';
          count = 13;
          error = none;
        } in
        (
          u,
          ground (arith, e, e', l', length-put_at x 0 g, length-put_at (put_at x 0 g) 5 b),
          passed 13 content_len u (g ++ b) (rw (append_assoc, s') s)
              (omega (arith, length-append g b)) (rw h (omega arith)) (omega arith),
        )
    | inr (z, e') ↦
        let full = put_at (put_at x 0 g) 5 r in
        let u : Unpacked MuxPackager = record {
          pack = record (header_read p x g) {
            window = le_value (range full 5 13);
            base = record p.base { buf = record { arr = full; len = 13 } };
          };
          rest = [];
          count = (5 + length r) % 2 ^ 16;
          error = some (read_failed z);
        } in
        (
          u,
          ground (arith, e, e', length-put_at x 0 g, length-put_at (put_at x 0 g) 5 r),
          failed 13 content_len u src (read_failed z) (append-nil src) refl,
        )
  ]

  read_signal :
      carries_bytes (header_read p x g).flag ≡ false
      → ((header_read p x g).flag == mux_msg_send_ok) ≡ false
      → Reads p x y src
  unfolding mux_unpack Reads
  read_signal h k =
      let u : Unpacked MuxPackager = record {
        pack = header_read p x g;
        rest = r;
        count = 5;
        error = none;
      } in
      (
        u,
        ground (arith, e, length-put_at x 0 g),
        passed 13 content_len u g s l (rw h (omega arith)) (omega arith),
      )

  read_any : Reads p x y src
  read_any = elim (Bool-cases (carries_bytes (header_read p x g).flag)) [
    | inl h ↦ read_content h
    | inr h ↦ elim (Bool-cases ((header_read p x g).flag == mux_msg_send_ok)) [
      | inl k ↦ read_window h k
      | inr k ↦ read_signal h k
    ]
  ]

reads :
    (p : MuxPackager) (x y src : List ℕ)
    → length x ≡ pool_size_window
    → length y ≡ pool_size_window
    → Reads p x y src
unfolding mux_unpack Reads
reads p x y src hx hy = elim (read_full_cases src 5) [
  | inl (g, r, e, l, s) ↦ read_any p x y src g r hx hy e l s
  | inr (z, e) ↦
      let u : Unpacked MuxPackager = record {
        pack = record p {
          base = record p.base { buf = record { arr = put_at x 0 src; len = 13 } };
        };
        rest = [];
        count = 0;
        error = some (read_failed z);
      } in
      (u, ground (arith, e), failed 13 content_len u src (read_failed z) (append-nil src) refl)
]

module _ (p : MuxPackager) (x y src : List ℕ) (hx : length x ≡ pool_size_window)
    (hy : length y ≡ pool_size_window) where
  -- On any bytes, with buffers of the pool's size, UnPack returns without a panic, and the stream
  -- is what it has read followed by what is left.
  pub unpack_total :
      (u : Unpacked MuxPackager) × (mux_unpack p x y src ≡ some u)
      × (got : List ℕ) × (got ++ u.rest ≡ src)
  unfolding Reads
  unpack_total = let (u, e, c) = reads p x y src hx hy in (u, e, c.got, c.split)

  -- On any bytes, with buffers of the pool's size, where UnPack reports no error: n is the number
  -- of bytes taken from the front of the stream, the content is at most one segment, and at most 13
  -- bytes are not content.
  pub unpack_bounds :
      (u : Unpacked MuxPackager)
      → mux_unpack p x y src ≡ some u
      → u.error ≡ none
      → (got : List ℕ) × (got ++ u.rest ≡ src)
        × (length got ≡ u.count)
        × (content_len u.pack ≤ maximum_segment_size)
        × (u.count ≤ 13 + content_len u.pack)
  unfolding Reads
  unpack_bounds u e ok =
      let (v, e', c) = reads p x y src hx hy in
      let same : v ≡ u = cc in
      let d = subst (Consumes 13 src content_len) same c in
      (d.got, d.split, d.counted ok, d.bounded ok, d.framed ok)
