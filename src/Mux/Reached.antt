-- ===== src/Mux/Reached.antt =====
-- Every state that the steps of a mux reach is well-formed, and no operation panics in it.
mod Tests
use nps_mux.Base.{
  ℕ, ◌+◌, ◌≤◌, ◌<◌, ◌≡◌, ◌≢◌, refl, sym, ap, ◌∙◌, subst, arith, Bool, true, false, ◌||◌, Option,
  none, some, List, [], ◌∷◌, ◌++◌, length, get_elem?, mem, replicate, ◌==◌, Option-cases,
  Bool-cases, inl, inr, ◌⊎◌, if◌then◌else◌,
}
use nps_mux.SendWindow.{AllowAnswer}
use nps_mux.ReceiveWindow.{Measured}
use nps_mux.ReceiveWindow.Safe.{Queued}
use nps_mux.ConnMap.{lookup, get_conn}
use nps_mux.ConnMap.Laws.{lookup_of}
use nps_mux.Mux.{Conn, Mux, new_mux, Supply, close_mux, close_conn, OpenError, open_conn}
use nps_mux.Mux.Send.{Ample}
use nps_mux.Mux.CloseConn.{close_once_again}
use nps_mux.Mux.WellFormed.{WellFormed, Follows, new_mux-WellFormed, same-Follows}
use nps_mux.Mux.Follows.{Granted, close_mux-Follows, close_conn-Follows}
use nps_mux.Mux.Deadlines.{mux_deadline-Follows}
use nps_mux.Mux.Calls.{mux_read-Follows, mux_write-Follows}
use nps_mux.Mux.Session.{Handoff, nothing, read_round, ping_round, pong_round}
use nps_mux.Mux.Session.Blocking.{hands_over, wakes, read_round_free}
use nps_mux.Packager.{MuxPackager, Unpacked, mux_unpack}
use nps_mux.Packager.Total.{unpack_total}
use nps_mux.Mux.Session.Serve.{stored_of}
use nps_mux.Mux.Session.Accept.{offer_round-Granted, confirm_round-Follows}
use nps_mux.Mux.Session.Safe.{
  granted, read_round-Follows, ping_round-Follows, write_session_round-Follows, open_conn-Granted,
}
use nps_mux.Mux.Steps.{
  State, state, grants, crashes, Step, Reach, reads, writes, pings, pongs, offers, accepts, opens,
  closes, conn_reads, conn_writes, deadlines, shuts, start, next,
}

-- The mux is well-formed, and what the program holds or is offered is stored and does not wait.
pub record Sound (x : State) : Type 0 where
  pub formed : WellFormed x.mux
  pub kept :
      (ptr : ℕ) → mem ptr x.held ≡ true → (ptr < length x.mux.conns) × (mem ptr formed.line ≡ false)
  pub offer :
      (ptr : ℕ) → x.offered ≡ some ptr → (ptr < length x.mux.conns) × (mem ptr formed.line ≡ false)

-- A connection that is stored and does not wait.
abbrev Free : (m : Mux) → WellFormed m → ℕ → Type 0
Free m h ptr = (ptr < length m.conns) × (mem ptr h.line ≡ false)

still-Free :
    {m m' : Mux} {h : WellFormed m}
    → (f : Follows m h m') → (ptr : ℕ) → Free m h ptr
    → Free m' f.sound ptr
still-Free f ptr (inside, free) = (
  omega (arith, inside, f.grows),
  elim (Bool-cases (mem ptr f.sound.line)) [
    | inl waits ↦ absurd (ground (arith, f.line_of ptr inside waits, free))
    | inr apart ↦ apart
  ],
)

after-Sound :
    {m m' : Mux} {o : Option ℕ} {held : List ℕ} (x : Sound (state m o held))
    → Follows m x.formed m'
    → Sound (state m' o held)
after-Sound x f = record {
  formed = f.sound;
  kept = λ ptr has. still-Free f ptr (x.kept ptr has);
  offer = λ ptr it. still-Free f ptr (x.offer ptr it);
}

-- What the program gets is added to what it holds.
add-Free :
    (m : Mux) (h : WellFormed m) (held : List ℕ) (p : ℕ)
    → ((ptr : ℕ) → mem ptr held ≡ true → Free m h ptr)
    → Free m h p
    → (ptr : ℕ) → mem ptr (p ∷ held) ≡ true
    → Free m h ptr
add-Free m h held p kept new ptr has = elim (Bool-cases (mem ptr held)) [
  | inl old ↦ kept ptr old
  | inr added ↦ let same : p ≡ ptr = ground (arith, has, added) in subst (Free m h) same new
]

grant-Sound :
    {m m' : Mux} {o : Option ℕ} {held : List ℕ} (x : Sound (state m o held)) (got : Option ℕ)
    → Granted m m' x.formed got
    → Sound (state m' o (grants got held))
grant-Sound x none f = after-Sound x f
grant-Sound {m} {m'} {o} {held} x (some p) (f, inside, free) = record {
  formed = f.sound;
  kept = add-Free m' f.sound held p (λ q has. still-Free f q (x.kept q has)) (inside, free);
  offer = λ q it. still-Free f q (x.offer q it);
}

offer-Sound :
    {m m' : Mux} {held : List ℕ} (x : Sound (state m none held)) (got : Option ℕ)
    → Granted m m' x.formed got
    → Sound (state m' got held)
offer-Sound x none f = after-Sound x f
offer-Sound {m} {m'} {held} x (some p) (f, inside, free) = record {
  formed = f.sound;
  kept = λ q has. still-Free f q (x.kept q has);
  offer =
      λ q it. let same : p ≡ q = ground (arith, it) in subst (Free m' f.sound) same (inside, free);
}

accept-Sound :
    {m m' : Mux} {held : List ℕ} (ptr : ℕ) (x : Sound (state m (some ptr) held))
    → Follows m x.formed m'
    → Sound (state m' none (ptr ∷ held))
accept-Sound {m} {m'} {held} ptr x f = record {
  formed = f.sound;
  kept =
      add-Free m' f.sound held ptr (λ q has. still-Free f q (x.kept q has))
        (still-Free f ptr (x.offer ptr refl));
  offer = λ q it. absurd (ground (arith, it));
}

held_closes :
    (s : Supply) (m : Mux) (o : Option ℕ) (held : List ℕ) (x : Sound (state m o held)) (ptr : ℕ)
    → Ample s
    → mem ptr held ≡ true
    → (m' : Mux) × (close_conn s m ptr ≡ some m')
      × Follows m x.formed m'
      × (close_conn s m' ptr ≡ some m')
held_closes s m o held x ptr ample has =
    let (inside, free) = x.kept ptr has in
    let (c, stored) = stored_of m.conns ptr inside in
    close_conn-Follows s m x.formed ptr c ample stored free

step-Sound : (x y : State) → Sound x → Step x y → Sound y
step-Sound x y h (reads {m} {m'} s t a src rest hand goes ample done) =
    let (m₁, rest', hand', goes', ran, f, _, _) = read_round-Follows s ample m h.formed t a src in
    after-Sound h (subst (λ k. Follows m h.formed k) (ground (arith, done, ran)) f)
step-Sound x y h (writes {m} {m'} s w w' goes ample done) =
    after-Sound h (write_session_round-Follows s ample m h.formed w w' m' goes done)
step-Sound x y h (pings {m} {m'} s now goes ample done) =
    let (m₁, goes', ran, f) = ping_round-Follows s ample m h.formed now in
    after-Sound h (subst (λ k. Follows m h.formed k) (ground (arith, done, ran)) f)
step-Sound x y h (pongs {m}) =
    after-Sound h
      (same-Follows m (pong_round m) h.formed refl refl refl h.formed.view h.formed.messages)
step-Sound x y h (offers {m} {m'} got done) =
    offer-Sound h got (offer_round-Granted m m' h.formed got done h.formed.line refl)
step-Sound x y h (accepts {m} {m'} s ptr done) =
    accept-Sound ptr h (confirm_round-Follows s m m' h.formed ptr done)
step-Sound x y h (opens {m} {m'} s confirmed e ptr ample done) =
    grant-Sound h (granted e ptr) (open_conn-Granted s ample m h.formed confirmed m' e ptr done)
step-Sound x y h (closes {m} {m'} {o} {held} s ptr ample has done) =
    let (m₁, ran, f, _) = held_closes s m o held h ptr ample has in
    after-Sound h (subst (λ k. Follows m h.formed k) (ground (arith, done, ran)) f)
step-Sound x y h (conn_reads {m} {m'} supplies k ptr room r e has done) =
    after-Sound h (mux_read-Follows supplies k m m' h.formed ptr room r e done)
step-Sound x y h (conn_writes {m} {m'} supplies turns ptr buf r e has done) =
    after-Sound h (mux_write-Follows supplies turns m m' h.formed ptr buf r e done)
step-Sound x y h (deadlines {m} {m'} d t ptr has done) =
    after-Sound h (mux_deadline-Follows d t m m' h.formed ptr done)
step-Sound x y h (shuts {m} {m'} order again done) =
    let (m₁, again', ran, f, _) = close_mux-Follows order m h.formed in
    after-Sound h (subst (λ k. Follows m h.formed k) (ground (arith, done, ran)) f)

pub Reach-Sound : (x : State) → Reach x → Sound x
Reach-Sound x (start kcp threshold) = record {
  formed = new_mux-WellFormed kcp threshold;
  kept = λ ptr has. absurd (ground (arith, has));
  offer = λ ptr it. absurd (ground (arith, it));
}
Reach-Sound x (next {x = y} {y = z} r step lives) = step-Sound y z (Reach-Sound y r) step

-- In every state that is reached, an entry of the map with a connection has one that is stored, has
-- the id of the entry, is not closed and has never been, and stands under no other id; and the
-- length word of its receive queue counts, modulo 2^32, the bytes of the elements in the queue.
pub Reach-Entry :
    (x : State) (i ptr : ℕ)
    → Reach x
    → get_conn x.mux.conn_map i ≡ some ptr
    → (c : Conn) × (get_elem? x.mux.conns ptr ≡ some c)
      × (c.conn_id ≡ i)
      × (c.is_close ≡ false)
      × (c.once ≡ false)
      × ((j : ℕ) → get_conn x.mux.conn_map j ≡ some ptr → j ≡ i)
      × Queued c.receive_window.buf_queue
Reach-Entry x i ptr r found =
    let h = (Reach-Sound x r).formed in
    let entry = h.entries i (some ptr) (lookup_of x.mux.conn_map i ptr found) in
    let stored : get_elem? x.mux.conns ptr ≡ some entry.conn =
      ground (arith, entry.stored, entry.value) in
    (
      entry.conn,
      stored,
      entry.conn_id,
      entry.is_open,
      entry.fresh,
      λ j there.
          let other = h.entries j (some ptr) (lookup_of x.mux.conn_map j ptr there) in
          ground (arith, other.stored, other.value, other.conn_id, stored, entry.conn_id),
      h.healthy ptr entry.conn stored,
    )

-- In every state that is reached, with whole buffers from the pools and whatever bytes the other
-- side has sent, no operation of a round of the reader goroutine panics. The round either leads to
-- a state that is reached again, or closes the mux while a connection is offered to Accept, which
-- is the panic of the other goroutine; what it took of the stream and what is left of it are the
-- stream. It can only be held up by a send on a channel where the message is the answer to a ping,
-- a confirmation, a refusal or a report for the window, or a content whose Push finds a reader
-- marked as waiting and signals it: with every other one it hands nothing over, and what it does is
-- the same whatever allow would meet.
pub Reach-reads :
    (x : State) (s : Supply) (t : Measured) (a : AllowAnswer) (src : List ℕ)
    → Reach x
    → Ample s
    → (m' : Mux) × (rest : List ℕ) × (hand : Handoff) × (goes : Bool) × (read_round s t a x.mux src
        ≡ some (m', rest, hand, goes))
      × (Reach (state m' x.offered x.held) ⊎ (crashes x.offered m' ≡ true))
      × ((got : List ℕ) × (got ++ rest ≡ src))
      × (u : Unpacked MuxPackager) × (mux_unpack s.pack s.buf s.content src ≡ some u)
      × ((hands_over u.pack ≡ true)
          ⊎ (wakes x.mux u.pack ≡ true)
          ⊎ (wakes x.mux u.pack ≡ false)
            × (hand ≡ nothing)
            × ((a' : AllowAnswer) → read_round s t a' x.mux src ≡ some (m', rest, hand, goes)))
Reach-reads x s t a src r ample =
    let (m', rest, hand, goes, ran, _, got, split) =
      read_round-Follows s ample x.mux (Reach-Sound x r).formed t a src in
    let (u, read, _, _) = unpack_total s.pack s.buf s.content src ample.0 ample.1 in
    (
      m',
      rest,
      hand,
      goes,
      ran,
      elim (Bool-cases (crashes x.offered m')) [
        | inl panic ↦ inr panic
        | inr lives ↦ inl (next r (reads s t a src rest hand goes ample ran) lives)
      ],
      (got, split),
      u,
      read,
      elim (Bool-cases (hands_over u.pack)) [
        | inl may ↦ inl may
        | inr never ↦ elim (Bool-cases (wakes x.mux u.pack)) [
          | inl signals ↦ inr (inl signals)
          | inr quiet ↦
              let (nothing_sent, same) =
                read_round_free s t a x.mux m' src rest u hand goes read never ran in
              inr (inr (quiet, nothing_sent, same))
        ]
      ],
    )

-- In every state that is reached and in which no connection is offered to Accept, with whole
-- buffers from the pools, Close of the mux, with any order of the keys, and a tick of the ping
-- goroutine end without a panic and lead to states that are reached, the first with the mux closed;
-- and so does Close of every connection that the program holds, which does nothing when it is
-- called again.
pub Reach-ends :
    (x : State) (s : Supply) (order now : List ℕ)
    → Reach x
    → Ample s
    → x.offered ≡ none
    → ((m₁ : Mux) × (again : Bool) × (close_mux order x.mux ≡ some (m₁, again))
        × (m₁.is_close ≡ true)
        × Reach (state m₁ none x.held))
      × ((m₂ : Mux) × (goes : Bool) × (ping_round s now x.mux ≡ some (m₂, goes))
          × Reach (state m₂ none x.held))
      × ((ptr : ℕ)
          → mem ptr x.held ≡ true
          → (m₃ : Mux) × (close_conn s x.mux ptr ≡ some m₃)
            × (close_conn s m₃ ptr ≡ some m₃)
            × Reach (state m₃ none x.held))
Reach-ends x s order now r ample nobody =
    let sound = Reach-Sound x r in
    let h = sound.formed in
    let r' : Reach (state x.mux none x.held) = subst (λ o. Reach (state x.mux o x.held)) nobody r in
    let (m₁, again, closed, _, shut) = close_mux-Follows order x.mux h in
    let (m₂, goes, ticked, _) = ping_round-Follows s ample x.mux h now in
    (
      (m₁, again, closed, shut, next r' (shuts order again closed) refl),
      (m₂, goes, ticked, next r' (pings s now goes ample ticked) refl),
      λ ptr has.
          let (m₃, once, _, twice) = held_closes s x.mux x.offered x.held sound ptr ample has in
          (m₃, once, twice, next r' (closes s ptr ample has once) refl),
    )
