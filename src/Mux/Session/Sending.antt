-- ===== src/Mux/Session/Sending.antt =====
-- The sending side of a stream: from `sendInfo` through the queue to the bytes on the connection.
use nps_mux.Base.{
  ℕ, zero, suc, ◌+◌, ◌-◌, ◌/◌, ◌^◌, ◌≤◌, ◌<◌, ◌≡◌, refl, sym, subst, arith, Bool, true, false,
  Option, none, some, ◌>>=◌, List, [], ◌∷◌, ◌++◌, map, length, length-append, take_all, All,
  if◌then◌else◌,
}
use mathlib.Core.List.{append_assoc, append-nil}
use nps_mux.Flag.{maximum_segment_size}
use nps_mux.Stream.{Writer}
use nps_mux.Packager.{MuxPackager, byte_slice}
use nps_mux.Packager.Frame.{Message, content, frame, IsMessage, filled, mux_set_lem}
use nps_mux.Packager.Pack.{after, pack-filled}
use nps_mux.Packager.RoundTrip.{frames}
use nps_mux.PriorityQueue.{PriorityQueue}
use nps_mux.PriorityQueue.Policy.{View, put}
use nps_mux.PriorityQueue.Refine.{Shows, push-Shows, try_pop-Shows}
use nps_mux.Mux.{Mux, Supply, send_info}
use nps_mux.Mux.Send.{Ample}
use nps_mux.Mux.Session.{write_session_round}
use nps_mux.Mux.Session.Delivery.{content_flag}

-- A part of a message, or its end, with its bytes.
abbrev pub Segment : Type 0
Segment = Bool × List ℕ

abbrev pub IsSegment : Segment → Type 0
IsSegment (part, body) = (1 ≤ length body) × (length body ≤ maximum_segment_size)

abbrev pub message : ℕ → Segment → Message
message id (part, body) = content (content_flag part) id body

-- What `WriteFull` hands to `sendInfo`, each segment with what the pools hand out for it.
abbrev pub send_segments : ℕ → List (Supply × Segment) → Mux → Option Mux
send_segments id [] m = some m
send_segments id ((s, (part, body)) ∷ xs) m = do
  m' ← send_info s (content_flag part) id (byte_slice (some body)) m
  send_segments id xs m'

-- Rounds of the writer goroutine, none of which ends it.
abbrev pub write_rounds : Supply → ℕ → Mux → Writer → Option (Mux × Writer)
write_rounds s zero m w = some (m, w)
write_rounds s (suc n) m w = do
  (m', w', goes) ← write_session_round s m w
  let rest = write_rounds s n m' w'
  if goes then rest else none

abbrev pub IsSend : Supply × Segment → Type 0
IsSend (s, seg) = Ample s × IsSegment seg

-- A queue with contents alone.
abbrev pub contents : List MuxPackager → ℕ → Bool → View
contents ls st stop = record { highs = []; middles = []; lows = ls; starved = st; stopped = stop }

abbrev pub packed : ℕ → Supply × Segment → MuxPackager
packed id (s, seg) = filled (message id seg) s.pack s.buf s.content

message-IsMessage :
    (id : ℕ) (seg : Segment) → id < 2 ^ 32 → IsSegment seg → IsMessage (message id seg)
message-IsMessage id (true, body) named (lo, hi) = (refl, named, lo, hi)
message-IsMessage id (false, body) named (lo, hi) = (refl, named, lo, hi)

put-packed :
    (id : ℕ) (x : Supply × Segment) (ls : List MuxPackager) (st : ℕ) (stop : Bool)
    → put (contents ls st stop) (packed id x) ≡ contents (ls ++ (packed id x ∷ [])) st stop
put-packed id (s, (true, body)) ls st stop = refl
put-packed id (s, (false, body)) ls st stop = refl

pub send_segments-contents :
    (id : ℕ) (xs : List (Supply × Segment)) (m : Mux) (ls : List MuxPackager) (st : ℕ) (stop : Bool)
    → id < 2 ^ 32
    → All IsSend xs
    → m.is_close ≡ false
    → Shows m.write_queue (contents ls st stop)
    → (q : PriorityQueue) × (send_segments id xs m ≡ some (record m { write_queue = q }))
      × Shows q (contents (ls ++ map (packed id) xs) st stop)
unfolding send_info
send_segments-contents id [] m ls st stop named h running shows = (
  m.write_queue,
  refl,
  subst (λ l. Shows m.write_queue (contents l st stop)) (sym (append-nil ls)) shows,
)
send_segments-contents id ((s, (part, body)) ∷ xs) m ls st stop named ((ample, fits), hs) running
      shows =
    let x : Supply × Segment = (s, (part, body)) in
    let sets =
      mux_set_lem (message id (part, body)) s.pack s.buf s.content
        (message-IsMessage id (part, body) named fits) ample.0 ample.1 in
    let (q, eq, hq) = push-Shows m.write_queue (contents ls st stop) (packed id x) shows in
    let shows' : Shows q (contents (ls ++ (packed id x ∷ [])) st stop) =
      subst (Shows q) (put-packed id x ls st stop) hq in
    let (q', eq', hq') =
      send_segments-contents id xs (record m { write_queue = q }) (ls ++ (packed id x ∷ [])) st stop
        named hs running shows' in
    (
      q',
      ground (arith, running, sets, eq, eq'),
      subst (λ l. Shows q' (contents l st stop))
          (append_assoc ls (packed id x ∷ []) (map (packed id) xs)) hq',
    )

abbrev pub messages : ℕ → List (Supply × Segment) → List Message
messages id [] = []
messages id ((s, seg) ∷ xs) = message id seg ∷ messages id xs

pub write_rounds-frames :
    (id : ℕ) (s : Supply) (xs : List (Supply × Segment)) (m : Mux) (w : Writer) (st : ℕ)
    (stop : Bool)
    → id < 2 ^ 32
    → All IsSend xs
    → m.is_close ≡ false
    → Shows m.write_queue (contents (map (packed id) xs) st stop)
    → length (frames (messages id xs)) ≤ w.room
    → (q : PriorityQueue) × (write_rounds s (length xs) m w
        ≡ some (record m { write_queue = q }, after w (frames (messages id xs))))
unfolding write_session_round
write_rounds-frames id s [] m w st stop named h running shows room =
    (m.write_queue, ground (arith, append-nil w.sent, take_all {A = ℕ} w.room []))
write_rounds-frames id s ((s₁, seg) ∷ xs) m w st stop named ((ample, fits), hs) running shows room =
    let first = message id seg in
    let more = frames (messages id xs) in
    let (q, popped, hq) =
      try_pop-Shows m.write_queue (contents (map (packed id) ((s₁, seg) ∷ xs)) st stop) shows in
    let (p, wrote) =
      pack-filled first s₁.pack s₁.buf s₁.content w (message-IsMessage id seg named fits) ample.0
        ample.1 in
    let enough : length (frame first) + length more ≤ w.room =
      omega (arith, room, length-append (frame first) more) in
    let (q', rest) =
      write_rounds-frames id s xs (record m { write_queue = q }) (after w (frame first)) (st / 2)
        stop named hs running hq (omega (arith, enough)) in
    (
      q',
      ground (
        arith,
        running,
        popped,
        wrote,
        enough,
        rest,
        take_all w.room (frame first),
        take_all (w.room - length (frame first)) more,
        take_all w.room (frame first ++ more),
        append_assoc w.sent (frame first) more,
        length-append (frame first) more,
      ),
    )
