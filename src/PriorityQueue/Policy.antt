-- ===== src/PriorityQueue/Policy.antt =====
-- The abstract queue: three lists and a counter, with the rule of service written as one choice.
use nps_mux.Base.{
  ℕ, ◌/◌, Bool, true, false, ◌||◌, Option, none, some, List, [], ◌∷◌, ◌++◌, ltb, ◌==◌,
  if◌then◌else◌,
}
use nps_mux.Flag.{mux_ping_flag, mux_ping_return, mux_new_conn, mux_new_conn_ok, mux_new_conn_fail}
use nps_mux.Packager.{MuxPackager}
use nps_mux.PriorityQueue.{max_starving, more_starving}

pub data Class : Type 0 where
  high middle low : Class

-- The class of a message by its flag.
abbrev pub class_of : ℕ → Class
class_of f =
    if f == mux_ping_flag || f == mux_ping_return
    then high
    else if f == mux_new_conn || (f == mux_new_conn_ok || f == mux_new_conn_fail)
    then middle
    else low

pub record View : Type 0 where
  pub highs : List MuxPackager
  pub middles : List MuxPackager
  pub lows : List MuxPackager
  pub starved : ℕ
  pub stopped : Bool

abbrev pub add_last : List MuxPackager → MuxPackager → List MuxPackager
add_last xs p = xs ++ (p ∷ [])

abbrev pub put_in : Class → View → MuxPackager → View
put_in high v p = record v { highs = add_last v.highs p }
put_in middle v p = record v { middles = add_last v.middles p }
put_in low v p = record v { lows = add_last v.lows p }

abbrev pub put : View → MuxPackager → View
put v p = put_in (class_of p.flag) v p

abbrev pub serve_low : View → List MuxPackager → View × Option MuxPackager
serve_low v [] = (v, none)
serve_low v (p ∷ r) = (record v { lows = r; starved = v.starved / 2 }, some p)

abbrev pub is_empty : List MuxPackager → Bool
is_empty [] = true
is_empty (p ∷ r) = false

-- A connection message goes first unless eight of them did and content is waiting.
abbrev pub serve_middle : View → List MuxPackager → View × Option MuxPackager
serve_middle v [] = serve_low v v.lows
serve_middle v (p ∷ r) =
    if ltb v.starved max_starving || is_empty v.lows
    then (record v { middles = r; starved = more_starving v.starved }, some p)
    else serve_low v v.lows

abbrev pub serve_high : View → List MuxPackager → View × Option MuxPackager
serve_high v [] = serve_middle v v.middles
serve_high v (p ∷ r) = (record v { highs = r }, some p)

abbrev pub serve : View → View × Option MuxPackager
serve v = serve_high v v.highs
