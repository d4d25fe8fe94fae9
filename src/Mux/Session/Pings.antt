-- ===== src/Mux/Session/Pings.antt =====
-- The ping goroutine where the other side does not answer.
use nps_mux.Base.{
  mem, ℕ, ◌+◌, ◌-◌, ◌%◌, ◌^◌, ◌≤◌, ◌<◌, ◌≡◌, refl, sym, ap, ◌∙◌, arith, Bool, true, false, Option,
  none, some, ◌>>=◌, List, [], ◌∷◌, length, All, if◌then◌else◌,
}
use nps_mux.Flag.{mux_ping_flag, mux_ping, pool_size_window}
use nps_mux.PriorityQueue.Policy.{View, put}
use nps_mux.PriorityQueue.Refine.{Shows}
use nps_mux.ConnMap.{lookup}
use nps_mux.Mux.{Mux, Supply}
use nps_mux.Mux.Send.{Ample, send_info-content}
use nps_mux.Mux.WellFormed.{WellFormed, same-Follows}
use nps_mux.Mux.CloseAll.{close_mux-Closed}
use nps_mux.Mux.Session.{ping_round}

-- Ticks, each with what the pools hand out and the time as text.
abbrev pub run_pings : List (Supply × List ℕ) → Mux → Option (Mux × Bool)
run_pings [] m = some (m, true)
run_pings ((s, now) ∷ ticks) m = do
  (m', goes) ← ping_round s now m
  let rest = run_pings ticks m'
  if goes then rest else some (m', false)

abbrev pub IsTick : Supply × List ℕ → Type 0
IsTick (s, now) = Ample s × (1 ≤ length now) × (length now ≤ pool_size_window)

-- The mux after some pings that nobody answered.
pub record Pinged (n : ℕ) (m m' : Mux) : Type 0 where
  pub view : View
  pub shows : Shows m'.write_queue view
  pub time : m'.ping_check_time ≡ m.ping_check_time + n
  pub rest : m' ≡ record m { write_queue = m'.write_queue; ping_check_time = m'.ping_check_time }

run_pings-Pinged :
    (ticks : List (Supply × List ℕ)) (m : Mux) (v : View)
    → All IsTick ticks
    → m.is_close ≡ false
    → Shows m.write_queue v
    → m.ping_check_time + length ticks ≤ m.ping_check_threshold + 1
    → m.ping_check_threshold < 2 ^ 32 - 1
    → (m' : Mux) × (run_pings ticks m ≡ some (m', true)) × Pinged (length ticks) m m'
unfolding ping_round
run_pings-Pinged [] m v formed running h early small =
    (m, refl, record { view = v; shows = h; time = omega arith; rest = refl })
run_pings-Pinged ((s, now) ∷ ticks) m v ((ample, inhabited, fits), formed) running h early small =
    let sends =
      send_info-content s m v ample running h mux_ping_flag mux_ping now refl inhabited fits in
    let m₁ : Mux = record m {
      write_queue = sends.queue;
      ping_check_time = (m.ping_check_time + 1) % 2 ^ 32;
    } in
    let (m', eq, p) =
      run_pings-Pinged ticks m₁ (put v sends.message) formed running sends.shows (omega arith)
        small in
    (
      m',
      ground (arith, running, sends.result, eq),
      record { view = p.view; shows = p.shows; time = omega (arith, p.time); rest = p.rest },
    )

pinged-WellFormed : (n : ℕ) (m m' : Mux) → WellFormed m → Pinged n m m' → WellFormed m'
pinged-WellFormed n m m' h p =
    (same-Follows m m' h (ap (λ t. t.conns) p.rest) (ap (λ t. t.conn_map) p.rest)
      (ap (λ t. t.waiting) p.rest) p.view p.shows).sound

-- An open, well-formed mux whose pings are not answered stays open with the same connections until
-- as many ticks have passed as the threshold and one more, and closes at the next tick, which
-- empties the map.
pub unanswered-closes :
    (ticks : List (Supply × List ℕ)) (m : Mux) (s : Supply) (now : List ℕ)
    → WellFormed m
    → All IsTick ticks
    → m.is_close ≡ false
    → m.ping_check_threshold < 2 ^ 32 - 1
    → m.ping_check_time + length ticks ≡ m.ping_check_threshold + 1
    → ((i : ℕ) (v : Option ℕ) → lookup m.conn_map i ≡ some v → mem i s.order ≡ true)
    → (m' : Mux) × (run_pings ticks m ≡ some (m', true))
      × (m'.is_close ≡ false)
      × (m'.conn_map ≡ m.conn_map)
      × (m'' : Mux) × (ping_round s now m' ≡ some (m'', false))
      × (m''.is_close ≡ true)
      × ((i : ℕ) → lookup m''.conn_map i ≡ none)
unfolding ping_round
unanswered-closes ticks m s now h formed running small late complete =
    let (m', eq, p) =
      run_pings-Pinged ticks m h.view formed running h.messages (omega arith) small in
    let running' : m'.is_close ≡ false = ap (λ t. t.is_close) p.rest ∙ running in
    let map' : m'.conn_map ≡ m.conn_map = ap (λ t. t.conn_map) p.rest in
    let limit : m'.ping_check_threshold ≡ m.ping_check_threshold =
      ap (λ t. t.ping_check_threshold) p.rest in
    let (m'', closes, shut, gone, _, _, _, _, _, _, _, _, _, _) =
      close_mux-Closed s.order m' (pinged-WellFormed (length ticks) m m' h p) running'
        (λ i v e. complete i v (sym (ap (λ t. lookup t i) map') ∙ e)) in
    (m', eq, running', map', m'', ground (arith, running', closes, limit, p.time), shut, gone)
