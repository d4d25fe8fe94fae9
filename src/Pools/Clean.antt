-- ===== src/Pools/Clean.antt =====
-- What the three pools of pool.go hand out.
use nps_mux.Base.{
  ℕ, ◌≡◌, refl, arith, some, List, [], ◌∷◌, get_elem?, length, All, length-replicate, Option-cases,
  inl, inr,
}
use nps_mux.Flag.{pool_size_window}
use nps_mux.Stream.{Slice}
use nps_mux.Packager.{MuxPackager, mux_reset}
use nps_mux.ReceiveQueue.{ListElement, reset_element}
use nps_mux.Pools.{
  sync_get, new_window_buffer, window_get, window_put, new_packager, packager_get, packager_put,
  blank_element, element_get, element_put,
}
use nps_mux.Pools.Runs.{
  Pool, Call, gets, puts, drops, Law, Uses, run_pool, run_pool-Kept, remove-All, get_elem?-All,
}

abbrev pub window_pool : Pool Slice
window_pool = record { fetch = window_get; give = window_put }

abbrev pub packager_pool : Pool MuxPackager
packager_pool = record { fetch = packager_get; give = packager_put }

abbrev pub element_pool : Pool ListElement
element_pool = record { fetch = element_get; give = element_put }

-- A slice over an array of the pool's size, and one that has all of it.
abbrev pub Whole : Slice → Type 0
Whole s = length s.arr ≡ pool_size_window

abbrev pub Full : Slice → Type 0
Full s = (length s.arr ≡ pool_size_window) × (s.len ≡ pool_size_window)

sync_get-All :
    {A : Type 0} (P : A → Type 0) (new : A) (items : List A) (i : ℕ)
    → P new
    → All P items
    → All P (sync_get new items i).0 × P (sync_get new items i).1
sync_get-All P new items i hn h = elim (Option-cases (get_elem? items i)) [
  | inl nothing ↦ ground (arith, nothing, h, hn)
  | inr (x, there) ↦
      ground (arith, there, remove-All P items i h, get_elem?-All P items i x h there)
]

window-Law : Law window_pool Full Whole
unfolding window_get window_put
window-Law = record {
  fetch_lem = λ items i h.
      let (hl, hx) =
        sync_get-All Full new_window_buffer items i
          (length-replicate {A = ℕ} pool_size_window 0, refl) h in
      let got = sync_get new_window_buffer items i in
      (got.0, record got.1 { len = pool_size_window }, ground (arith, hx.0), hl, (hx.0, refl));
  give_lem = λ x items whole h.
      (record x { len = pool_size_window } ∷ items, ground (arith, whole), ((whole, refl), h));
}

packager-Law : Law packager_pool (λ p. p ≡ new_packager) (λ p. Unit)
unfolding packager_put mux_reset
packager-Law = record {
  fetch_lem = λ items i h.
      let (hl, hx) = sync_get-All (λ p. p ≡ new_packager) new_packager items i refl h in
      (_, _, refl, hl, hx);
  give_lem = λ p items any h. (new_packager ∷ items, refl, (refl, h));
}

element-Law : Law element_pool (λ e. e ≡ blank_element) (λ e. Unit)
unfolding element_put reset_element
element-Law = record {
  fetch_lem = λ items i h.
      let (hl, hx) = sync_get-All (λ e. e ≡ blank_element) blank_element items i refl h in
      (_, _, refl, hl, hx);
  give_lem = λ e items any h. (blank_element ∷ items, refl, (refl, h));
}

any_use : {A : Type 0} (P : A → Type 0) (cs : List (Call A)) → All (Uses P (λ x. Unit)) cs
any_use P [] = tt
any_use P (gets i ∷ cs) = (tt, any_use P cs)
any_use P (puts k edit ∷ cs) = ((λ x h. tt), any_use P cs)
any_use P (drops i ∷ cs) = (tt, any_use P cs)

-- In any run of Get and Put from empty pools, where those that hold a buffer write into it and cut
-- it but keep its array, and do anything to the packagers and elements that they hold, and whatever
-- sync.Pool picks and lets go, no call panics: each buffer handed out has 4085 bytes and room for
-- no fewer, and each packager and each element handed out is as new.
pub run_pool-clean :
    (ws : List (Call Slice)) (ps : List (Call MuxPackager)) (es : List (Call ListElement))
    → All (Uses Full Whole) ws
    → ((items : List Slice) × (held : List Slice) × (run_pool window_pool ws ([], [])
          ≡ some (items, held))
        × All Full held)
      × ((items : List MuxPackager) × (held : List MuxPackager) × (run_pool packager_pool ps
              ([], [])
            ≡ some (items, held))
          × All (λ p. p ≡ new_packager) held)
      × (items : List ListElement) × (held : List ListElement) × (run_pool element_pool es ([], [])
          ≡ some (items, held))
      × All (λ e. e ≡ blank_element) held
run_pool-clean ws ps es used =
    let (wi, wh, we, _, w) = run_pool-Kept window_pool Full Whole window-Law ws [] [] used tt tt in
    let (pi, ph, pe, _, p) =
      run_pool-Kept packager_pool (λ x. x ≡ new_packager) (λ x. Unit) packager-Law ps [] []
        (any_use (λ x. x ≡ new_packager) ps) tt tt in
    let (ei, eh, ee, _, e) =
      run_pool-Kept element_pool (λ x. x ≡ blank_element) (λ x. Unit) element-Law es [] []
        (any_use (λ x. x ≡ blank_element) es) tt tt in
    ((wi, wh, we, w), (pi, ph, pe, p), ei, eh, ee, e)
