-- ===== src/SendWindow/Segments/Count.antt =====
-- `WriteTo` and the word of the window: a segment counts as outstanding, and fits into the window.
use nps_mux.Base.{
  ℕ, zero, suc, ◌+◌, ◌-◌, ◌%◌, ◌^◌, ◌≤◌, ◌<◌, ◌≡◌, refl, arith, bit_and_mask, Bool, true, some,
  List, [],
}
use nps_mux.Window.{window_pack}
use nps_mux.Window.Word.{Fits31, unpack-window_pack}
use nps_mux.SendWindow.{SendWindow, sent, cut, attempt, write_to, free_space, set_wait, segment}
use nps_mux.SendWindow.SetSize.{remaining_size_lem}

-- What a segment changes.
pub record Counted (w w' : SendWindow) (m s l : ℕ) (b : Bool) : Type 0 where
  pub word : w'.max_size_done ≡ window_pack m (s + l) b
  pub room : s + l ≤ m
  pub free : s < m
  pub open_still : w'.close_op ≡ w.close_op
  pub channel : w'.set_size_open ≡ w.set_size_open

module _ (w : SendWindow) (m s : ℕ) (b : Bool) (word : w.max_size_done ≡ window_pack m s b)
    (hm : Fits31 m) (hs : Fits31 s) where
  pub free_space_lem : free_space w ≡ m - s
  unfolding free_space
  free_space_lem = ground (arith, word, unpack-window_pack m s b, remaining_size_lem m s)

  cut_word :
      (n : ℕ) (w' : SendWindow) (p : List ℕ) (l : ℕ) (part : Bool)
      → m - s ≡ suc n
      → cut w (suc n) ≡ some (w', segment p l part)
      → Counted w w' m s l b
  unfolding cut sent
  cut_word n w' p l part e h =
      ground (arith, word, unpack-window_pack m s b, bit_and_mask 31 ((s + l) % 2 ^ 32))

  pub write_to-word :
      (w' : SendWindow) (p : List ℕ) (l : ℕ) (part : Bool)
      → write_to [] w ≡ some ([], w', segment p l part)
      → Counted w w' m s l b
  unfolding write_to attempt
  write_to-word w' p l part h = go (m - s) free_space_lem refl
    where
      go : (n : ℕ) → free_space w ≡ n → m - s ≡ n → Counted w w' m s l b
      go zero q e = ground (arith, q)
      go (suc n) q e = cut_word n w' p l part e (ground (arith, q))

  pub set_wait_lem : set_wait w.max_size_done ≡ window_pack m s true
  unfolding set_wait
  set_wait_lem = ground (arith, word, unpack-window_pack m s b)
