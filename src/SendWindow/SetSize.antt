-- ===== src/SendWindow/SetSize.antt =====
-- `SetSize` on a message of the receiver, and the count of free bytes.
use nps_mux.Base.{
  ℕ, ◌-◌, ◌≤◌, ◌<◌, ◌≡◌, arith, bit_and_mask, Bool, true, false, ◌&&◌, some, [], ltb, leb, ◌==◌,
}
use nps_mux.Window.{window_pack}
use nps_mux.Window.Word.{Fits31, unpack-window_pack}
use nps_mux.SendWindow.{SendWindow, remaining_size, set_size, taken}

-- The free part of a window is its size less what was sent, and never negative.
pub remaining_size_lem : (m s : ℕ) → Fits31 m → Fits31 s → remaining_size m s ≡ m - s
unfolding remaining_size
remaining_size_lem m s hm hs = ground (arith, bit_and_mask 31 m, bit_and_mask 31 s)

module _ (w : SendWindow) (max_size send new_max read : ℕ) (wait flag : Bool)
    (open_still : w.close_op ≡ false) (word : w.max_size_done ≡ window_pack max_size send wait)
    (hm : Fits31 max_size) (hs : Fits31 send) (hn : Fits31 new_max) (hr : Fits31 read) where
  -- A report of more bytes than are outstanding leaves an open window as it is, and signals nobody.
  pub set_size_excess :
      send < read → set_size [] taken w (window_pack new_max read flag) ≡ some (w, false, false)
  unfolding set_size
  set_size_excess over =
      ground (arith, unpack-window_pack new_max read flag, unpack-window_pack max_size send wait)

  -- A report of at most the outstanding bytes which changes something: the bytes read are taken
  -- off, the new size is taken over, the wait flag stays exactly if it was set and there is no
  -- room, and the writer is signalled exactly if it was set and there is room.
  pub set_size_slides :
      read ≤ send
      → (read == 0 && new_max == max_size) ≡ false
      → w.set_size_open ≡ true
      → set_size [] taken w (window_pack new_max read flag)
        ≡ some (
          record w {
            max_size_done = window_pack new_max (send - read) (wait && leb new_max (send - read));
          },
          false,
          wait && ltb (send - read) new_max,
        )
  unfolding set_size
  set_size_slides under change channel = ground (
    arith,
    unpack-window_pack new_max read flag,
    unpack-window_pack max_size send wait,
    remaining_size_lem new_max (send - read),
  )

  -- A report that changes nothing is dropped.
  pub set_size_same :
      read ≡ 0
      → new_max ≡ max_size
      → set_size [] taken w (window_pack new_max read flag) ≡ some (w, false, false)
  unfolding set_size
  set_size_same none_read same_max =
      ground (arith, unpack-window_pack new_max read flag, unpack-window_pack max_size send wait)
