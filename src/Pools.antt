-- ===== src/Pools.antt =====
-- pool.go: the pools of buffers, of packagers and of list elements. A sync.Pool is the list of what was put
-- back: Get takes any of it, or makes a new one, and any of it may go at any time.
pub mod Runs
pub mod Clean
mod Tests
use nps_mux.Base.{
  ℕ, zero, suc, false, Option, none, some, ◌>>=◌, List, [], ◌∷◌, get_elem?, replicate,
}
use nps_mux.Flag.{pool_size_window}
use nps_mux.Stream.{Slice, nil_slice, reslice}
use nps_mux.Packager.{MuxPackager, mux_reset}
use nps_mux.ReceiveQueue.{ListElement, reset_element}

-- The list without what is at a position.
abbrev pub remove {ℓ} : {A : Type ℓ} → List A → ℕ → List A
remove [] i = []
remove (x ∷ xs) zero = xs
remove (x ∷ xs) (suc i) = x ∷ remove xs i

-- `sync.Pool.Get`: what is at position `i`, or a new value where nothing is there.
abbrev pub sync_get {ℓ} : {A : Type ℓ} → A → List A → ℕ → List A × A
sync_get new items i = elim (get_elem? items i) [
  | none ↦ (items, new)
  | some x ↦ (remove items i, x)
]

-- What `New` of newWindowBufferPool makes.
abbrev pub new_window_buffer : Slice
new_window_buffer = record { arr = replicate pool_size_window 0; len = pool_size_window }

-- `windowBufferPool.Get`
unfoldable pub window_get : List Slice → ℕ → Option (List Slice × Slice)
window_get items i = do
  let (left, x) = sync_get new_window_buffer items i
  buf ← reslice x pool_size_window
  some (left, buf)

-- `windowBufferPool.Put`
unfoldable pub window_put : Slice → List Slice → Option (List Slice)
window_put x items = do full ← reslice x pool_size_window; some (full ∷ items)

abbrev pub new_packager : MuxPackager
new_packager = record {
  flag = 0;
  id = 0;
  window = 0;
  base = record { buf = nil_slice; length = 0; content = nil_slice };
}

-- `muxPackagerPool.Get` and `Put`
abbrev pub packager_get : List MuxPackager → ℕ → Option (List MuxPackager × MuxPackager)
packager_get items i = some (sync_get new_packager items i)

unfoldable pub packager_put : MuxPackager → List MuxPackager → Option (List MuxPackager)
packager_put p items = some (mux_reset p ∷ items)

abbrev pub blank_element : ListElement
blank_element = record { buf = []; l = 0; part = false }

-- `listElementPool.Get` and `Put`
abbrev pub element_get : List ListElement → ℕ → Option (List ListElement × ListElement)
element_get items i = some (sync_get blank_element items i)

unfoldable pub element_put : ListElement → List ListElement → Option (List ListElement)
element_put e items = some (reset_element e ∷ items)
