-- ===== src/Window/Word.antt =====
-- The word of a window as three numbers.
use nps_mux.Base.{
  ℕ, ◌+◌, ◌*◌, ◌/◌, ◌%◌, ◌^◌, ◌<◌, ◌≡◌, ap, ◌∙◌, arith, bit_or, bit_and_mask, bit_or_fields, Bool,
  true, false,
}
use nps_mux.Window.{window_unpack, window_pack}

abbrev pub Fits31 : ℕ → Type 0
Fits31 n = n < 2 ^ 31

abbrev pub flag : Bool → ℕ
flag true = 1
flag false = 0

-- Three disjoint fields joined by `|`.
three_fields :
    (w m d : ℕ)
    → m < 2 ^ 31
    → d < 2 ^ 32
    → bit_or (bit_or (w * 2 ^ 63) (m * 2 ^ 32)) d ≡ w * 2 ^ 63 + m * 2 ^ 32 + d
three_fields w m d hm hd =
    ap (λ (t : ℕ). bit_or t d) (bit_or_fields 63 w (m * 2 ^ 32) (omega arith) ∙ joined)
    ∙ bit_or_fields 32 (w * 2 ^ 31 + m) d hd
    ∙ omega arith
  where
    joined : w * 2 ^ 63 + m * 2 ^ 32 ≡ (w * 2 ^ 31 + m) * 2 ^ 32
    joined = omega arith

-- `pack` as a sum.
pub window_pack_lem :
    (m d : ℕ) (w : Bool) → window_pack m d w ≡ flag w * 2 ^ 63 + m % 2 ^ 31 * 2 ^ 32 + d % 2 ^ 31
unfolding window_pack
window_pack_lem m d true =
    rw (bit_and_mask 31 m, bit_and_mask 31 d)
      (three_fields 1 (m % 2 ^ 31) (d % 2 ^ 31) (omega arith) (omega arith))
window_pack_lem m d false =
    rw (bit_and_mask 31 m, bit_and_mask 31 d)
      (three_fields 0 (m % 2 ^ 31) (d % 2 ^ 31) (omega arith) (omega arith))

-- The size, the count and the wait flag are unpacked from the word that packs them, each number cut
-- to 31 bits.
pub unpack-window_pack :
    (m d : ℕ) (w : Bool) → window_unpack (window_pack m d w) ≡ (m % 2 ^ 31, d % 2 ^ 31, w)
unfolding window_unpack
unpack-window_pack m d true = ground (
  arith,
  window_pack_lem m d true,
  bit_and_mask 31 (window_pack m d true / 2 ^ 32),
  bit_and_mask 31 (window_pack m d true),
  bit_and_mask 1 (window_pack m d true / 2 ^ 63),
)
unpack-window_pack m d false = ground (
  arith,
  window_pack_lem m d false,
  bit_and_mask 31 (window_pack m d false / 2 ^ 32),
  bit_and_mask 31 (window_pack m d false),
  bit_and_mask 1 (window_pack m d false / 2 ^ 63),
)

-- The size may be given in any range: it is cut to 31 bits.
pub window_pack-mod : (m d : ℕ) (w : Bool) → window_pack (m % 2 ^ 31) d w ≡ window_pack m d w
window_pack-mod m d w = omega (arith, window_pack_lem m d w, window_pack_lem (m % 2 ^ 31) d w)
