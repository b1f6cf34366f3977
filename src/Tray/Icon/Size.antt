-- ===== src/Tray/Icon/Size.antt =====
-- The size of the icon's buffer (src/tray/icon.rs).
use wardoff.Prelude.{ℕ, zero, suc, ◌-◌, ◌*◌, length, length-append, ◌≡◌, refl, arith}
use wardoff.Tray.Icon.{
  TrayIconState, blocked, allowed, Pixel, icon_size, fill_of, pixel, row_bytes, rows_bytes,
  icon_bytes,
}

length-pixel : (fill : Pixel) (x y : ℕ) → length fill ≡ 4 → length (pixel fill x y) ≡ 4
unfolding pixel
length-pixel fill x y h = ground (arith, h)

length-row_bytes :
    (fill : Pixel) (y left : ℕ) → length fill ≡ 4 → length (row_bytes fill y left) ≡ left * 4
unfolding row_bytes
length-row_bytes fill y zero h = refl
length-row_bytes fill y (suc left) h = omega (
  arith,
  length-append (pixel fill (icon_size - suc left) y) (row_bytes fill y left),
  length-pixel fill (icon_size - suc left) y h,
  length-row_bytes fill y left h,
)

length-rows_bytes :
    (fill : Pixel) (left : ℕ) → length fill ≡ 4 → length (rows_bytes fill left) ≡ left * 128
unfolding rows_bytes
length-rows_bytes fill zero h = refl
length-rows_bytes fill (suc left) h = omega (
  arith,
  length-append (row_bytes fill (icon_size - suc left) icon_size) (rows_bytes fill left),
  length-row_bytes fill (icon_size - suc left) icon_size h,
  length-rows_bytes fill left h,
)

length-fill_of : (state : TrayIconState) → length (fill_of state) ≡ 4
unfolding fill_of
length-fill_of blocked = refl
length-fill_of allowed = refl

-- The buffer has four bytes for each of the 32 × 32 pixels, as `Icon::from_rgba` demands.
pub length-icon_bytes :
    (state : TrayIconState) → length (icon_bytes state) ≡ icon_size * icon_size * 4
unfolding icon_bytes
length-icon_bytes state = length-rows_bytes (fill_of state) icon_size (length-fill_of state)
