-- ===== src/Tray/Icon.antt =====
-- The tray icon's pixels, src/tray/icon.rs. A distance from the centre is compared by its square, in
-- quarters of a pixel: the coordinates are halves, and the source's square root rounds correctly.
pub mod Size
use wardoff.Prelude.{ℕ, zero, suc, ◌+◌, ◌-◌, ◌*◌, leb, List, [], ◌∷◌, ◌++◌, if◌then◌else◌}

pub data TrayIconState : Type 0 where
  blocked allowed : TrayIconState

abbrev pub icon_size : ℕ
icon_size = 32

abbrev pub Pixel : Type 0
Pixel = List ℕ

abbrev pub border_color : Pixel
border_color = 32 ∷ 32 ∷ 32 ∷ 255 ∷ []

abbrev pub clear : Pixel
clear = 0 ∷ 0 ∷ 0 ∷ 0 ∷ []

unfoldable pub fill_of : TrayIconState → Pixel
fill_of blocked = 217 ∷ 72 ∷ 72 ∷ 255 ∷ []
fill_of allowed = 52 ∷ 168 ∷ 83 ∷ 255 ∷ []

-- Twice the distance of a coordinate from 15.5.
abbrev pub offset : ℕ → ℕ
offset x = (2 * x - 31) + (31 - 2 * x)

-- Four times the squared distance; the radii 9.5 and 12.5 are 19 and 25 halves.
unfoldable pub pixel : Pixel → ℕ → ℕ → Pixel
pixel fill x y =
    let squared = offset x * offset x + offset y * offset y in
    if leb squared (19 * 19) then fill else if leb squared (25 * 25) then border_color else clear

-- The rows and columns in order, by the number left; `rgba` is filled from the front.
unfoldable pub row_bytes : Pixel → ℕ → ℕ → List ℕ
row_bytes fill y zero = []
row_bytes fill y (suc left) = pixel fill (icon_size - suc left) y ++ row_bytes fill y left

unfoldable pub rows_bytes : Pixel → ℕ → List ℕ
rows_bytes fill zero = []
rows_bytes fill (suc left) = row_bytes fill (icon_size - suc left) icon_size ++ rows_bytes fill left

-- The buffer of `icon_for_state`.
unfoldable pub icon_bytes : TrayIconState → List ℕ
icon_bytes state = rows_bytes (fill_of state) icon_size
