-- ===== src/Ppd/Geometry.antt =====
-- grage-ppd/app/src/core/ppd-utils.c: cylinders and sectors. The `int` numbers are those from 0
-- on, below the width; `none` is a division by 0, which ends the process.
use grage_fat.Base.{
  ℕ, ◌+◌, ◌*◌, ◌-◌, ◌/◌, ◌<◌, ◌≡◌, false, ◌%◌, div-add-mod', mod-lt, Option, none, some, ◌==◌,
  if◌then◌else◌, arith,
}

unfoldable pub get_cilinder_from_sector : ℕ → ℕ → Option ℕ
get_cilinder_from_sector per sector = if per == 0 then none else some (sector / per)

unfoldable pub get_sectorofcilinder_from_sector : ℕ → ℕ → Option ℕ
get_sectorofcilinder_from_sector per sector =
    if per == 0 then none else some (sector - (sector / per) * per)

unfoldable pub get_sector_from_sectorofcilinder : ℕ → ℕ → ℕ → ℕ
get_sector_from_sectorofcilinder per sector cilinder = cilinder * per + sector

div_mul_le : (a b : ℕ) → 0 < b → ((a / b) * b + (a - (a / b) * b) ≡ a) × (a - (a / b) * b < b)
div_mul_le a b h =
    let whole : (a / b) * b + a % b ≡ a = div-add-mod' a b in
    let small : a % b < b = mod-lt a h in (omega arith, omega arith)

-- The two coordinates of a sector name it, and the one within the cylinder is below the number of
-- sectors of a cylinder, whatever number other than 0 that is.
get_sector_from_sectorofcilinder-get_cilinder_from_sector :
    (per sector : ℕ)
    → 0 < per
    → (c s : ℕ) × (get_cilinder_from_sector per sector ≡ some c)
      × (get_sectorofcilinder_from_sector per sector ≡ some s)
      × (s < per)
      × (get_sector_from_sectorofcilinder per s c ≡ sector)
unfolding get_cilinder_from_sector get_sectorofcilinder_from_sector get_sector_from_sectorofcilinder
get_sector_from_sectorofcilinder-get_cilinder_from_sector per sector h =
    let some_per : (per == 0) ≡ false = ground arith in
    (
      sector / per,
      sector - (sector / per) * per,
      rw some_per,
      rw some_per,
      (div_mul_le sector per h).1,
      (div_mul_le sector per h).0,
    )
