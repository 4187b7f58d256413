-- ===== src/Ppd/Disk.antt =====
-- grage-ppd/app/src/core/ppd-persistence.c: sectors of the mapped disk. `disk` is what can be
-- reached from `diskStartAddress` on: whole pages, so the file and what its last page holds behind
-- it. The code tests no bounds: `none` is an access behind the last page, where the mapping ends.
use grage_fat.Base.{
  ℕ, ◌+◌, ◌*◌, ◌<◌, ◌≤◌, ◌^◌, ◌≡◌, ◌≢◌, Option, none, some, List, u32, length, copy_into, copy_from,
  copy_into-IsCopied, leb, Bool-cases, arith, leb→le, inl, inr, ◌⊎◌,
}
use grage_fat.Nipc.{DiskSector, sector_size}

unfoldable pub write_sector : List ℕ → DiskSector → Option (List ℕ)
write_sector disk s = copy_into disk (u32 (s.sector_number * sector_size)) s.sector_content

unfoldable pub read_sector : List ℕ → ℕ → Option DiskSector
read_sector disk sector_id = elim (copy_from disk (u32 (sector_id * sector_size)) sector_size) [
  | none ↦ none
  | some content ↦ some (record { sector_number = sector_id; sector_content = content })
]

-- A write that stays on the disk is read back; it leaves every other sector as it was. The bounds
-- are those below which no two sectors have one offset, which wraps at 2 ^ 32.
pub read_sector-write_sector :
    (disk : List ℕ) (s : DiskSector) (disk' : List ℕ)
    → length s.sector_content ≡ sector_size
    → s.sector_number < 2 ^ 23
    → write_sector disk s ≡ some disk'
    → (read_sector disk' s.sector_number ≡ some s)
      × (length disk' ≡ length disk)
      × ((n : ℕ) → n ≢ s.sector_number → n < 2 ^ 23 → read_sector disk' n ≡ read_sector disk n)
unfolding write_sector read_sector
read_sector-write_sector disk s disk' full below e =
    let c = copy_into-IsCopied disk (u32 (s.sector_number * 512)) s.sector_content disk' e in
    (
      rw (rw full at c.copied, read_sector),
      c.same_length,
      λ n other n_below. rw (
        c.kept (u32 (n * 512)) 512
            (apart s.sector_number n (length s.sector_content) full below n_below other),
        read_sector,
      ),
    )
  where
    apart :
        (k n size : ℕ)
        → size ≡ 512
        → k < 2 ^ 23
        → n < 2 ^ 23
        → n ≢ k
        → (u32 (k * 512) + size ≤ u32 (n * 512)) ⊎ (u32 (n * 512) + 512 ≤ u32 (k * 512))
    apart k n size z h i o = elim (Bool-cases (leb k n)) [
      | inl e ↦ inl (omega (arith, leb→le k n e, o))
      | inr e ↦ inr (let less : n < k = ground arith in omega (arith, less))
    ]
