-- ===== src/Ppd/Sync/Finish.antt =====
-- The end of a copy maps the disk anew.
use grage_fat.Base.{
  ℕ, [], ◌<◌, ◌^◌, ◌≡◌, ap, sym, subst, ltb, Bool, ◌≤◌, true, false, some, List, Bool-cases, inl,
  inr, arith, length, u32, ◌==◌,
}
use grage_fat.Ppd.State.{Ppd, pages}
use grage_fat.Ppd.Sync.{finish_replication, initialize_volume_size, unmap_device, map_device}

initialize_volume_size-some :
    (p : Ppd) (bytes : List ℕ)
    → p.volume_file ≡ some bytes
    → initialize_volume_size p ≡ some (record p { volume_size = u32 (length bytes) })
unfolding initialize_volume_size
initialize_volume_size-some p bytes f = rw f

not_ltb : (a b : ℕ) → a ≤ b → ltb b a ≡ false
not_ltb a b h = ground arith

unmap_device-some :
    (p : Ppd) (bytes : List ℕ)
    → p.volume_file ≡ some bytes
    → (p.volume_size == 0) ≡ false
    → pages p.volume_size ≤ pages p.mapped_size
    → unmap_device p ≡ some (record p { mapped = false })
unfolding unmap_device
unmap_device-some p bytes f h fits =
    rw (f, h, not_ltb (pages p.volume_size) (pages p.mapped_size) fits)

map_device-some :
    (p : Ppd) (bytes : List ℕ)
    → p.volume_file ≡ some bytes
    → (p.volume_size == 0) ≡ false
    → map_device p ≡ some (record p { mapped = true; mapped_size = p.volume_size; page_rest = [] })
unfolding map_device
map_device-some p bytes f h = rw (f, h)

-- The mapping, if there is one, has as many pages as a volume of `n` bytes.
abbrev pub Covers : ℕ → Bool → ℕ → Type 0
Covers n mapped size = mapped ≡ true → pages n ≤ pages size

pub finish_replication-some :
    (p : Ppd) (bytes : List ℕ)
    → p.volume_file ≡ some bytes
    → 0 < length bytes
    → length bytes < 2 ^ 32
    → p.replicating ≡ true
    → p.replication_process_active ≡ true
    → Covers (length bytes) p.mapped p.mapped_size
    → finish_replication p
      ≡ some (record p {
        replicating = false;
        volume_size = length bytes;
        mapped = true;
        mapped_size = length bytes;
        page_rest = [];
        replication_process_active = false;
      })
unfolding finish_replication initialize_volume_size
finish_replication-some p bytes f h k r a covers =
    let size : u32 (length bytes) ≡ length bytes = omega arith in
    let sized : Ppd = record p { replicating = false; volume_size = u32 (length bytes) } in
    let some_bytes : (u32 (length bytes) == 0) ≡ false = ground (arith, size) in
    rw (a, r, initialize_volume_size-some (record p { replicating = false }) bytes f)
      (elim (Bool-cases p.mapped) [
        | inl m ↦
            rw
              (
                m,
                unmap_device-some (record sized { mapped = true }) bytes f some_bytes
                    (subst (λ n. pages n ≤ pages p.mapped_size) (sym size) (covers m)),
                map_device-some (record sized { mapped = false }) bytes f some_bytes,
              )
              (ap
                (λ n. some (record p {
                  replicating = false;
                  volume_size = n;
                  mapped = true;
                  mapped_size = n;
                  page_rest = [];
                  replication_process_active = false;
                }))
                size)
        | inr m ↦
            rw (m, map_device-some (record sized { mapped = false }) bytes f some_bytes)
              (ap
                (λ n. some (record p {
                  replicating = false;
                  volume_size = n;
                  mapped = true;
                  mapped_size = n;
                  page_rest = [];
                  replication_process_active = false;
                }))
                size)
      ])
