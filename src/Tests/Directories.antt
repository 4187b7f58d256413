-- ===== src/Tests/Directories.antt =====
-- A moment and its entry, and a directory's block in which a place is free.
use grage_fat.Base.{
  ℕ, ◌+◌, ◌≤◌, ◌<◌, ◌≡◌, refl, true, false, some, ◌++◌, replicate, arith, zero, suc,
}
use grage_fat.Pfs.Dates.{Tm, fill_date, fill_clock, get_time, get_time-fill_date}
use grage_fat.Pfs.Blocks.{Block}
use grage_fat.Pfs.Create.{find_place, dirent_is_free}
use grage_fat.Pfs.Create.FirstPlace.{IsFirstPair, find_place-IsFirstPair, has_free}
use grage_fat.Tests.Files.{session, opened}

-- 15 December 2011, 23:59:58.
abbrev moment : Tm
moment = record { tm_sec = 58; tm_min = 59; tm_hour = 23; tm_mday = 15; tm_mon = 11; tm_year = 111 }

get_time-fill_date_example :
    get_time
      (record (opened.short_entry) { wrt_date = fill_date moment; wrt_time = fill_clock moment })
    ≡ record { s = 58; m = 59; h = 23; d = 15; mo = 12; y = 111 }
get_time-fill_date_example = get_time-fill_date moment opened.short_entry (record {
  sec = omega arith;
  min = omega arith;
  hour = omega arith;
  mday = omega arith;
  mon = omega arith;
  since = omega arith;
  until = omega arith;
})

-- Two taken entries, a free one between two taken ones, and then free ones.
abbrev half_full : Block
half_full = record {
  id = 2;
  content =
      replicate 32 65 ++ replicate 32 65 ++ replicate 32 229 ++ replicate 32 65 ++ replicate 3968 0;
}

first_pair : IsFirstPair half_full 0 4
unfolding dirent_is_free
first_pair = record {
  behind = omega arith;
  inside = omega arith;
  free = refl;
  next_free = refl;
  taken = taken_before;
}
  where
    taken_before :
        (j : ℕ) → 0 ≤ j → j < 4 → has_free half_full j ≡ true → has_free half_full (j + 1) ≡ false
    taken_before zero low high e = refl
    taken_before (suc zero) low high e = absurd (cc)
    taken_before (suc (suc zero)) low high e = refl
    taken_before (suc (suc (suc zero))) low high e = absurd (cc)
    taken_before (suc (suc (suc (suc j)))) low high e = absurd (omega arith)

find_place-IsFirstPair_example :
    find_place 5 half_full 2 0 session ≡ some ((half_full, 192), session)
find_place-IsFirstPair_example =
    find_place-IsFirstPair 5 2 0 4 half_full session refl refl first_pair (omega arith)
