-- ===== src/Pfs/Dates.antt =====
-- grage-pfs/app/src/core/pfs-fat-utils.c, pfs_fat32_utils_fillTime and pfs_fat32_utils_getTime: the
-- two words of an entry that hold a moment, on the fields of C's `struct tm`. What localtime_r gives
-- goes in, and what mktime takes comes out. An `|` of parts that share no bit is a sum.
use grage_fat.Base.{ℕ, ◌+◌, ◌-◌, ◌*◌, ◌/◌, ◌%◌, ◌≤◌, ◌<◌, ◌^◌, ◌≡◌, arith, u16}
use grage_fat.Pfs.DirEntry.{DirEntry}

-- The year counts from 1900, and the month from 0.
pub record Tm : Type 0 where
  pub tm_sec : ℕ
  pub tm_min : ℕ
  pub tm_hour : ℕ
  pub tm_mday : ℕ
  pub tm_mon : ℕ
  pub tm_year : ℕ

unfoldable pub fill_date : Tm → ℕ
fill_date t = u16 (
    (t.tm_mday % 2 ^ 5 + (t.tm_mon + 1) * 2 ^ 5) % 2 ^ 9
    + (t.tm_year + 1900 + 2 ^ 16 - 1980) % 2 ^ 16 * 2 ^ 9)

unfoldable pub fill_clock : Tm → ℕ
fill_clock t = u16 ((t.tm_sec / 2 % 2 ^ 5 + t.tm_min * 2 ^ 5) % 2 ^ 11 + t.tm_hour * 2 ^ 11)

abbrev low_byte : ℕ → ℕ
low_byte x = x % 2 ^ 8

abbrev high_byte : ℕ → ℕ
high_byte x = x / 2 ^ 8 % 2 ^ 8

-- What `pfs_fat32_utils_getTime` passes to `pfs_fat32_utils_processTime`, which takes 1 from the
-- month and calls mktime.
pub record TimeArgs : Type 0 where
  pub s : ℕ
  pub m : ℕ
  pub h : ℕ
  pub d : ℕ
  pub mo : ℕ
  pub y : ℕ

unfoldable pub get_time : DirEntry → TimeArgs
get_time entry = record {
  s = low_byte entry.wrt_time % 2 ^ 5 * 2;
  m = high_byte entry.wrt_time % 2 ^ 3 * 2 ^ 3 + low_byte entry.wrt_time / 2 ^ 5;
  h = high_byte entry.wrt_time / 2 ^ 3;
  d = low_byte entry.wrt_date % 2 ^ 5;
  mo = high_byte entry.wrt_date % 2 * 2 ^ 3 + low_byte entry.wrt_date / 2 ^ 5;
  y = high_byte entry.wrt_date / 2 + 80;
}

-- The fields of a moment from 1980 to 2107.
pub record IsMoment (t : Tm) : Type 0 where
  pub sec : t.tm_sec < 64
  pub min : t.tm_min < 64
  pub hour : t.tm_hour < 32
  pub mday : t.tm_mday < 32
  pub mon : t.tm_mon < 12
  pub since : 80 ≤ t.tm_year
  pub until : t.tm_year < 208

-- A moment from 1980 to 2107 that is put in an entry is read back, but for an odd second; the month
-- counts from 1 then.
pub get_time-fill_date :
    (t : Tm) (entry : DirEntry)
    → IsMoment t
    → get_time (record entry { wrt_date = fill_date t; wrt_time = fill_clock t }) ≡ record {
      s = t.tm_sec / 2 * 2;
      m = t.tm_min;
      h = t.tm_hour;
      d = t.tm_mday;
      mo = t.tm_mon + 1;
      y = t.tm_year;
    }
unfolding get_time
get_time-fill_date t entry is =
    same_args (sec t is) (min t is) (hour t is) (mday t is) (mon t is) (year t is)
  where
    same_args :
        {s s' m m' h h' d d' mo mo' y y' : ℕ}
        → s ≡ s'
        → m ≡ m'
        → h ≡ h'
        → d ≡ d'
        → mo ≡ mo'
        → y ≡ y'
        → ◌≡◌ {A = TimeArgs}
            (record { s = s; m = m; h = h; d = d; mo = mo; y = y })
            (record { s = s'; m = m'; h = h'; d = d'; mo = mo'; y = y' })
    same_args e1 e2 e3 e4 e5 e6 = cc

    sec : (t : Tm) → IsMoment t → low_byte (fill_clock t) % 2 ^ 5 * 2 ≡ t.tm_sec / 2 * 2
    sec t is = unfold fill_clock in omega (arith, is.sec)

    min :
        (t : Tm)
        → IsMoment t
        → high_byte (fill_clock t) % 2 ^ 3 * 2 ^ 3 + low_byte (fill_clock t) / 2 ^ 5 ≡ t.tm_min
    min t is = unfold fill_clock in omega (arith, is.sec, is.min)

    hour : (t : Tm) → IsMoment t → high_byte (fill_clock t) / 2 ^ 3 ≡ t.tm_hour
    hour t is = unfold fill_clock in omega (arith, is.min, is.hour)

    mday : (t : Tm) → IsMoment t → low_byte (fill_date t) % 2 ^ 5 ≡ t.tm_mday
    mday t is = unfold fill_date in omega (arith, is.mday)

    mon :
        (t : Tm)
        → IsMoment t
        → high_byte (fill_date t) % 2 * 2 ^ 3 + low_byte (fill_date t) / 2 ^ 5 ≡ t.tm_mon + 1
    mon t is = unfold fill_date in omega (arith, is.mday, is.mon)

    year : (t : Tm) → IsMoment t → high_byte (fill_date t) / 2 + 80 ≡ t.tm_year
    year t is = unfold fill_date in omega (arith, is.mon, is.since, is.until)
