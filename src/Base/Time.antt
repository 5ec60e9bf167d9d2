-- ===== src/Base/Time.antt =====
-- Package time: an instant is a number of seconds since the start of year 1 and of nanoseconds within
-- the second, as in `time.Time` without its monotonic reading and location.
use wb_l.Base.{◌==◌, ltb, ◌&&◌, Bool, ℕ, ◌||◌}
use wb_l.Base.Int.{ℤ, pos, add64, ltb_ℤ, eqb_ℤ}

pub record Time : Type 0 where
  pub sec : ℤ
  pub nsec : ℕ

-- `t.After(u)`
unfoldable pub after : Time → Time → Bool
after t u = ltb_ℤ u.sec t.sec || (eqb_ℤ t.sec u.sec && ltb u.nsec t.nsec)

-- `t.IsZero()`
unfoldable pub is_zero : Time → Bool
is_zero t = eqb_ℤ t.sec (pos 0) && t.nsec == 0

-- Seconds from the start of year 1 to that of 1970.
abbrev pub unix_epoch : ℤ
unix_epoch = pos 62135596800

-- `time.Unix(s, 0)`
unfoldable pub unix : ℤ → Time
unfolding add64
unix s = record { sec = add64 s unix_epoch; nsec = 0 }
