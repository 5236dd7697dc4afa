-- ===== src/Entity/Times.antt =====
-- orm.go: points in time in the serialized form.
use trixorm.Shared.{◌-◌, ◌≡◌, Bool, true, false, if◌then◌else◌, arith}
use trixorm.Int64.{ℤ, pos, negsuc, IsInt64, int_eq, is_positive, add64, sub64}
use trixorm.Entity.{stored_seconds, stored_time, zero_date_seconds, time_stamp_seconds}

-- The second that the zero date stands for when it is read back as it is.
abbrev pub zero_date_unix : ℤ
zero_date_unix = negsuc (time_stamp_seconds - zero_date_seconds - 1)

-- Unix seconds as they come back from a nullable column.
abbrev pub kept_seconds : ℤ → ℤ
kept_seconds u = if is_positive u then u else zero_date_unix

pub stored_seconds-IsInt64 : (u : ℤ) → IsInt64 u → IsInt64 (stored_seconds u)
unfolding stored_seconds add64
stored_seconds-IsInt64 (pos n) h = ground arith
stored_seconds-IsInt64 (negsuc n) h = ground arith

pub stored_time-IsInt64 : (z : Bool) (u : ℤ) → IsInt64 u → IsInt64 (stored_time z u)
unfolding stored_time
stored_time-IsInt64 true u h = omega arith
stored_time-IsInt64 false u h = stored_seconds-IsInt64 u h

pub sub64-stored_seconds :
    (u : ℤ) → IsInt64 u → sub64 (stored_seconds u) (pos time_stamp_seconds) ≡ kept_seconds u
unfolding stored_seconds add64 sub64
sub64-stored_seconds (pos n) h = ground arith
sub64-stored_seconds (negsuc n) h = ground arith

-- Only what is not after 1970 is stored as the zero date.
pub stored_seconds-zero :
    (u : ℤ) → IsInt64 u → is_positive u ≡ false → stored_seconds u ≡ pos zero_date_seconds
unfolding stored_seconds
stored_seconds-zero u h e = rw e

pub stored_seconds-ne_zero :
    (u : ℤ)
    → IsInt64 u
    → is_positive u ≡ true
    → int_eq (stored_seconds u) (pos zero_date_seconds) ≡ false
unfolding stored_seconds add64
stored_seconds-ne_zero (pos n) h e = ground arith
stored_seconds-ne_zero (negsuc n) h e = ground arith
