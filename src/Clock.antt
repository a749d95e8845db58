-- ===== src/Clock.antt =====
-- The part of package time that the program uses. An instant counts the nanoseconds since the zero
-- Time, without bound; the monotonic reading of a Time is not modelled. A Duration is an int64.
use dhcp_lease_observer.Prelude.{
  ℕ, ◌+◌, ◌-◌, ◌*◌, ◌^◌, ◌<◌, ◌≡◌, ◌∙◌, ap, Bool, arith, leb, ltb, if◌then◌else◌, ℤ, pos, negsuc,
  pos_part, neg_part, ◌+ℤ◌, ◌-ℤ◌, scale, ltb_ℤ, eqb_ℤ, wrap64, wrap64-in_range,
}

-- `time.Time`: an instant, and the offset of its location from UTC in seconds.
pub record Time : Type 0 where
  pub instant : ℤ
  pub offset : ℤ

abbrev pub zero_time : Time
zero_time = record { instant = pos 0; offset = pos 0 }

-- `t.IsZero()`
abbrev pub is_zero_time : Time → Bool
is_zero_time t = eqb_ℤ t.instant (pos 0)

-- `t.UTC()`
abbrev pub utc : Time → Time
utc t = record t { offset = pos 0 }

-- `t.Before(u)` and `t.After(u)`
abbrev pub before : Time → Time → Bool
before t u = ltb_ℤ t.instant u.instant

abbrev pub after : Time → Time → Bool
after t u = ltb_ℤ u.instant t.instant

-- `t.Add(d)`
unfoldable pub add_time : Time → ℤ → Time
add_time t d = record t { instant = t.instant +ℤ d }

-- `t.Sub(u)`, which stops at the bounds of int64.
unfoldable pub sub_time : Time → Time → ℤ
sub_time t u =
    let d = t.instant -ℤ u.instant in
    if leb (2 ^ 63) (pos_part d)
    then pos (2 ^ 63 - 1)
    else if ltb (2 ^ 63) (neg_part d)
    then negsuc (2 ^ 63 - 1)
    else d

abbrev pub nanoseconds : ℕ
nanoseconds = 1_000_000_000

-- `time.Duration(n) * time.Second`
unfoldable pub seconds : ℤ → ℤ
seconds n = wrap64 (scale nanoseconds n)

-- `-d`
unfoldable pub negate : ℤ → ℤ
negate d = wrap64 (pos 0 -ℤ d)

pub scale-pos : (n : ℕ) → scale nanoseconds (pos n) ≡ pos (n * nanoseconds)
unfolding scale
scale-pos n = ground arith

pub scale_parts :
    (n : ℤ)
    → pos_part (scale nanoseconds n) + nanoseconds * neg_part n
      ≡ neg_part (scale nanoseconds n) + nanoseconds * pos_part n
unfolding scale
scale_parts n = ground arith

-- A count of seconds up to the largest that fits keeps its value as a Duration.
pub seconds-pos : (n : ℕ) → n * nanoseconds < 2 ^ 63 → seconds (pos n) ≡ pos (n * nanoseconds)
unfolding seconds
seconds-pos n h = ap wrap64 (scale-pos n) ∙ wrap64-in_range (pos (n * nanoseconds)) h (omega arith)

-- A Duration that is not negative has its opposite.
pub negate-pos : (n : ℕ) → n < 2 ^ 63 → negate (pos n) ≡ pos 0 -ℤ pos n
unfolding negate ◌-ℤ◌
negate-pos n h = wrap64-in_range (pos 0 -ℤ pos n) (ground arith) (ground arith)
