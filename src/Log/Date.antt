-- ===== src/Log/Date.antt =====
-- `formatDate` of pkg/log/config.go: the time of an entry as text.
use polaris_sidecar.Prelude.{[], drop, take, ℕ, ◌%◌, ◌*◌, ◌++◌, ◌+◌, ◌-◌, ◌/◌, ◌<◌, ◌^◌, ◌∷◌, ◌≤◌}
use polaris_sidecar.Prelude.Text.{Str}

-- What `time.Time` gives, in its zone: the date, the clock and the nanoseconds.
pub record Moment : Type 0 where
  pub year : ℕ
  pub month : ℕ
  pub day : ℕ
  pub hour : ℕ
  pub minute : ℕ
  pub second : ℕ
  pub nanosecond : ℕ

-- `byte(n) + '0'`
abbrev to_byte : ℕ → ℕ
to_byte n = (n + b'0') % 2 ^ 8

unfoldable pub format_date : Moment → Str
format_date t =
    let micros = t.nanosecond / 1000 in
    to_byte (t.year / 1000 % 10)
    ∷ to_byte (t.year / 100 % 10)
    ∷ to_byte (t.year / 10 % 10)
    ∷ to_byte (t.year % 10)
    ∷ b'-'
    ∷ to_byte (t.month / 10)
    ∷ to_byte (t.month % 10)
    ∷ b'-'
    ∷ to_byte (t.day / 10)
    ∷ to_byte (t.day % 10)
    ∷ b'T'
    ∷ to_byte (t.hour / 10)
    ∷ to_byte (t.hour % 10)
    ∷ b':'
    ∷ to_byte (t.minute / 10)
    ∷ to_byte (t.minute % 10)
    ∷ b':'
    ∷ to_byte (t.second / 10)
    ∷ to_byte (t.second % 10)
    ∷ b'.'
    ∷ to_byte (micros / 100000 % 10)
    ∷ to_byte (micros / 10000 % 10)
    ∷ to_byte (micros / 1000 % 10)
    ∷ to_byte (micros / 100 % 10)
    ∷ to_byte (micros / 10 % 10)
    ∷ to_byte (micros % 10)
    ∷ b'Z'
    ∷ []

-- The number that a text of digits stands for.
unfoldable pub number_from : ℕ → Str → ℕ
number_from n [] = n
number_from n (c ∷ s) = number_from (10 * n + (c - b'0')) s

abbrev number_at : ℕ → ℕ → Str → ℕ
number_at i n s = number_from 0 (take n (drop i s))

-- The numbers of a text of this layout, down to microseconds.
unfoldable pub parse_date : Str → Moment
unfolding number_from
parse_date s = record {
  year = number_at 0 4 s;
  month = number_at 5 2 s;
  day = number_at 8 2 s;
  hour = number_at 11 2 s;
  minute = number_at 14 2 s;
  second = number_at 17 2 s;
  nanosecond = 1000 * number_at 20 6 s;
}

-- The ranges of a time in a year of four digits.
pub record IsMoment (t : Moment) : Type 0 where
  pub year : t.year < 10000
  pub month : t.month ≤ 12
  pub day : t.day ≤ 31
  pub hour : t.hour < 24
  pub minute : t.minute < 60
  pub second : t.second < 60
  pub nanosecond : t.nanosecond < 1000000000

abbrev digit_of : ℕ → ℕ
digit_of n = to_byte n - b'0'

-- What stands between the numbers of a text of this layout, and behind them.
unfoldable pub marks : Str → Str
marks s =
    take 1 (drop 4 s)
    ++ take 1 (drop 7 s)
    ++ take 1 (drop 10 s)
    ++ take 1 (drop 13 s)
    ++ take 1 (drop 16 s)
    ++ take 1 (drop 19 s)
    ++ drop 26 s
