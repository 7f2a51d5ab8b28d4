-- ===== src/Timer/Clock.antt =====
-- Times are numbers of nanoseconds, and `Time()` is 0, which also stands for "not started".
use simplx.Base.{ℕ, ◌-◌, ◌^◌, ltb, ◌==◌, if◌then◌else◌}

-- `t > start ? t - start : start - t`.
abbrev pub distance : ℕ → ℕ → ℕ
distance t start = if ltb start t then t - start else start - t

-- A start time that was not set is now.
abbrev pub started : ℕ → ℕ → ℕ
started t start = if start == 0 then t else start

-- `std::min`.
abbrev pub minimum : ℕ → ℕ → ℕ
minimum a b = if ltb b a then b else a

-- The largest `int64_t`.
abbrev pub forever : ℕ
forever = 2 ^ 63 - 1
