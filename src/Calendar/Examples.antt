-- ===== src/Calendar/Examples.antt =====
-- The theorem on dates at a concrete date.
use hexmagnet.Prelude.{◌≡◌, ◌||◌}
use hexmagnet.Calendar.{Date, is_valid, is_gregorian, is_false_leap_day, is_valid-gregorian}

-- The 29th of February 1900.
abbrev no_day : Date
no_day = record { year = 1900; month = 2; day = 29 }

is_valid-gregorian_example : is_valid no_day ≡ is_gregorian no_day || is_false_leap_day no_day
is_valid-gregorian_example = is_valid-gregorian no_day
