-- ===== src/Tests/Displays.antt =====
-- What is shown on the terminal.
use cryptomeria.Common.{some, ◌≡◌, refl}
use cryptomeria.Text.Decimal.{decimal, decimal_before, digit, two_digits, three_digits}
use cryptomeria.Text.Clock.{formatted_time, read_clock, read_clock-formatted_time}

shown_time : formatted_time (some 1_700_000_000_123) (0, 0) ≡ "22:13:20.123"
unfolding formatted_time two_digits three_digits decimal decimal_before digit
shown_time = refl

read_clock-formatted_time_example :
    read_clock (formatted_time (some 1_700_000_000_123) (0, 0)) ≡ some 80_000_123
read_clock-formatted_time_example = read_clock-formatted_time 1_700_000_000_123 (0, 0)
