-- ===== src/Models/Patterns.antt =====
-- The regular expressions of internal/models/orders.go.
-- The character classes and patterns.
use wb_l.Base.Text.{in_range}
use wb_l.Base.Regex.{at_least, one, seq, times, plus, Regex}
use wb_l.Base.{◌||◌, ℕ, Bool, ◌==◌}

abbrev pub is_digit : ℕ → Bool
is_digit = in_range b'0' b'9'

abbrev pub is_lower : ℕ → Bool
is_lower = in_range b'a' b'z'

abbrev pub is_upper : ℕ → Bool
is_upper = in_range b'A' b'Z'

abbrev pub is_letter : ℕ → Bool
is_letter c = is_lower c || is_upper c

abbrev pub is_alnum : ℕ → Bool
is_alnum c = is_letter c || is_digit c

-- `\s`: tab, line feed, form feed, carriage return and space.
abbrev pub is_white : ℕ → Bool
is_white c = in_range 9 10 c || in_range 12 13 c || c == 32

-- `^[a-zA-Z0-9_-]+$`
unfoldable pub is_uid_char : ℕ → Bool
is_uid_char c = is_alnum c || c == b'_' || c == b'-'

unfoldable pub uid_pattern : Regex
unfolding is_uid_char
uid_pattern = plus (one is_uid_char)

-- `^[a-z]{2}$`
unfoldable pub locale_pattern : Regex
locale_pattern = times 2 (one is_lower)

-- `^[\d\s\-+()]+$`
unfoldable pub phone_pattern : Regex
phone_pattern =
    plus (one λ c. is_digit c || is_white c || c == b'-' || c == b'+' || c == b'(' || c == b')')

-- `^[a-zA-Z0-9._%+-]+@[a-zA-Z0-9.-]+\.[a-zA-Z]{2,}$`
unfoldable pub email_pattern : Regex
email_pattern =
    seq
      (plus (one λ c. is_alnum c || c == b'.' || c == b'_' || c == b'%' || c == b'+' || c == b'-'))
      (seq (one λ c. c == b'@') (
        seq (plus (one λ c. is_alnum c || c == b'.' || c == b'-'))
          (seq (one λ c. c == b'.') (at_least 2 (one is_letter)))))

-- `^[a-zA-Z0-9\s-]+$`
unfoldable pub zip_pattern : Regex
zip_pattern = plus (one λ c. is_alnum c || is_white c || c == b'-')

-- `^[A-Z]{3}$`
unfoldable pub currency_pattern : Regex
currency_pattern = times 3 (one is_upper)
