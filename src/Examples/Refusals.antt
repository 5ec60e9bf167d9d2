-- ===== src/Examples/Refusals.antt =====
-- The theorem on lookups of unknown orders, with a breaker that opens after five failures in a row.
use wb_l.Breaker.{Execute}
use wb_l.Models.{Order}
use wb_l.Manager.Lru.{LruState}
use wb_l.Base.Text.{codes, Text}
use wb_l.Examples.Databases.{Store}
use wb_l.Base.{List, [], ◌∷◌, ℕ, ◌+◌, ◌<◌, ◌≤◌, Option, some, none, ◌≡◌, map, leb, if◌then◌else◌}
use mathlib.Core.Option

-- The failures in a row after a request.
abbrev strikes : Option ℕ → ℕ → ℕ
strikes none b = 0
strikes (some e) b = b + 1

abbrev five_strikes : Execute Order ℕ ℕ (LruState × Store)
five_strikes request b st =
    if leb 5 b
    then some (none, some 3, b, st)
    else Option.map (λ (o, err, st'). (o, err, strikes err b, st')) (request st)

abbrev HasStrikes : ℕ → ℕ → Type 0
HasStrikes n b = (b ≡ n) × n < 5

abbrev IsOut : ℕ → Type 0
IsOut b = 5 ≤ b

abbrev guesses : List Text
guesses = codes "a" ∷ codes "b" ∷ codes "c" ∷ codes "d" ∷ codes "e" ∷ []
