-- ===== src/OrderBook/Text.antt =====
-- internal/orderbook/helpers.go: the texts of spreads and notionals.
use Prim.Native.String.{String}
use Prim.Native.Char.{code}
use go_be_arbitrage.Prelude.{ℕ, Bool, true, false, ◌&&◌, ◌||◌, ◌==◌, if◌then◌else◌}

abbrev pub has_char : ℕ → String → Bool
has_char c String.[] = false
has_char c (String.◌∷◌ x xs) = (code x == c) || has_char c xs

abbrev pub is_empty : String → Bool
is_empty String.[] = true
is_empty _ = false

-- `strings.TrimRight` with one character in the cutset.
abbrev pub trim_right : ℕ → String → String
trim_right c String.[] = String.[]
trim_right c (String.◌∷◌ x xs) =
    let rest = trim_right c xs in
    if is_empty rest && (code x == c) then String.[] else String.◌∷◌ x rest

unfoldable pub trim_trailing_zeros : String → String
trim_trailing_zeros s =
    let t = (if has_char b'.' s then trim_right b'.' (trim_right b'0' s) else s) in
    if is_empty t then "0" else t
