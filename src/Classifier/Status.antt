-- ===== src/Classifier/Status.antt =====
-- `extractStatus` of scripts/source/classifier.go, whose regular expression is
-- (?i)(?:status(?: code)?|http|unexpected status)[^0-9]{0,12}([1-5][0-9]{2})
use codex_auto_retry.Prelude.{
  ℕ, zero, suc, ◌+◌, ◌-◌, ◌*◌, Bool, ◌&&◌, ◌||◌, [], ◌∷◌, Option, none, some, leb, eqb,
  if◌then◌else◌,
}
use codex_auto_retry.Text.{Text, codes, to_lower_rune}

abbrev pub is_digit : ℕ → Bool
is_digit c = leb b'0' c && leb c b'9'

-- `(?i)` also lets U+017F stand for an s.
abbrev same_letter : ℕ → ℕ → Bool
same_letter c p = eqb (to_lower_rune c) p || (eqb p b's' && eqb c 0x17f)

-- What follows the keyword.
unfoldable pub after_word : Text → Text → Option Text
unfolding to_lower_rune
after_word text [] = some text
after_word [] (p ∷ ps) = none
after_word (c ∷ text) (p ∷ ps) = if same_letter c p then after_word text ps else none

-- `([1-5][0-9]{2})`, as the number.
unfoldable pub status_digits : Text → Option ℕ
status_digits (a ∷ b ∷ c ∷ _) =
    if leb b'1' a && leb a b'5' && is_digit b && is_digit c
    then some (100 * (a - b'0') + 10 * (b - b'0') + (c - b'0'))
    else none
status_digits _ = none

-- `[^0-9]{0,gap}` and the digits. The gap holds no digit and the status begins with one, so the
-- digits can only be the first ones.
unfoldable pub after_gap : ℕ → Text → Option ℕ
unfolding status_digits
after_gap gap [] = none
after_gap zero (c ∷ text) = status_digits (c ∷ text)
after_gap (suc gap) (c ∷ text) =
    let rest = after_gap gap text in if is_digit c then status_digits (c ∷ text) else rest

abbrev or_else : Option ℕ → Option ℕ → Option ℕ
or_else none second = second
or_else (some n) second = some n

abbrev after_keyword : Option Text → Option ℕ
after_keyword none = none
after_keyword (some rest) = after_gap 12 rest

-- The alternatives of the expression at one position, in their order.
unfoldable pub status_here : Text → Option ℕ
unfolding after_word after_gap
status_here text = or_else (after_keyword (after_word text (codes "status code"))) (
    or_else (after_keyword (after_word text (codes "status"))) (
      or_else (after_keyword (after_word text (codes "http")))
        (after_keyword (after_word text (codes "unexpected status")))))

unfoldable pub find_status : Text → Option ℕ
unfolding status_here
find_status [] = none
find_status (c ∷ text) = or_else (status_here (c ∷ text)) (find_status text)

abbrev status_or_zero : Option ℕ → ℕ
status_or_zero none = 0
status_or_zero (some n) = n

unfoldable pub extract_status : Text → ℕ
unfolding find_status
extract_status text = status_or_zero (find_status text)
