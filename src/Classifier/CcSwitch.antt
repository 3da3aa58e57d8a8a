-- ===== src/Classifier/CcSwitch.antt =====
-- `isCCSwitchUpstreamFailure` of scripts/source/classifier.go. An object is its list of fields, in
-- the order in which `range` visits them.
use codex_auto_retry.Prelude.{
  ℕ, zero, suc, ◌+◌, ◌-◌, ◌*◌, Bool, true, false, ◌&&◌, ◌||◌, [], ◌∷◌, Option, none, some, leb, eqb,
  if◌then◌else◌,
}
use codex_auto_retry.Text.{Text, codes, trim_space, to_lower, contains, has_prefix}

-- What `json.Unmarshal` puts into an `any`. A number is a float64: `number (some n)` is the whole
-- number n, `number none` any other.
mutual
  pub data Json : Type 0 where
    null : Json
    boolean : Bool → Json
    number : Option ℕ → Json
    text : Text → Json
    array : Items → Json
    object : Fields → Json

  pub data Items : Type 0 where
    no_item : Items
    item : Json → Items → Items

  pub data Fields : Type 0 where
    no_field : Fields
    field : Text → Json → Fields → Fields

-- The runes that `strings.EqualFold` takes for the same as `c`, by one of them.
abbrev fold_rune : ℕ → ℕ
fold_rune c =
    if leb b'A' c && leb c b'Z'
    then c + 32
    else if eqb c 0x17f
    then b's'
    else if eqb c 0x212a
    then b'k'
    else c

unfoldable pub equal_fold : Text → Text → Bool
equal_fold [] [] = true
equal_fold (a ∷ s) (b ∷ t) = eqb (fold_rune a) (fold_rune b) && equal_fold s t
equal_fold _ _ = false

abbrev as_text : Json → Option Text
as_text (text t) = some t
as_text _ = none

-- The first field of that name, up to case.
unfoldable pub find_field : Fields → Text → Option Json
unfolding equal_fold
find_field no_field name = none
find_field (field key value rest) name =
    if equal_fold key name then some value else find_field rest name

abbrev value_text : Option Json → Option Text
value_text none = none
value_text (some v) = as_text v

-- `none` is `"", false`.
unfoldable pub json_string_field : Fields → Text → Option Text
unfolding find_field
json_string_field fields name = value_text (find_field fields name)

abbrev text_or_empty : Option Text → Text
text_or_empty none = []
text_or_empty (some t) = t

unfoldable pub decimal : ℕ → Text → Option ℕ
decimal acc [] = some acc
decimal acc (c ∷ t) = if leb b'0' c && leb c b'9' then decimal (acc * 10 + (c - b'0')) t else none

abbrev non_empty_decimal : Text → Option ℕ
non_empty_decimal [] = none
non_empty_decimal (c ∷ t) = decimal 0 (c ∷ t)

-- `strconv.Atoi`, without the negative numbers: the callers compare its value with 400.
unfoldable pub atoi : Text → Option ℕ
unfolding decimal
atoi [] = none
atoi (c ∷ t) = if eqb c b'+' then non_empty_decimal t else decimal 0 (c ∷ t)

-- `strings.TrimPrefix(text, "http")`
abbrev trim_http : Text → Text
trim_http (a ∷ b ∷ c ∷ d ∷ rest) =
    if has_prefix (a ∷ b ∷ c ∷ d ∷ rest) (codes "http") then rest else a ∷ b ∷ c ∷ d ∷ rest
trim_http t = t

abbrev json_status : Option Json → Option ℕ
json_status (some (number n)) = n
json_status (some (text t)) = atoi (trim_space (trim_http (to_lower t)))
json_status _ = none

unfoldable pub json_status_field : Fields → Text → Option ℕ
unfolding find_field atoi trim_space to_lower has_prefix
json_status_field fields name = json_status (find_field fields name)

abbrev is_code : Option Text → Bool
is_code none = false
is_code (some code) = equal_fold (trim_space code) (codes "cc_switch_upstream_error")

abbrev is_400 : Option ℕ → Bool
is_400 none = false
is_400 (some status) = eqb status 400

abbrev request_failed : Option Text → Bool
request_failed t = contains (to_lower (text_or_empty t)) (codes "upstream request failed")

unfoldable pub object_matches : Fields → Bool
unfolding json_string_field json_status_field equal_fold trim_space to_lower contains
object_matches fields =
    is_code (json_string_field fields (codes "code"))
    && is_400 (json_status_field fields (codes "upstream_status"))
    && (request_failed (json_string_field fields (codes "message"))
        || request_failed (json_string_field fields (codes "cause")))

unfoldable pub any_item : (Json → Bool) → Items → Bool
any_item p no_item = false
any_item p (item v rest) = p v || any_item p rest

unfoldable pub any_field : (Json → Bool) → Fields → Bool
any_field p no_field = false
any_field p (field key v rest) = p v || any_field p rest

abbrev matches_decoded : (Json → Bool) → Option Json → Bool
matches_decoded p none = false
matches_decoded p (some v) = p v

module _ (decode : Text → Option Json) where
  -- `levels` is 5 minus the source's `depth`: a value deeper than 4 does not match.
  unfoldable pub matches_cc_switch : ℕ → Json → Bool
  unfolding object_matches any_item any_field trim_space
  matches_cc_switch zero v = false
  matches_cc_switch (suc levels) (object fields) =
      object_matches fields || any_field (matches_cc_switch levels) fields
  matches_cc_switch (suc levels) (array items) = any_item (matches_cc_switch levels) items
  matches_cc_switch (suc levels) (text t) =
      matches_decoded (matches_cc_switch levels) (decode (trim_space t))
  matches_cc_switch (suc levels) _ = false

  unfoldable pub is_cc_switch_upstream_failure : Text → Bool
  unfolding matches_cc_switch trim_space
  is_cc_switch_upstream_failure t = matches_decoded (matches_cc_switch 5) (decode (trim_space t))
