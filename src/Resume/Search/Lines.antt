-- ===== src/Resume/Search/Lines.antt =====
-- The lines of a file, and the last of them that matches: what `findLatestMatchingLine` of
-- scripts/source/resume_settings.go looks for.
use codex_auto_retry.Prelude.{
  ℕ, ◌≡◌, refl, Bool, false, not, List, [], ◌∷◌, ◌++◌, ltb, leb, eqb, if◌then◌else◌, length, take,
  All, Bool-cases, inl, inr,
}
use codex_auto_retry.Resume.Search.{Bytes, FoundLine, nothing, too_long, line, trim_return}

abbrev add_to_first : ℕ → List Bytes → List Bytes
add_to_first c [] = (c ∷ []) ∷ []
add_to_first c (l ∷ ls) = (c ∷ l) ∷ ls

-- The texts between the newlines: one more than there are newlines.
unfoldable pub lines : Bytes → List Bytes
lines [] = [] ∷ []
lines (c ∷ rest) = if eqb c b'\n' then [] ∷ lines rest else add_to_first c (lines rest)

-- The first of two that is something.
abbrev pub or_else : FoundLine → FoundLine → FoundLine
or_else nothing other = other
or_else found other = found

module _ (matches : Bytes → Bool) (prefix_size limit : ℕ) where
  -- A line by itself: an empty one does not count.
  unfoldable pub inspect_line : Bytes → FoundLine
  inspect_line l =
      if leb (length l) 0
      then nothing
      else if not (matches (take prefix_size l))
      then nothing
      else if ltb limit (length l)
      then too_long
      else line (trim_return l)

  -- The last line that is not passed over.
  unfoldable pub latest : List Bytes → FoundLine
  latest [] = nothing
  latest (l ∷ ls) = or_else (latest ls) (inspect_line l)

  or_else-nothing : (f : FoundLine) → or_else f nothing ≡ f
  or_else-nothing nothing = refl
  or_else-nothing too_long = refl
  or_else-nothing (line l) = refl

  or_else_assoc : (f g h : FoundLine) → or_else (or_else f g) h ≡ or_else f (or_else g h)
  or_else_assoc nothing g h = refl
  or_else_assoc too_long g h = refl
  or_else_assoc (line l) g h = refl

  latest-append : (xs ys : List Bytes) → latest (xs ++ ys) ≡ or_else (latest ys) (latest xs)
  unfolding latest
  latest-append [] ys = rw (or_else-nothing (latest ys)) refl
  latest-append (a ∷ xs) ys =
      rw (latest-append xs ys, or_else_assoc (latest ys) (latest xs) (inspect_line a)) refl

add_to_first-append :
    (c : ℕ) (l : Bytes) (xs ys : List Bytes)
    → add_to_first c ((l ∷ xs) ++ ys) ≡ add_to_first c (l ∷ xs) ++ ys
add_to_first-append c l xs ys = refl

-- `lines` gives one line at least.
lines-ne_nil : (b : Bytes) → (l : Bytes) × (ls : List Bytes) × (lines b ≡ l ∷ ls)
unfolding lines
lines-ne_nil [] = ([], [], refl)
lines-ne_nil (c ∷ rest) = elim (Bool-cases (eqb c b'\n')) [
  | inl e ↦ ([], lines rest, rw e refl)
  | inr e ↦ let (l, ls, same) = lines-ne_nil rest in (c ∷ l, ls, rw (e, same) refl)
]

lines-append : (xs ys : Bytes) → lines (xs ++ b'\n' ∷ ys) ≡ lines xs ++ lines ys
unfolding lines
lines-append [] ys = refl
lines-append (c ∷ xs) ys = elim (Bool-cases (eqb c b'\n')) [
  | inl e ↦ rw (e, lines-append xs ys) refl
  | inr e ↦ let (l, ls, same) = lines-ne_nil xs in rw (e, lines-append xs ys, same) refl
]

-- Without a newline there is one line.
abbrev pub NoNewline : Bytes → Type 0
NoNewline b = All (λ c. eqb c b'\n' ≡ false) b

lines-single : (b : Bytes) → NoNewline b → lines b ≡ b ∷ []
unfolding lines
lines-single [] none_in = refl
lines-single (c ∷ rest) (e, none_in) = rw (e, lines-single rest none_in) refl

module _ (matches : Bytes → Bool) (prefix_size limit : ℕ) where
  pub latest-lines_last :
      (b : Bytes)
      → NoNewline b
      → latest matches prefix_size limit (lines b) ≡ inspect_line matches prefix_size limit b
  unfolding latest
  latest-lines_last b none_in = rw (lines-single b none_in) refl

  pub latest-lines_append :
      (xs ys : Bytes)
      → NoNewline ys
      → latest matches prefix_size limit (lines (xs ++ b'\n' ∷ ys))
        ≡ or_else
            (inspect_line matches prefix_size limit ys)
            (latest matches prefix_size limit (lines xs))
  latest-lines_append xs ys none_in =
      rw
        (
          lines-append xs ys,
          latest-append matches prefix_size limit (lines xs) (lines ys),
          latest-lines_last ys none_in,
        )
        refl
