-- ===== src/Resume/Search/Latest.antt =====
-- The search from the end, in blocks, of scripts/source/resume_settings.go finds the last line that matches.
use codex_auto_retry.Prelude.{
  ℕ, zero, suc, ◌+◌, ◌-◌, ◌≤◌, ◌<◌, ◌≡◌, refl, sym, ◌∙◌, arith, Bool, true, false, [], ◌∷◌, ◌++◌,
  some, ltb, eqb, if◌then◌else◌, length, take, drop, get_or, slice, drop-step, take-length,
  take-append, take-take_le, take-take_ge, length-take, length-drop, Bool-cases, inl, inr, ap,
  subst,
}
use codex_auto_retry.Resume.Search.{
  Bytes, FoundLine, nothing, too_long, line, inspect, or_go_on, scan_block, read_size, or_earlier,
  scan_blocks, find_latest_line, find_latest_matching_line, search_block_bytes, prefix_bytes,
  max_line_bytes,
}
use codex_auto_retry.Resume.Search.Lines.{
  lines, or_else, inspect_line, latest, NoNewline, latest-lines_last, latest-lines_append,
}

eqb→eq : (a b : ℕ) → eqb a b ≡ true → a ≡ b
eqb→eq a b h = ground arith

module _ (matches : Bytes → Bool) (block prefix_size limit : ℕ) (file : Bytes) where
  -- The last match of the first `e` bytes.
  abbrev latest_before : ℕ → FoundLine
  latest_before e = latest matches prefix_size limit (lines (take e file))

  abbrev inspected : ℕ → ℕ → FoundLine
  inspected start end = inspect matches block prefix_size limit file start end

  slice-step :
      (p e : ℕ) → p < e → e ≤ length file → slice p e file ≡ get_or file p 0 ∷ slice (p + 1) e file
  slice-step p e h fits =
      let size : e - p ≡ suc (e - (p + 1)) = omega arith in
      let next : p + 1 ≡ suc p = omega arith in
      rw (size, drop-step p file 0 (omega arith), next) refl

  length-slice : (s e : ℕ) → e ≤ length file → length (slice s e file) ≡ e - s
  length-slice s e fits = length-take (e - s) (drop s file) (omega (arith, length-drop s file))

  prefix-slice :
      (s e : ℕ)
      → take (if ltb prefix_size (e - s) then prefix_size else e - s) (drop s file)
        ≡ take prefix_size (slice s e file)
  prefix-slice s e = elim (Bool-cases (ltb prefix_size (e - s))) [
    | inl long ↦
        rw (long, take-take_le prefix_size (e - s) (drop s file) (ground (arith, long))) refl
    | inr short ↦
        rw (short, take-take_ge prefix_size (e - s) (drop s file) (ground (arith, short))) refl
  ]

  inspect-line :
      (s e : ℕ)
      → e ≤ length file
      → inspected s e ≡ inspect_line matches prefix_size limit (slice s e file)
  unfolding inspect inspect_line
  inspect-line s e fits = rw (prefix-slice s e, length-slice s e fits) (ground arith)

  latest_before-newline :
      (p e : ℕ)
      → p < e
      → e ≤ length file
      → get_or file p 0 ≡ b'\n'
      → NoNewline (slice (p + 1) e file)
      → latest_before e ≡ or_else (inspected (p + 1) e) (latest_before p)
  latest_before-newline p e h fits newline none_in =
      let whole : p + (e - p) ≡ e = omega arith in
      let split : take e file ≡ take p file ++ slice p e file =
        ap (λ (n : ℕ). take n file) (sym whole) ∙ take-append p (e - p) file in
      rw
        (
          split,
          slice-step p e h fits,
          newline,
          latest-lines_append matches prefix_size limit (take p file) (slice (p + 1) e file)
              none_in,
          inspect-line (p + 1) e fits,
        )
        refl

  latest_before-start :
      (e : ℕ) → e ≤ length file → NoNewline (slice 0 e file) → latest_before e ≡ inspected 0 e
  latest_before-start e fits none_in =
      let all : e - 0 ≡ e = omega arith in
      rw (inspect-line 0 e fits, all)
        (latest-lines_last matches prefix_size limit (take e file) (rw all at none_in))

  -- What a block's scan leaves.
  abbrev Scanned : ℕ → ℕ → FoundLine × ℕ → Type 0
  Scanned position line_end (nothing, e) =
      (latest_before line_end ≡ latest_before e)
      × NoNewline (slice position e file)
      × (e ≤ length file)
      × (position ≤ e)
  Scanned position line_end (found, e) = latest_before line_end ≡ found

  or_go_on-Scanned :
      (position p line_end : ℕ) (rest : FoundLine × ℕ) (f : FoundLine)
      → latest_before line_end ≡ or_else f (latest_before p)
      → Scanned position p rest
      → Scanned position line_end (or_go_on matches block prefix_size limit file rest f)
  or_go_on-Scanned position p line_end (nothing, e) nothing same (s, none_in, fits, room) =
      (same ∙ s, none_in, fits, room)
  or_go_on-Scanned position p line_end (too_long, e) nothing same s = same ∙ s
  or_go_on-Scanned position p line_end (line l, e) nothing same s = same ∙ s
  or_go_on-Scanned position p line_end rest too_long same s = same
  or_go_on-Scanned position p line_end rest (line l) same s = same

  slice-empty : (p : ℕ) → slice p p file ≡ []
  slice-empty p = let e : p - p ≡ 0 = omega arith in rw e refl

  abbrev scanned : ℕ → ℕ → ℕ → FoundLine × ℕ
  scanned n position line_end = scan_block matches block prefix_size limit file n position line_end

  scan_block-other :
      (index position line_end : ℕ)
      → eqb (get_or file (position + index) 0) b'\n' ≡ false
      → scanned (suc index) position line_end ≡ scanned index position line_end
  unfolding scan_block
  scan_block-other index position line_end other = rw (other, scan_block) refl

  scan_block-newline :
      (index position line_end : ℕ)
      → eqb (get_or file (position + index) 0) b'\n' ≡ true
      → scanned (suc index) position line_end
        ≡ or_go_on matches block prefix_size limit file
            (scanned index position (position + index))
            (inspected (position + index + 1) line_end)
  unfolding scan_block
  scan_block-newline index position line_end newline = rw (newline, scan_block) refl

  scan_block-Scanned :
      (n position line_end : ℕ)
      → NoNewline (slice (position + n) line_end file)
      → position + n ≤ line_end
      → line_end ≤ length file
      → Scanned position line_end
          (scan_block matches block prefix_size limit file n position line_end)
  unfolding scan_block
  scan_block-Scanned zero position line_end none_in room fits =
      let e : position + 0 ≡ position = omega arith in (refl, rw e at none_in, fits, omega arith)
  scan_block-Scanned (suc index) position line_end none_in room fits =
      let p = position + index in
      let next : position + suc index ≡ p + 1 = omega arith in
      let after : NoNewline (slice (p + 1) line_end file) = rw next at none_in in
      elim (Bool-cases (eqb (get_or file p 0) b'\n')) [
        | inr other ↦
            subst (Scanned position line_end) (sym (scan_block-other index position line_end other))
              (scan_block-Scanned index position line_end
                (rw (slice-step p line_end (omega arith) fits) (other, after)) (omega arith) fits)
        | inl newline ↦
            subst (Scanned position line_end)
              (sym (scan_block-newline index position line_end newline))
              (or_go_on-Scanned position p line_end _ _
                (latest_before-newline p line_end (omega arith) fits
                  (eqb→eq (get_or file p 0) b'\n' newline) after)
                (scan_block-Scanned index position p (rw (slice-empty p) tt) (omega arith)
                  (omega arith)))
      ]

  or_earlier-latest :
      (fuel position line_end : ℕ) (r : FoundLine × ℕ)
      → Scanned position line_end r
      → ((e : ℕ)
          → NoNewline (slice position e file)
          → position ≤ e
          → e ≤ length file
          → scan_blocks matches block prefix_size limit file fuel position e
            ≡ some (latest_before e))
      → or_earlier matches block prefix_size limit file
          (scan_blocks matches block prefix_size limit file fuel position)
          r
        ≡ some (latest_before line_end)
  or_earlier-latest fuel position line_end (nothing, e) (same, none_in, fits, room) earlier =
      rw same (earlier e none_in room fits)
  or_earlier-latest fuel position line_end (too_long, e) same earlier = rw same refl
  or_earlier-latest fuel position line_end (line l, e) same earlier = rw same refl

  scan_blocks-latest :
      1 ≤ block
      → (fuel position line_end : ℕ) → position < fuel
      → NoNewline (slice position line_end file)
      → position ≤ line_end
      → line_end ≤ length file
      → scan_blocks matches block prefix_size limit file fuel position line_end
        ≡ some (latest_before line_end)
  unfolding scan_blocks
  scan_blocks-latest some_block zero position line_end enough none_in room fits =
      absurd (omega arith)
  scan_blocks-latest some_block (suc fuel) zero line_end enough none_in room fits =
      rw (latest_before-start line_end fits none_in) refl
  scan_blocks-latest some_block (suc fuel) (suc p) line_end enough none_in room fits =
      let size = read_size matches block prefix_size limit file (suc p) in
      let reads : (1 ≤ size) × (size ≤ suc p) = ground arith in
      let whole : suc p - size + size ≡ suc p = omega arith in
      or_earlier-latest fuel (suc p - size) line_end _
        (scan_block-Scanned size (suc p - size) line_end (rw whole none_in) (omega arith) fits)
        (λ e none_in' room' fits'.
          scan_blocks-latest some_block fuel (suc p - size) e (omega arith) none_in' room' fits')

  find_latest_line-latest :
      1 ≤ block
      → find_latest_line matches block prefix_size limit file
        ≡ some (latest matches prefix_size limit (lines file))
  unfolding find_latest_line
  find_latest_line-latest some_block =
      let found =
        scan_blocks-latest some_block (length file + 1) (length file) (length file) (omega arith)
          (rw (slice-empty (length file)) tt) (omega arith) (omega arith) in
      rw (take-length file) at found

-- The search from the end, block by block, ends for every file, and gives what going through all lines
-- gives: the last line that is not empty and matches by its first 4096 bytes, without its carriage
-- return, or an error if that line is over 8 MB.
pub find_latest_matching_line-latest :
    (matches : Bytes → Bool) (file : Bytes)
    → find_latest_matching_line matches file
      ≡ some (latest matches prefix_bytes max_line_bytes (lines file))
unfolding find_latest_matching_line
find_latest_matching_line-latest matches file =
    find_latest_line-latest matches search_block_bytes prefix_bytes max_line_bytes file
      (omega arith)
