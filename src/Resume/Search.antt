-- ===== src/Resume/Search.antt =====
-- `findLatestMatchingLine` of scripts/source/resume_settings.go: the last line of a file that matches, searched
-- from the end in blocks. The file is its bytes, and reading them succeeds.

pub mod Lines
pub mod Latest
use codex_auto_retry.Prelude.{
  ℕ, zero, suc, ◌+◌, ◌-◌, ◌*◌, Bool, true, false, not, List, [], ◌∷◌, Option, none, some, ltb, leb,
  eqb, if◌then◌else◌, length, take, drop, get_or, slice,
}

abbrev pub Bytes : Type 0
Bytes = List ℕ

abbrev pub search_block_bytes : ℕ
search_block_bytes = 64 * 1024

abbrev pub prefix_bytes : ℕ
prefix_bytes = 4096

abbrev pub max_line_bytes : ℕ
max_line_bytes = 8 * 1024 * 1024

-- No line yet, a line, or an error: a line that matches is over the size limit.
pub data FoundLine : Type 0 where
  nothing too_long : FoundLine
  line : Bytes → FoundLine

-- `bytes.TrimSuffix(line, "\r")`
abbrev pub trim_return : Bytes → Bytes
trim_return [] = []
trim_return (c ∷ []) = if eqb c 13 then [] else c ∷ []
trim_return (c ∷ d ∷ rest) = c ∷ trim_return (d ∷ rest)

module _ (matches : Bytes → Bool) (block prefix_size limit : ℕ) (file : Bytes) where
  -- `inspectMatchingLine`
  unfoldable pub inspect : ℕ → ℕ → FoundLine
  inspect start end =
      if leb end start
      then nothing
      else (let size = end - start in
          let prefix_length = if ltb prefix_size size then prefix_size else size in
          if not (matches (take prefix_length (drop start file)))
          then nothing
          else if ltb limit size
          then too_long
          else line (trim_return (slice start end file)))

  abbrev pub or_go_on : FoundLine × ℕ → FoundLine → FoundLine × ℕ
  or_go_on rest nothing = rest
  or_go_on rest found = (found, 0)

  -- The bytes of one block, from its last on: what is found, or where the line then ends.
  unfoldable pub scan_block : ℕ → ℕ → ℕ → FoundLine × ℕ
  unfolding inspect
  scan_block zero position line_end = (nothing, line_end)
  scan_block (suc index) position line_end = elim (eqb (get_or file (position + index) 0) b'\n') [
    | false ↦ scan_block index position line_end
    | true ↦
        or_go_on (scan_block index position (position + index))
          (inspect (position + index + 1) line_end)
  ]

  abbrev pub read_size : ℕ → ℕ
  read_size position = if ltb position block then position else block

  abbrev pub or_earlier : (ℕ → Option FoundLine) → FoundLine × ℕ → Option FoundLine
  or_earlier earlier (nothing, line_end) = earlier line_end
  or_earlier earlier (found, line_end) = some found

  -- The blocks before `position`; `none` means that the fuel ran out.
  unfoldable pub scan_blocks : ℕ → ℕ → ℕ → Option FoundLine
  unfolding scan_block inspect
  scan_blocks zero position line_end = none
  scan_blocks (suc fuel) zero line_end = some (inspect 0 line_end)
  scan_blocks (suc fuel) (suc p) line_end =
      or_earlier (scan_blocks fuel (suc p - read_size (suc p)))
        (scan_block (read_size (suc p)) (suc p - read_size (suc p)) line_end)

  unfoldable pub find_latest_line : Option FoundLine
  unfolding scan_blocks
  find_latest_line = scan_blocks (length file + 1) (length file) (length file)

unfoldable pub find_latest_matching_line : (Bytes → Bool) → Bytes → Option FoundLine
unfolding find_latest_line
find_latest_matching_line matches file =
    find_latest_line matches search_block_bytes prefix_bytes max_line_bytes file
