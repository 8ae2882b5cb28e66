-- ===== src/Feishu/Content.antt =====
-- internal/feishu/content.go: a text cut into parts of a bounded size. Sizes are in bytes, and so is
-- a text here: a list of bytes. What `strings.TrimSpace` makes of a part, which need not be valid
-- UTF-8, is an argument.
use codex_feishu.Prelude.{
  ℕ, zero, suc, ◌+◌, List, [], ◌∷◌, ◌++◌, leb, ◌==◌, if◌then◌else◌, length, take, drop,
}
pub mod Fits
use codex_feishu.Prelude.Text.{trim_right, is_empty}
use codex_feishu.Prelude.Text.Split.{split_on, replace_crlf}

abbrev pub Bytes : Type 0
Bytes = List ℕ

-- `out` and `current`
pub record Parts : Type 0 where
  pub out : List Bytes
  pub current : Bytes

-- `flush`
unfoldable pub flush : (Bytes → Bytes) → Parts → Parts
flush trim s =
    if is_empty s.current then s else record { out = s.out ++ trim s.current ∷ []; current = [] }

-- The loop `for len(line) > limit`: the parts, and what is left of the line. The fuel is the length
-- of the line.
unfoldable pub cut_line : (Bytes → Bytes) → ℕ → ℕ → Bytes → List Bytes × Bytes
cut_line trim limit zero line = ([], line)
cut_line trim limit (suc fuel) line =
    let (parts, rest) = cut_line trim limit fuel (drop limit line) in
    if leb (length line) limit then ([], line) else (trim (take limit line) ∷ parts, rest)

-- The line that is added to what is there.
abbrev pub candidate : Bytes → Bytes → Bytes
candidate current line = if is_empty current then line else current ++ 10 ∷ line

-- One iteration of the loop over the lines.
unfoldable pub add_line : (Bytes → Bytes) → ℕ → Bytes → Parts → Parts
unfolding flush cut_line trim_right
add_line trim limit given s =
    let line = trim_right (λ c. c == 32) given in
    let flushed = flush trim s in
    let (parts, rest) = cut_line trim limit (length line) line in
    if leb (length (candidate s.current line)) limit
    then record s { current = candidate s.current line }
    else record { out = flushed.out ++ parts; current = rest }

unfoldable pub add_lines : (Bytes → Bytes) → ℕ → List Bytes → Parts → Parts
unfolding add_line
add_lines trim limit [] s = s
add_lines trim limit (line ∷ lines) s = add_lines trim limit lines (add_line trim limit line s)

abbrev pub or_whole : Bytes → List Bytes → List Bytes
or_whole text [] = text ∷ []
or_whole text (part ∷ parts) = part ∷ parts

-- `splitText`: a limit of 0 stands for one that is not positive.
unfoldable pub split_text : (Bytes → Bytes) → Bytes → ℕ → List Bytes
unfolding replace_crlf add_lines flush split_on
split_text trim given limit =
    let text = replace_crlf given in
    if limit == 0
    then given ∷ []
    else if leb (length text) limit
    then text ∷ []
    else or_whole text
        (flush trim
          (add_lines trim limit (split_on 10 text) (record { out = []; current = [] }))).out
