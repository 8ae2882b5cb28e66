-- ===== src/Prelude/Text/Split.antt =====
-- Go's `strings` and `path/filepath` on separated texts.
use Prim.Native.Nat.{ℕ, ◌-◌}
use mathlib.Core.Bool.{Bool, not, ◌&&◌, ◌||◌}
use mathlib.Core.Option.{Option, none, some}
use mathlib.Core.List.{List, [], ◌∷◌, ◌++◌}
use codex_feishu.Prelude.Tests.{leb, ◌==◌, if◌then◌else◌}
use codex_feishu.Prelude.Lists.{length, drop, reverse}
use codex_feishu.Prelude.Text.{Text, codes, text_eq, is_space, trim_right, is_empty, has_prefix}

abbrev prepend : ℕ → List Text → List Text
prepend c [] = (c ∷ []) ∷ []
prepend c (w ∷ ws) = (c ∷ w) ∷ ws

-- `strings.Split` at one character.
unfoldable pub split_on : ℕ → Text → List Text
split_on c [] = [] ∷ []
split_on c (x ∷ xs) = let rest = split_on c xs in if x == c then [] ∷ rest else prepend x rest

-- `strings.Fields`, after the part `word` of a field.
unfoldable pub fields_from : Text → Text → List Text
unfolding is_space
fields_from word [] = if is_empty word then [] else word ∷ []
fields_from word (c ∷ cs) =
    let next = fields_from [] cs in
    let more = fields_from (word ++ c ∷ []) cs in
    if is_space c then (if is_empty word then next else word ∷ next) else more

-- `strings.TrimPrefix`
unfoldable pub trim_prefix : Text → Text → Text
unfolding has_prefix
trim_prefix t p = if has_prefix t p then drop (length p) t else t

-- `strings.HasSuffix`
unfoldable pub has_suffix : Text → Text → Bool
unfolding text_eq
has_suffix t w = leb (length w) (length t) && text_eq (drop (length t - length w) t) w

abbrev last_of : Text → List Text → Text
last_of t [] = t
last_of t (w ∷ ws) = last_of w ws

-- `filepath.Base` on Unix.
unfoldable pub base_name : Text → Text
unfolding trim_right split_on
base_name t =
    let s = trim_right (λ c. c == b'/') t in
    if is_empty t then codes "." else if is_empty s then codes "/" else last_of s (split_on b'/' s)

-- `strings.Join`
unfoldable pub join : Text → List Text → Text
join sep [] = []
join sep (w ∷ []) = w
join sep (w ∷ v ∷ ws) = w ++ sep ++ join sep (v ∷ ws)

abbrev keep_before : ℕ → Option (Text × Text) → Option (Text × Text)
keep_before c none = none
keep_before c (some (before, after)) = some (c ∷ before, after)

-- `strings.Index` at a word that is not empty: what stands before its first place and after it.
unfoldable pub cut_at : Text → Text → Option (Text × Text)
unfolding has_prefix
cut_at word [] = none
cut_at word (c ∷ cs) =
    let rest = cut_at word cs in
    if has_prefix (c ∷ cs) word then some ([], drop (length word) (c ∷ cs)) else keep_before c rest

-- `strings.ReplaceAll(text, "\r\n", "\n")`
unfoldable pub replace_crlf : Text → Text
unfolding has_prefix
replace_crlf [] = []
replace_crlf (c ∷ cs) =
    let rest = replace_crlf cs in if c == 13 && has_prefix cs (10 ∷ []) then rest else c ∷ rest

-- One component of `path.Clean`: those that are kept so far are reversed.
unfoldable pub clean_step : Bool → Text → List Text → List Text
unfolding text_eq
clean_step rooted part [] =
    if is_empty part || text_eq part (codes ".")
    then []
    else if text_eq part (codes "..") && rooted
    then []
    else part ∷ []
clean_step rooted part (last ∷ kept) =
    if is_empty part || text_eq part (codes ".")
    then last ∷ kept
    else if text_eq part (codes "..") && not (text_eq last (codes ".."))
    then kept
    else part ∷ last ∷ kept

unfoldable pub clean_parts : Bool → List Text → List Text → List Text
unfolding clean_step
clean_parts rooted kept [] = reverse kept
clean_parts rooted kept (part ∷ parts) = clean_parts rooted (clean_step rooted part kept) parts

-- `path.Clean`
unfoldable pub clean_path : Text → Text
unfolding has_prefix split_on join clean_parts
clean_path t =
    let rooted = has_prefix t (codes "/") in
    let cleaned =
      (if rooted then codes "/" else [])
      ++ join (codes "/") (clean_parts rooted [] (split_on b'/' t)) in
    if is_empty cleaned then codes "." else cleaned
