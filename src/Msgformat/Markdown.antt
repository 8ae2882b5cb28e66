-- ===== src/Msgformat/Markdown.antt =====
-- internal/msgformat/markdown.go: Markdown rendered to a text and its entities. The parser looks for
-- ASCII bytes only, which in UTF-8 stand for themselves, so that it works on code points. What
-- `isHTTPURL` makes of `net/url` is an argument.
pub mod Progress
pub mod Ranges
use mathlib.Core.Option
use codex_feishu.Prelude.{
  ℕ, zero, suc, Bool, not, ◌||◌, Option, none, some, List, [], ◌∷◌, ◌++◌, ◌==◌, if◌then◌else◌,
  length, drop,
}
use codex_feishu.Prelude.Text.{Text, codes, trim_right, trim_space, is_empty, is_blank, has_prefix}
use codex_feishu.Msgformat.Units.{MessageEntity, utf16_len}

-- The text written so far and its entities.
pub record Rendered : Type 0 where
  pub out : Text
  pub entities : List MessageEntity

-- `out.WriteString`
unfoldable pub write : Text → Rendered → Rendered
write t s = record s { out = s.out ++ t }

-- A text that is written, and the entity for it.
unfoldable pub emit : Text → Text → Text → Text → Rendered → Rendered
unfolding utf16_len
emit kind t url language s = record {
  out = s.out ++ t;
  entities =
      s.entities
      ++ record {
        kind = kind;
        offset = utf16_len s.out;
        length = utf16_len t;
        url = url;
        language = language;
      }
        ∷ [];
}

-- `strings.Index`: what stands before the first place where the test passes, and what from there on.
unfoldable pub cut_at : (Text → Bool) → Text → Option (Text × Text)
cut_at p [] = none
cut_at p (c ∷ cs) =
    let rest = Option.map (λ (x : Text × Text). (c ∷ x.0, x.1)) (cut_at p cs) in
    if p (c ∷ cs) then some ([], c ∷ cs) else rest

abbrev pub fence : Text
fence = codes "```"

-- `isURLTerminator`
unfoldable pub is_url_terminator : ℕ → Bool
is_url_terminator c =
    c == b' ' || c == 10 || c == 13 || c == 9 || c == b'<' || c == b'>' || c == b'"' || c == 39

-- `strings.TrimRight(…, ".,;:!?)]}")`
unfoldable pub is_url_trailing : ℕ → Bool
is_url_trailing c =
    c == b'.'
    || c == b','
    || c == b';'
    || c == b':'
    || c == b'!'
    || c == b'?'
    || c == b')'
    || c == b']'
    || c == b'}'

-- The part up to the terminator.
unfoldable pub url_part : Text → Text
unfolding is_url_terminator
url_part [] = []
url_part (c ∷ cs) = if is_url_terminator c then [] else c ∷ url_part cs

-- The label and the link, if the label is not blank and the link is a URL.
unfoldable pub checked_link :
    (Text → Bool) → Text → Option (Text × Text) → Option (Text × (Text × Text))
unfolding trim_space is_blank
checked_link is_http_url label none = none
checked_link is_http_url label (some (url, closing)) =
    let link = trim_space url in
    if is_blank label || not (is_http_url link) then none else some (label, (link, drop 1 closing))

unfoldable pub link_after : (Text → Bool) → Option (Text × Text) → Option (Text × (Text × Text))
unfolding checked_link cut_at has_prefix
link_after is_http_url none = none
link_after is_http_url (some (before, closing)) =
    if is_empty before || not (has_prefix (drop 1 closing) (b'(' ∷ []))
    then none
    else checked_link is_http_url (drop 1 before)
        (cut_at (λ t. has_prefix t (b')' ∷ [])) (drop 2 closing))

-- `parseMarkdownLink`: the label, the link and what follows.
unfoldable pub parse_markdown_link : (Text → Bool) → Text → Option (Text × (Text × Text))
unfolding link_after cut_at has_prefix
parse_markdown_link is_http_url text =
    link_after is_http_url (cut_at (λ t. has_prefix t (b']' ∷ [])) text)

-- `parseBareURL`: the link and what follows.
unfoldable pub parse_bare_url : (Text → Bool) → Text → Option (Text × Text)
unfolding url_part is_url_trailing trim_right has_prefix
parse_bare_url is_http_url text =
    let link = trim_right is_url_trailing (url_part text) in
    if not (has_prefix text (codes "http://") || has_prefix text (codes "https://"))
    then none
    else if not (is_http_url link)
    then none
    else some (link, drop (length link) text)

-- The rest of an iteration of `renderMarkdownEntities` at "```", with the text after it.
unfoldable pub close_fence : Text → Text → Option (Text × Text) → Rendered → Text × Rendered
unfolding emit write trim_space trim_right
close_fence text line none s = ([], write text s)
close_fence text line (some (body, closing)) s =
    (drop 3 closing, emit (codes "pre") (trim_right (λ c. c == 10) body) [] (trim_space line) s)

unfoldable pub open_fence : Text → Text → Option (Text × Text) → Rendered → Text × Rendered
unfolding close_fence write cut_at has_prefix
open_fence text after none s = (after, write fence s)
open_fence text after (some (line, newline)) s =
    close_fence text line (cut_at (λ t. has_prefix t fence) (drop 1 newline)) s

unfoldable pub after_url : ℕ → Text → Option (Text × Text) → Rendered → Text × Rendered
unfolding emit write
after_url c cs none s = (cs, write (c ∷ []) s)
after_url c cs (some (link, rest)) s = (rest, emit (codes "text_link") link link [] s)

unfoldable pub after_link :
    (Text → Bool) → ℕ → Text → Option (Text × (Text × Text)) → Rendered → Text × Rendered
unfolding after_url parse_bare_url emit
after_link is_http_url c cs none s = after_url c cs (parse_bare_url is_http_url (c ∷ cs)) s
after_link is_http_url c cs (some (label, (link, rest))) s =
    (rest, emit (codes "text_link") label link [] s)

unfoldable pub after_code :
    (Text → Bool) → ℕ → Text → Option (Text × Text) → Rendered → Text × Rendered
unfolding after_link parse_markdown_link emit
after_code is_http_url c cs none s =
    after_link is_http_url c cs
      (if c == b'[' then parse_markdown_link is_http_url (c ∷ cs) else none) s
after_code is_http_url c cs (some (code, closing)) s =
    (drop 1 closing, emit (codes "code") code [] [] s)

-- One iteration of `renderMarkdownEntities` at `c ∷ cs`: what is left, and what was written.
unfoldable pub render_step : (Text → Bool) → ℕ → Text → Rendered → Text × Rendered
unfolding open_fence after_code cut_at has_prefix
render_step is_http_url c cs s =
    if has_prefix (c ∷ cs) fence
    then open_fence (c ∷ cs) (drop 2 cs) (cut_at (λ t. has_prefix t (10 ∷ [])) (drop 2 cs)) s
    else after_code is_http_url c cs
        (if c == b'`' then cut_at (λ t. has_prefix t (b'`' ∷ [])) cs else none) s

-- The loop; `none` if the fuel runs out.
unfoldable pub render_loop : (Text → Bool) → ℕ → Text → Rendered → Option Rendered
unfolding render_step
render_loop is_http_url fuel [] s = some s
render_loop is_http_url zero (c ∷ cs) s = none
render_loop is_http_url (suc fuel) (c ∷ cs) s =
    let (rest, s') = render_step is_http_url c cs s in render_loop is_http_url fuel rest s'

-- `renderMarkdownEntities`
unfoldable pub render_markdown_entities : (Text → Bool) → Text → Option Rendered
unfolding render_loop trim_space
render_markdown_entities is_http_url markdown =
    let text = trim_space markdown in
    render_loop is_http_url (length text) text (record { out = []; entities = [] })
