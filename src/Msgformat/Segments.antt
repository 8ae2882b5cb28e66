-- ===== src/Msgformat/Segments.antt =====
-- internal/msgformat/markdown.go: segments of plain text and Markdown, rendered to messages.
pub mod Bounds
use mathlib.Core.Option
use codex_feishu.Prelude.{
  ℕ, ◌+◌, Bool, Option, none, some, List, [], ◌∷◌, ◌++◌, map, ◌==◌, if◌then◌else◌,
}
use codex_feishu.Prelude.Text.{Text, codes, trim_right, trim_space, is_blank}
use codex_feishu.Msgformat.Units.{MessageEntity, RenderedMessage, utf16_len}
use codex_feishu.Msgformat.Markdown.{Rendered, write, render_markdown_entities}
use codex_feishu.Msgformat.Split.{split_rendered_message}

-- `Segment`
pub record Segment : Type 0 where
  pub plain : Text
  pub markdown : Text

abbrev pub message_limit : ℕ
message_limit = 4096

-- An entity moved by the text before it.
abbrev pub shift : ℕ → MessageEntity → MessageEntity
shift n e = record e { offset = e.offset + n }

-- The rest of an iteration, once the Markdown was converted.
unfoldable pub append_converted : Rendered → Option Rendered → Option Rendered
unfolding utf16_len
append_converted s none = none
append_converted s (some converted) = some (record {
  out = s.out ++ converted.out;
  entities = s.entities ++ map (shift (utf16_len s.out)) converted.entities;
})

-- One iteration of `RenderSegments`.
unfoldable pub render_segment : (Text → Bool) → Segment → Rendered → Option Rendered
unfolding append_converted write is_blank render_markdown_entities
render_segment is_http_url segment s =
    let s' = write segment.plain s in
    if is_blank segment.markdown
    then some s'
    else append_converted s' (render_markdown_entities is_http_url segment.markdown)

unfoldable pub collect_segments : (Text → Bool) → List Segment → Rendered → Option Rendered
unfolding render_segment
collect_segments is_http_url [] s = some s
collect_segments is_http_url (segment ∷ segments) s = elim (render_segment is_http_url segment s) [
  | none ↦ none
  | some s' ↦ collect_segments is_http_url segments s'
]

-- `if len(out) == 0 { … }`
unfoldable pub or_space : List RenderedMessage → List RenderedMessage
or_space [] = record { text = codes " "; entities = [] } ∷ []
or_space (m ∷ ms) = m ∷ ms

unfoldable pub split_collected : ℕ → Option Rendered → Option (List RenderedMessage)
unfolding split_rendered_message or_space
split_collected max_len none = none
split_collected max_len (some s) =
    Option.map or_space (split_rendered_message s.out s.entities max_len)

-- `RenderSegments`: a limit of 0 stands for one that is not positive.
unfoldable pub render_segments : (Text → Bool) → List Segment → ℕ → Option (List RenderedMessage)
unfolding collect_segments split_collected
render_segments is_http_url segments given =
    let max_len = if given == 0 then message_limit else given in
    split_collected max_len
      (collect_segments is_http_url segments (record { out = []; entities = [] }))

-- `RenderMarkdownWithHeader`
unfoldable pub render_markdown_with_header :
    (Text → Bool) → Text → Text → Option (List RenderedMessage)
unfolding render_segments trim_right trim_space
render_markdown_with_header is_http_url header markdown =
    render_segments is_http_url
      (record { plain = trim_right (λ c. c == 10) header; markdown = [] }
        ∷ record { plain = 10 ∷ 10 ∷ []; markdown = [] }
        ∷ record { plain = []; markdown = trim_space markdown }
        ∷ [])
      message_limit
