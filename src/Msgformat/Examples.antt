-- ===== src/Msgformat/Examples.antt =====
-- Markdown rendered and cut, on small texts.
use codex_feishu.Prelude.{ℕ, ◌≡◌, refl, Bool, not, none, some, List, [], ◌∷◌, ◌++◌, map, arith, All}
use mathlib.Core.Option
use codex_feishu.Prelude.Text.{Text, codes, is_empty, rune_len}
use codex_feishu.Msgformat.Units.{MessageEntity, RenderedMessage, rune_utf16_len, utf16_len, Inside}
use codex_feishu.Msgformat.Markdown.{render_markdown_entities}
use codex_feishu.Msgformat.Markdown.Ranges.{Renders, render_markdown_entities-Renders}
use codex_feishu.Msgformat.Split.{split_rendered_message}
use codex_feishu.Msgformat.Split.Chunks.{Cuts, split_rendered_message-Cuts}
use codex_feishu.Msgformat.Segments.{Segment, message_limit, render_segments}
use codex_feishu.Msgformat.Segments.Bounds.{Sends, render_segments-Sends}

abbrev any_url : Text → Bool
any_url t = not (is_empty t)

abbrev sample : Text
sample = codes "see [site](http://a.b), `x` or http://c.d. end"

-- The rendered sample.
rendered-sample :
    map {B = ℕ × ℕ}
      (λ (e : MessageEntity). (e.offset, e.length))
      (elim (render_markdown_entities any_url sample) [ none ↦ [] | some s ↦ s.entities ])
    ≡ (4, 4) ∷ (10, 1) ∷ (15, 10) ∷ []
unfolding render_markdown_entities
rendered-sample = refl

render_markdown_entities-Renders_example : Renders (render_markdown_entities any_url sample)
render_markdown_entities-Renders_example = render_markdown_entities-Renders any_url sample

abbrev bold : List MessageEntity
bold = record { kind = codes "code"; offset = 1; length = 3; url = []; language = [] } ∷ []

-- A text with a rune of two units.
abbrev wide : Text
wide = codes "ab" ++ 0x1f600 ∷ codes "cdef"

wide-Inside : All (Inside (utf16_len wide)) bold
unfolding utf16_len rune_utf16_len
wide-Inside = (omega arith, tt)

-- The sizes of the messages.
split-wide :
    Option.map
      (λ ms. map (λ (m : RenderedMessage). utf16_len m.text) ms)
      (split_rendered_message wide bold 3)
    ≡ some (2 ∷ 3 ∷ 3 ∷ [])
unfolding split_rendered_message rune_len
split-wide = refl

split_rendered_message-Cuts_example : Cuts 3 wide (split_rendered_message wide bold 3)
split_rendered_message-Cuts_example =
    split_rendered_message-Cuts wide bold 3 (omega arith) wide-Inside

abbrev segments : List Segment
segments = record { plain = codes "Reply:"; markdown = sample } ∷ []

render_segments-Sends_example : Sends message_limit (render_segments any_url segments 0)
render_segments-Sends_example = render_segments-Sends any_url segments 0 (λ e. omega (arith, e))
