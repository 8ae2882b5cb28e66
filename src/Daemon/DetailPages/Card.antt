-- ===== src/Daemon/DetailPages/Card.antt =====
-- internal/daemon/details.go: the text of the details card, with trimOutputTail and
-- firstRenderedMessage of panels.go. Of all messages that its segments are rendered to, the card shows
-- the first.
use codex_feishu.Prelude.{
  ℕ, ◌+◌, ◌-◌, ◌/◌, max, Bool, not, ◌&&◌, ◌||◌, Option, none, some, List, [], ◌∷◌, ◌++◌, map, leb,
  ◌==◌, if◌then◌else◌, length, take, concat,
}
use mathlib.Core.Option
use codex_feishu.Prelude.Text.{Text, codes, text_eq, trim_space, is_empty, rune_len, byte_len}
use codex_feishu.Prelude.Text.Split.{cut_at}
use codex_feishu.AppServer.Json.{ℤ}
use codex_feishu.AppServer.Snapshot.{
  DetailItem, ThreadReadSnapshot, detail_item_tool, detail_item_output,
}
use codex_feishu.Msgformat.Units.{RenderedMessage}
use codex_feishu.Msgformat.Segments.{Segment, message_limit, render_segments}
use codex_feishu.Daemon.DetailPages.{
  DetailSection, details_page_count, clamp_int, detail_sections, details_items_for_section,
  get_elem?, page_sections,
}
use codex_feishu.Daemon.Polling.Preserve.{clean_nil_literal}

-- `trimHead`
unfoldable pub trim_head : Text → ℕ → Text
unfolding trim_space byte_len
trim_head given limit =
    let value = trim_space given in
    if limit == 0 || leb (byte_len value) limit
    then value
    else if leb (length value) limit
    then value
    else trim_space (take limit value) ++ 10 ∷ codes "..."

-- A text without its first bytes. Bytes that are left of a rune are read as U+FFFD each.
unfoldable pub drop_bytes : ℕ → Text → Text
unfolding rune_len
drop_bytes n [] = []
drop_bytes n (c ∷ cs) =
    let rest = drop_bytes (n - rune_len c) cs in
    if n == 0
    then c ∷ cs
    else if leb (rune_len c) n
    then rest
    else map (λ b. 65533) (take (rune_len c - n) (c ∷ c ∷ c ∷ c ∷ [])) ++ cs

-- From the line that follows in the window, if there is one.
abbrev from_next_line : Text → Option (Text × Text) → Text
from_next_line window none = window
from_next_line window (some (before, [])) = window
from_next_line window (some (before, c ∷ cs)) = c ∷ cs

-- `trimOutputTail`
unfoldable pub trim_output_tail : Text → ℕ → Text
unfolding trim_space byte_len drop_bytes cut_at
trim_output_tail output limit =
    let window = drop_bytes (byte_len output - limit) output in
    if limit == 0 || leb (byte_len output) limit
    then output
    else trim_space (from_next_line window (cut_at (10 ∷ []) window))

abbrev pub plain : Text → Segment
plain t = record { plain = t; markdown = [] }

abbrev markdown : Text → Segment
markdown t = record { plain = []; markdown = t }

abbrev fenced : Text → Segment
fenced t = markdown (codes "```" ++ (10 ∷ t) ++ 10 ∷ codes "```")

-- The first text, or the second where it is blank, without nil literals.
unfoldable pub shown_text : Text → Text → Text
unfolding trim_space clean_nil_literal
shown_text t other =
    let s = trim_space (clean_nil_literal t) in
    if is_empty s then trim_space (clean_nil_literal other) else s

-- The body of the loop of `appendToolDetailSegments`.
unfoldable pub item_segments : ℕ → DetailItem → List Segment
unfolding text_eq trim_space trim_head trim_output_tail shown_text
item_segments per_item item =
    let label = shown_text item.label item.text in
    let output = shown_text item.output item.text in
    let status = trim_space item.status in
    if text_eq item.kind detail_item_tool
    then plain (10 ∷ 10 ∷ codes "[Tool]" ++ 10 ∷ [])
        ∷ (if is_empty label then [] else fenced (trim_head label per_item) ∷ [])
      ++ (if is_empty status then [] else plain (10 ∷ codes "Status: " ++ status) ∷ [])
    else if text_eq item.kind detail_item_output && not (is_empty output)
    then plain (10 ∷ 10 ∷ codes "[Output]" ++ 10 ∷ [])
      ∷ fenced (trim_output_tail output per_item)
      ∷ []
    else []

-- `appendToolDetailSegments`: what it appends.
unfoldable pub tool_detail_segments : List DetailItem → ℕ → List Segment
unfolding item_segments
tool_detail_segments [] quota =
    plain (10 ∷ 10 ∷ codes "No related tool/output entries for this commentary.") ∷ []
tool_detail_segments (item ∷ items) quota =
    concat (map (item_segments (max 300 (quota / length (item ∷ items)))) (item ∷ items))

-- `appendDetailSectionHeaderSegments`
unfoldable pub section_header_segments : DetailSection → List Segment
unfolding trim_space clean_nil_literal
section_header_segments section =
    let text = trim_space (clean_nil_literal section.text) in
    plain (10 ∷ 10 ∷ section.title)
    ∷ (if is_empty text then [] else plain (10 ∷ []) ∷ markdown text ∷ [])

abbrev details_tool_max_bytes : ℕ
details_tool_max_bytes = 2800

-- `appendDetailSectionSummarySegments`
unfoldable pub section_summary_segments : ThreadReadSnapshot → DetailSection → List Segment
unfolding section_header_segments tool_detail_segments details_items_for_section
section_summary_segments s section =
    section_header_segments section
    ++ (if section.tool_only
        then tool_detail_segments (details_items_for_section s section) details_tool_max_bytes
        else [])

-- The loop of `renderDetailsCard` over the sections of a page.
unfoldable pub page_segments : ThreadReadSnapshot → List DetailSection → List Segment
unfolding section_summary_segments
page_segments s sections = concat (map (section_summary_segments s) sections)

-- The texts that `renderDetailsCard` composes in the language of the bot: the header, that there are no
-- entries, and the page of a number of pages.
pub record CardTexts : Type 0 where
  pub header : Text
  pub no_entries : Text
  pub page_of : ℕ → ℕ → Text

-- The section that the tool mode shows.
unfoldable pub tool_mode_segments :
    ThreadReadSnapshot → CardTexts → ℤ → List DetailSection → List Segment
unfolding clamp_int get_elem? section_header_segments tool_detail_segments details_items_for_section
tool_mode_segments s texts commentary_index sections =
    elim (get_elem? sections (clamp_int commentary_index 1 (max 1 (length sections)) - 1)) [
      | none ↦ plain texts.no_entries ∷ []
      | some section ↦
          section_header_segments section
          ++ tool_detail_segments (details_items_for_section s section) details_tool_max_bytes
    ]

-- The segments of a page between the header and the end.
unfoldable pub page_mode_segments :
    ThreadReadSnapshot → CardTexts → ℕ → ℕ → List DetailSection → List Segment
unfolding page_segments page_sections
page_mode_segments s texts page total [] = plain texts.no_entries ∷ []
page_mode_segments s texts page total (x ∷ xs) =
    page_segments s (page_sections (x ∷ xs) page) ++ plain (texts.page_of (page + 1) total) ∷ []

-- The segments of `renderDetailsCard` for these sections, at the state of the view.
unfoldable pub card_segments :
    ThreadReadSnapshot → CardTexts → Bool → ℤ → ℤ → List DetailSection → List Segment
unfolding details_page_count clamp_int page_mode_segments tool_mode_segments
card_segments s texts tool_mode given_page commentary_index sections =
    let total = max 1 (details_page_count (length sections)) in
    let page = clamp_int given_page 0 (total - 1) in
    plain texts.header
    ∷ (if tool_mode
        then tool_mode_segments s texts commentary_index sections
        else page_mode_segments s texts page total sections)

-- The segments of `renderDetailsCard`.
unfoldable pub details_segments : ThreadReadSnapshot → CardTexts → Bool → ℤ → ℤ → List Segment
unfolding detail_sections card_segments
details_segments s texts tool_mode page commentary_index =
    card_segments s texts tool_mode page commentary_index (detail_sections (some s))

-- `firstRenderedMessage`
unfoldable pub first_rendered_message : List RenderedMessage → RenderedMessage
first_rendered_message [] = record { text = codes " "; entities = [] }
first_rendered_message (m ∷ ms) = m

-- The message of `renderDetailsCard`.
unfoldable pub render_details_card :
    (Text → Bool) → ThreadReadSnapshot → CardTexts → Bool → ℤ → ℤ → Option RenderedMessage
unfolding details_segments render_segments first_rendered_message
render_details_card is_http_url s texts tool_mode page commentary_index =
    Option.map first_rendered_message (
      render_segments is_http_url (details_segments s texts tool_mode page commentary_index)
        message_limit)
