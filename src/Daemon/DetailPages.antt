-- ===== src/Daemon/DetailPages.antt =====
-- internal/daemon/details.go: the sections of the card of details, their tools, and its pages. An index
-- that the card gets from a callback is a signed number.
use codex_feishu.Prelude.{
  ℕ, zero, suc, ◌+◌, ◌-◌, ◌*◌, ◌/◌, min, Bool, true, false, ◌&&◌, ◌||◌, Option, none, some, List,
  [], ◌∷◌, ◌++◌, ltb, ◌==◌, if◌then◌else◌, take, drop, select, reverse,
}
pub mod Card
pub mod Pages
pub mod Cover
use codex_feishu.Prelude.Text.{Text, codes, text_eq, is_blank}
use codex_feishu.AppServer.Json.{ℤ, pos, negsuc, end}
use codex_feishu.AppServer.Snapshot.{
  AgentMessageEntry, DetailItem, ThreadReadSnapshot, detail_item_commentary, detail_item_tool,
  detail_item_output,
}
use codex_feishu.AppServer.Details.{no_item}
use codex_feishu.AppServer.Compact.{decimal}

-- `detailSection`
pub record DetailSection : Type 0 where
  pub title : Text
  pub text : Text
  pub commentary_index : ℕ
  pub tool_only : Bool

abbrev pub details_page_size : ℕ
details_page_size = 4

-- `detailsPageCount`
unfoldable pub details_page_count : ℕ → ℕ
details_page_count count =
    if count == 0 then 0 else (count + details_page_size - 1) / details_page_size

-- `clampInt`, at bounds that are not negative.
unfoldable pub clamp_int : ℤ → ℕ → ℕ → ℕ
clamp_int (negsuc n) min_value max_value = min_value
clamp_int (pos n) min_value max_value =
    if ltb n min_value then min_value else if ltb max_value n then max_value else n

-- `detailsItemsForCommentaryIndex`
unfoldable pub details_items_for_commentary_index : ThreadReadSnapshot → ℕ → List DetailItem
unfolding text_eq
details_items_for_commentary_index s k =
    select
      (λ (item : DetailItem).
        item.commentary_index == k
        && (text_eq item.kind detail_item_tool || text_eq item.kind detail_item_output))
      s.detail_items

-- The second loop of `detailCommentaries`, from an index.
unfoldable pub entry_commentaries : ℕ → List AgentMessageEntry → List DetailItem
unfolding is_blank
entry_commentaries index [] = []
entry_commentaries index (e ∷ entries) =
    let rest = entry_commentaries (suc index) entries in
    let item : DetailItem = record no_item {
      id = e.id;
      kind = detail_item_commentary;
      phase = e.phase;
      text = e.text;
      fp = e.fp;
      commentary_index = suc index;
    } in
    if is_blank e.text then rest else item ∷ rest

-- `detailCommentaries`
unfoldable pub detail_commentaries : ThreadReadSnapshot → List DetailItem
unfolding text_eq entry_commentaries
detail_commentaries s =
    elim (select (λ (item : DetailItem). text_eq item.kind detail_item_commentary) s.detail_items) [
      | [] ↦ entry_commentaries 0 (reverse s.latest_agent_message_entries)
      | item ∷ items ↦ item ∷ items
    ]

-- The loop of `detailSections`, from an index.
unfoldable pub commentary_sections : ℕ → List DetailItem → List DetailSection
unfolding decimal
commentary_sections index [] = []
commentary_sections index (item ∷ items) =
    record {
      title = codes "[commentary " ++ decimal (suc index) ++ codes "]";
      text = item.text;
      commentary_index = if item.commentary_index == 0 then suc index else item.commentary_index;
      tool_only = false;
    }
    ∷ commentary_sections (suc index) items

abbrev tool_section : DetailSection
tool_section = record {
  title = codes "Tool activity";
  text = [];
  commentary_index = 0;
  tool_only = true;
}

-- `detailSections`; a nil snapshot has none.
unfoldable pub detail_sections : Option ThreadReadSnapshot → List DetailSection
unfolding details_items_for_commentary_index commentary_sections detail_commentaries
detail_sections none = []
detail_sections (some s) =
    (elim (details_items_for_commentary_index s 0) [ [] ↦ [] | item ∷ items ↦ tool_section ∷ [] ])
    ++ commentary_sections 0 (detail_commentaries s)

-- `detailsItemsForSection`
unfoldable pub details_items_for_section : ThreadReadSnapshot → DetailSection → List DetailItem
unfolding details_items_for_commentary_index
details_items_for_section s section =
    details_items_for_commentary_index s (if section.tool_only then 0 else section.commentary_index)

-- `xs[i]` at an index in range
unfoldable pub get_elem? {ℓ} : {A : Type ℓ} → List A → ℕ → Option A
get_elem? [] i = none
get_elem? (x ∷ xs) zero = some x
get_elem? (x ∷ xs) (suc i) = get_elem? xs i

-- `detailsItemsForCommentary`, at a section that is counted from 1.
unfoldable pub details_items_for_commentary : ThreadReadSnapshot → ℕ → List DetailItem
unfolding detail_sections details_items_for_section get_elem?
details_items_for_commentary s zero = []
details_items_for_commentary s (suc i) = elim (get_elem? (detail_sections (some s)) i) [
  | none ↦ []
  | some section ↦ details_items_for_section s section
]

-- The loop of `firstCommentaryWithToolsOnPage`, at an index, with the number of rounds that are left.
unfoldable pub first_with_tools : ThreadReadSnapshot → ℕ → ℕ → Option ℕ
unfolding details_items_for_commentary
first_with_tools s index zero = none
first_with_tools s index (suc rounds) =
    let rest = first_with_tools s (suc index) rounds in
    elim (details_items_for_commentary s index) [ [] ↦ rest | item ∷ items ↦ some index ]

-- `firstCommentaryWithToolsOnPage`
unfoldable pub first_commentary_with_tools_on_page : ThreadReadSnapshot → ℤ → ℕ → ℕ
unfolding clamp_int details_page_count first_with_tools
first_commentary_with_tools_on_page s page commentary_count =
    let start =
      clamp_int page 0 (details_page_count commentary_count - 1) * details_page_size + 1 in
    let end = min (start + details_page_size - 1) commentary_count in
    if commentary_count == 0 then 1 else elim (first_with_tools s start (end + 1 - start)) [
      | some index ↦ index
      | none ↦ clamp_int (pos start) 1 commentary_count
    ]

-- The sections of a page in `renderDetailsCard`: from `state.Page * detailsPageSize` to
-- `minInt(start+detailsPageSize, len(sections))`.
unfoldable pub page_sections : List DetailSection → ℕ → List DetailSection
page_sections sections page = take details_page_size (drop (page * details_page_size) sections)
