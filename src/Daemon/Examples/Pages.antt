-- ===== src/Daemon/Examples/Pages.antt =====
-- The theorem on the pages of the details card at a turn with five comments and a tool.
use codex_feishu.Prelude.{
  ℕ, ◌+◌, ◌<◌, ◌≡◌, Bool, false, some, [], ◌∷◌, ◌++◌, map, arith, length, concat,
}
use codex_feishu.Prelude.Text.{Text, codes}
use codex_feishu.AppServer.Json.{pos}
use codex_feishu.AppServer.Snapshot.{DetailItem, ThreadReadSnapshot, detail_item_commentary}
use codex_feishu.AppServer.ReadSnapshot.{no_snapshot}
use codex_feishu.AppServer.Details.{no_item}
use codex_feishu.Msgformat.Segments.{message_limit}
use codex_feishu.Daemon.DetailPages.{
  details_page_count, details_items_for_commentary_index, detail_commentaries, commentary_sections,
  detail_sections, page_sections,
}
use codex_feishu.Daemon.DetailPages.Card.{
  plain, page_segments, CardTexts, details_segments, render_details_card,
}
use codex_feishu.Daemon.DetailPages.Pages.{pages_from, is_nil, Shows, details_segments-covers}
use codex_feishu.Daemon.Examples.{tool_item}

abbrev comment : ℕ → DetailItem
comment n = record no_item {
  kind = detail_item_commentary;
  text = codes "Building.";
  commentary_index = n;
}

abbrev long_turn : ThreadReadSnapshot
long_turn = record no_snapshot {
  detail_items = tool_item "a" ∷ comment 1 ∷ comment 2 ∷ comment 3 ∷ comment 4 ∷ comment 5 ∷ [];
}

abbrev card_texts : CardTexts
card_texts = record {
  header = codes "Details";
  no_entries = codes "No detail entries for this turn.";
  page_of = λ page total. codes "Page";
}

abbrev no_url : Text → Bool
no_url t = false

has_second_page : 1 < details_page_count (length (detail_sections (some long_turn)))
unfolding details_page_count detail_sections details_items_for_commentary_index commentary_sections
    detail_commentaries
has_second_page = omega arith

details_segments-covers_example :
    let sections = detail_sections (some long_turn) in
    let count = details_page_count (length sections) in
    (details_segments long_turn card_texts false (pos 1) (pos 1)
      ≡ plain card_texts.header ∷ page_segments long_turn (page_sections sections 1)
        ++ plain (card_texts.page_of (1 + 1) count) ∷ [])
    × (is_nil (page_sections sections 1) ≡ false)
    × (concat (map (page_segments long_turn) (pages_from sections 0 count))
        ≡ page_segments long_turn sections)
    × Shows message_limit (render_details_card no_url long_turn card_texts false (pos 1) (pos 1))
details_segments-covers_example =
    details_segments-covers no_url long_turn card_texts 1 (pos 1) has_second_page
