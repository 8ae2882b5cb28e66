-- ===== src/Daemon/LiveTool.antt =====
-- internal/daemon/service.go: what a live event of a tool does to the snapshot of its thread.
-- `isTerminalStatus` and `terminalToolStatus` are the functions of normalize.go under other names.
use codex_feishu.Prelude.{
  ℕ, suc, ◌+◌, ◌-◌, ◌<◌, Bool, true, false, not, ◌&&◌, ◌||◌, Option, none, some, List, [], ◌∷◌,
  ◌++◌, ltb, leb, ◌==◌, if◌then◌else◌, length, select, any,
}
use codex_feishu.AppServer.Json.{nil}
pub mod Forward
pub mod Upsert
pub mod Write
use codex_feishu.Prelude.Text.{Text, codes, text_eq, trim_space, is_empty, is_blank}
use codex_feishu.Prelude.Text.Split.{split_on}
use codex_feishu.AppServer.Payload.{terminal_turn_status, terminal_latest_tool_status}
use codex_feishu.AppServer.Snapshot.{Thread, DetailItem, ThreadReadSnapshot, detail_item_tool}
use codex_feishu.Storage.Rows.{text_ltb}

-- `firstNonEmpty`, whose `cleanPayloadString` reads a nil as empty.
unfoldable pub first_non_empty : List Text → Text
unfolding trim_space text_eq
first_non_empty [] = []
first_non_empty (t ∷ ts) =
    let trimmed = trim_space t in
    if is_empty trimmed || text_eq trimmed (codes "<nil>") then first_non_empty ts else trimmed

abbrev pub or_given : Text → Text → Text
or_given t fallback = if is_blank t then fallback else t

abbrev pub or_given_raw : Text → Text → Text
or_given_raw t fallback = if is_empty t then fallback else t

-- `mergeThreadMetadata`
unfoldable pub merge_thread_metadata : Thread → Thread → Thread
unfolding is_blank terminal_turn_status
merge_thread_metadata t fallback =
    let status = or_given t.status fallback.status in
    record {
      id = or_given t.id fallback.id;
      title = or_given t.title fallback.title;
      cwd = or_given t.cwd fallback.cwd;
      project_name = or_given t.project_name fallback.project_name;
      directory_name = or_given t.directory_name fallback.directory_name;
      updated_at = if t.updated_at == 0 then fallback.updated_at else t.updated_at;
      status = status;
      last_preview = or_given t.last_preview fallback.last_preview;
      active_turn_id =
          if is_blank t.active_turn_id && not (terminal_turn_status status)
          then fallback.active_turn_id
          else t.active_turn_id;
      preferred_model = or_given t.preferred_model fallback.preferred_model;
      permissions_mode = or_given t.permissions_mode fallback.permissions_mode;
      archived = t.archived || fallback.archived;
      listed = t.listed;
      raw = or_given_raw t.raw fallback.raw;
    }

unfoldable pub is_hex : ℕ → Bool
is_hex c = (leb b'0' c && leb c b'9') || (leb b'a' c && leb c b'f') || (leb b'A' c && leb c b'F')

abbrev every : (ℕ → Bool) → Text → Bool
every p t = not (any (λ c. not (p c)) t)

unfoldable pub has_sizes : List ℕ → List Text → Bool
unfolding is_hex
has_sizes [] [] = true
has_sizes (n ∷ ns) (part ∷ parts) = length part == n && every is_hex part && has_sizes ns parts
has_sizes ns parts = false

-- `codexThreadIDPattern`
unfoldable pub is_codex_thread_id : Text → Bool
unfolding has_sizes split_on
is_codex_thread_id t = has_sizes (8 ∷ 4 ∷ 4 ∷ 4 ∷ 12 ∷ []) (split_on b'-' t)

-- `turnIDAfter`
unfoldable pub turn_id_after : Text → Text → Bool
unfolding trim_space is_codex_thread_id text_ltb
turn_id_after given_candidate given_current =
    let candidate = trim_space given_candidate in
    let current = trim_space given_current in
    is_codex_thread_id candidate && is_codex_thread_id current && text_ltb current candidate

-- The place in the list of the last tool that `latestToolDetailIndex` matches.
abbrev is_match : Text → Text → DetailItem → Bool
is_match tool_id label item =
    text_eq item.kind detail_item_tool
    && (if is_empty tool_id
        then text_eq (trim_space item.label) label
        else text_eq (trim_space item.id) tool_id)

unfoldable pub last_index : (DetailItem → Bool) → ℕ → List DetailItem → Option ℕ
last_index p i [] = none
last_index p i (item ∷ items) = elim (last_index p (suc i) items) [
  | none ↦ if p item then some i else none
  | some j ↦ some j
]

-- `latestToolDetailIndex`; -1 is `none`.
unfoldable pub latest_tool_detail_index : List DetailItem → Text → Text → Option ℕ
unfolding trim_space last_index text_eq
latest_tool_detail_index items given_id given_label =
    let tool_id = trim_space given_id in
    let label = trim_space given_label in
    if is_empty tool_id && is_empty label then none else last_index (is_match tool_id label) 0 items

abbrev pub both_before : Option ℕ → Option ℕ → Bool
both_before (some i) (some j) = ltb i j
both_before i j = false

-- `liveToolIsOlderThanCurrentSameTurn`
unfoldable pub live_tool_is_older_than_current_same_turn :
    ThreadReadSnapshot → ThreadReadSnapshot → Bool
unfolding latest_tool_detail_index
live_tool_is_older_than_current_same_turn s live =
    both_before (latest_tool_detail_index s.detail_items live.latest_tool_id live.latest_tool_label)
      (latest_tool_detail_index s.detail_items s.latest_tool_id s.latest_tool_label)

-- The live items with this id, in `upsertLiveToolDetails`.
abbrev pub is_replaced : List DetailItem → DetailItem → Bool
is_replaced live item =
    any
      (λ (l : DetailItem).
        not (is_empty (trim_space l.id)) && text_eq (trim_space l.id) (trim_space item.id))
      live

-- `upsertLiveToolDetails`
unfoldable pub upsert_live_tool_details : List DetailItem → List DetailItem → List DetailItem
unfolding trim_space text_eq
upsert_live_tool_details items [] = items
upsert_live_tool_details items (l ∷ live) =
    select (λ item. not (is_replaced (l ∷ live) item)) items ++ l ∷ live

-- `sameToolSnapshot`
unfoldable pub same_tool_snapshot : ThreadReadSnapshot → ThreadReadSnapshot → Bool
unfolding trim_space text_eq
same_tool_snapshot left right =
    let left_id = trim_space left.latest_tool_id in
    let right_id = trim_space right.latest_tool_id in
    let left_label = trim_space left.latest_tool_label in
    if not (is_empty left_id) && not (is_empty right_id)
    then text_eq left_id right_id
    else not (is_empty left_label) && text_eq left_label (trim_space right.latest_tool_label)

-- The guards of `applyLiveToolSnapshot` on the snapshot so far, at the turn of the event: the event
-- is of another turn that does not follow an ended one,
unfoldable pub is_other_turn : ThreadReadSnapshot → Text → Bool
unfolding text_eq terminal_turn_status turn_id_after
is_other_turn s turn_id =
    not (is_empty s.latest_turn_id)
    && not (text_eq s.latest_turn_id turn_id)
    && not (terminal_turn_status s.latest_turn_status && turn_id_after turn_id s.latest_turn_id)

-- the turn has ended with a final answer,
unfoldable pub has_ended : ThreadReadSnapshot → Text → Bool
unfolding text_eq terminal_turn_status is_blank
has_ended s turn_id =
    text_eq s.latest_turn_id turn_id
    && terminal_turn_status s.latest_turn_status
    && not (is_blank s.latest_final_fp)

-- the tool is older than the one that is shown, or it is that one and has ended already.
unfoldable pub is_outdated : ThreadReadSnapshot → ThreadReadSnapshot → Text → Bool
unfolding text_eq live_tool_is_older_than_current_same_turn same_tool_snapshot
    terminal_latest_tool_status
is_outdated s live turn_id =
    text_eq s.latest_turn_id turn_id
    && (live_tool_is_older_than_current_same_turn s live
        || (same_tool_snapshot s live
            && terminal_latest_tool_status s.latest_tool_status
            && not (terminal_latest_tool_status live.latest_tool_status)))

unfoldable pub is_refused : ThreadReadSnapshot → ThreadReadSnapshot → Text → Bool
unfolding is_other_turn has_ended is_outdated
is_refused s live turn_id =
    is_empty turn_id || is_other_turn s turn_id || has_ended s turn_id || is_outdated s live turn_id

-- The snapshot with the tool of the event.
unfoldable pub with_live_tool : ThreadReadSnapshot → ThreadReadSnapshot → Text → ThreadReadSnapshot
unfolding first_non_empty upsert_live_tool_details
with_live_tool s live turn_id = record s {
  latest_turn_id = turn_id;
  latest_turn_status =
      first_non_empty (live.latest_turn_status ∷ s.latest_turn_status ∷ codes "inProgress" ∷ []);
  thread = record s.thread {
    active_turn_id = turn_id;
    status = first_non_empty (live.thread.status ∷ s.thread.status ∷ codes "inProgress" ∷ []);
  };
  latest_tool_id = live.latest_tool_id;
  latest_tool_kind = live.latest_tool_kind;
  latest_tool_label = live.latest_tool_label;
  latest_tool_status = live.latest_tool_status;
  latest_tool_output = live.latest_tool_output;
  latest_tool_fp = live.latest_tool_fp;
  latest_tool_live_current = live.latest_tool_live_current;
  latest_progress_text = live.latest_progress_text;
  latest_progress_fp = live.latest_progress_fp;
  detail_items = upsert_live_tool_details s.detail_items live.detail_items;
}

-- `turnID` of `applyLiveToolSnapshot`
unfoldable pub turn_of_event : ThreadReadSnapshot → ThreadReadSnapshot → Text
unfolding trim_space
turn_of_event s live =
    let turn_id = trim_space live.latest_turn_id in
    if is_empty turn_id then trim_space s.latest_turn_id else turn_id

-- What `applyLiveToolSnapshot` does to the snapshot so far.
unfoldable pub apply_live_tool : ThreadReadSnapshot → ThreadReadSnapshot → Option ThreadReadSnapshot
unfolding is_refused with_live_tool turn_of_event
apply_live_tool s live =
    let turn_id = turn_of_event s live in
    if is_refused s live turn_id then none else some (with_live_tool s live turn_id)
