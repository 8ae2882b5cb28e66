-- ===== src/AppServer/Payload.antt =====
-- internal/appserver/normalize.go: identifiers and statuses in a payload. internal/model/types.go:
-- the project of a path.
use codex_feishu.Prelude.{
  ℕ, max, Bool, not, ◌&&◌, ◌||◌, none, some, List, [], ◌∷◌, ◌++◌, map, ◌==◌, if◌then◌else◌, any,
}
use codex_feishu.Prelude.Text.{
  Text, codes, text_eq, trim_space, is_empty, to_lower, has_prefix, contains,
}
use codex_feishu.Prelude.Text.Split.{base_name, join, clean_path}
use codex_feishu.AppServer.Json.{
  ℤ, pos, negsuc, Json, string, object, Fields, Encoding, value_at, object_of, string_at,
  int64_value, string_slice_value,
}

-- `nested, ok := payload[key].(map[string]any)`, and the empty text where it is not one.
abbrev pub within : Fields → Text → (Fields → Text) → Text
within payload k f = elim (object_of (value_at payload k)) [ none ↦ [] | some nested ↦ f nested ]

-- The first text that is not empty: a chain of `if value := …; value != "" { return value }`.
unfoldable pub first_value : List Text → Text
first_value [] = []
first_value (t ∷ ts) = if is_empty t then first_value ts else t

-- `nestedThreadID`
unfoldable pub nested_thread_id : Fields → Text
unfolding first_value
nested_thread_id params = first_value (
    string_at params (codes "threadId")
    ∷ within params (codes "thread") (λ thread.
      first_value (string_at thread (codes "id") ∷ string_at thread (codes "threadId") ∷ []))
    ∷ within params (codes "turn") (λ turn. first_value (
        string_at turn (codes "threadId")
        ∷ within turn (codes "thread") (λ thread. string_at thread (codes "id"))
        ∷ []))
    ∷ within params (codes "item") (λ item. string_at item (codes "threadId"))
    ∷ [])

-- `serverRequestTurnID`
unfoldable pub server_request_turn_id : Fields → Text
unfolding first_value
server_request_turn_id params = first_value (
    string_at params (codes "turnId")
    ∷ within params (codes "turn")
        (λ turn. first_value (string_at turn (codes "id") ∷ string_at turn (codes "turnId") ∷ []))
    ∷ [])

-- `serverRequestItemID`
unfoldable pub server_request_item_id : Fields → Text
unfolding first_value
server_request_item_id params = first_value (
    string_at params (codes "itemId")
    ∷ within params (codes "item")
        (λ item. first_value (string_at item (codes "id") ∷ string_at item (codes "itemId") ∷ []))
    ∷ [])

-- The text of a status object with these flags.
abbrev pub flagged : Text → List Text → Text
flagged kind [] = kind
flagged kind (flag ∷ flags) =
    if text_eq kind (codes "active")
    then codes "active[" ++ join (codes ",") (flag ∷ flags) ++ codes "]"
    else kind

-- `statusText`
unfoldable pub status_text : Encoding → Json → Text
unfolding text_eq join string_slice_value
status_text lib (string t) = t
status_text lib (object fs) =
    flagged (string_at fs (codes "type"))
      (string_slice_value lib (value_at fs (codes "activeFlags")))
status_text lib v = []

-- `statusHasFlag`
unfoldable pub status_has_flag : Text → Text → Bool
unfolding to_lower trim_space text_eq contains
status_has_flag given named =
    let status = to_lower (trim_space given) in
    let flag = to_lower (trim_space named) in
    not (is_empty status) && not (is_empty flag) && (text_eq status flag || contains status flag)

-- The two flags of `WaitingOnReply`.
unfoldable pub waits_for_reply : Text → Bool
unfolding status_has_flag
waits_for_reply status =
    status_has_flag status (codes "waitingOnUserInput")
    || status_has_flag status (codes "waitingOnInput")

-- `terminalTurnStatus`
unfoldable pub terminal_turn_status : Text → Bool
unfolding trim_space to_lower text_eq
terminal_turn_status status = any (text_eq (trim_space (to_lower status))) (
    codes "completed"
    ∷ codes "interrupted"
    ∷ codes "failed"
    ∷ codes "cancelled"
    ∷ codes "canceled"
    ∷ [])

-- `terminalLatestToolStatus`
unfoldable pub terminal_latest_tool_status : Text → Bool
unfolding trim_space to_lower text_eq
terminal_latest_tool_status status = any (text_eq (to_lower (trim_space status))) (
    codes "completed"
    ∷ codes "succeeded"
    ∷ codes "failed"
    ∷ codes "interrupted"
    ∷ codes "cancelled"
    ∷ codes "canceled"
    ∷ [])

-- `statusLooksLive`
unfoldable pub status_looks_live : Text → Bool
unfolding trim_space to_lower text_eq has_prefix contains
status_looks_live given =
    let status = trim_space (to_lower given) in
    text_eq status (codes "active")
    || has_prefix status (codes "active[")
    || contains status (codes "inprogress")
    || contains status (codes "running")

-- `maxInt64`, which starts from 0.
abbrev pub or_zero : ℤ → ℕ
or_zero (pos n) = n
or_zero (negsuc n) = 0

unfoldable pub max_int64 : ℤ → ℤ → ℕ
max_int64 a b = max (or_zero a) (or_zero b)

-- `payloadActivityAt`
unfoldable pub payload_activity_at : Fields → ℕ
unfolding max_int64 int64_value
payload_activity_at payload =
    max_int64 (int64_value (value_at payload (codes "updatedAt")))
      (int64_value (value_at payload (codes "recencyAt")))

-- `NormalizePath`
unfoldable pub normalize_path : Text → Text
unfolding trim_space clean_path text_eq
normalize_path given =
    let trimmed = trim_space given in
    let cleaned = clean_path (map (λ c. if c == b'\\' then b'/' else c) trimmed) in
    if is_empty trimmed || text_eq cleaned (codes ".") then [] else cleaned

-- `ProjectNameFromCWD`: the project and the directory.
unfoldable pub project_name_from_cwd : Text → Text × Text
unfolding normalize_path to_lower text_eq base_name
project_name_from_cwd cwd =
    let normalized = normalize_path cwd in
    let dir = base_name normalized in
    if is_empty normalized
    then (codes "Shared/General", [])
    else if text_eq (to_lower normalized) (codes "c:/users/you/documents/codex")
    then (codes "Shared/General", codes "General")
    else if text_eq dir (codes ".") || text_eq dir (codes "/") || is_empty dir
    then (codes "Shared/General", [])
    else (dir, dir)
