-- ===== src/AppServer/Items.antt =====
-- internal/appserver/normalize.go: the texts of the items of a turn.
use codex_feishu.Prelude.{
  Bool, not, ◌&&◌, ◌||◌, none, some, List, [], ◌∷◌, ◌++◌, map, if◌then◌else◌, select, any, concat,
}
use codex_feishu.Prelude.Text.{
  Text, codes, text_eq, trim_space, is_empty, is_blank, equal_fold, to_lower, has_prefix, contains,
}
use codex_feishu.Prelude.Text.Split.{split_on, join, cut_at, replace_crlf}
use codex_feishu.AppServer.Json.{
  Json, object, Fields, value_at, array_of, or_nil, as_map, string_at, first_string,
}

-- `cleanToolText`
unfoldable pub clean_tool_text : Text → Text
unfolding trim_space text_eq
clean_tool_text given =
    let value = trim_space given in
    if any (text_eq value) ([] ∷ codes "<nil>" ∷ codes "{}" ∷ codes "[]" ∷ codes "map[]" ∷ [])
    then []
    else value

-- `firstToolText`
unfoldable pub first_tool_text : Fields → List Text → Text
unfolding clean_tool_text
first_tool_text item [] = []
first_tool_text item (key ∷ keys) =
    let text = clean_tool_text (string_at item key) in
    if is_empty text then first_tool_text item keys else text

-- `extractImagePathFromText`
unfoldable pub extract_image_path_from_text : Text → Text
unfolding trim_space cut_at
extract_image_path_from_text given = elim (cut_at (codes "path=\"") (trim_space given)) [
  | none ↦ []
  | some (before, after) ↦ elim (cut_at (codes "\"") after) [
    | none ↦ []
    | some (path, rest) ↦ trim_space path
  ]
]

-- The test of `stripImageTagsFromText` on a line that it drops.
unfoldable pub is_image_tag_line : Text → Bool
unfolding trim_space has_prefix equal_fold
is_image_tag_line line =
    let trimmed = trim_space line in
    has_prefix trimmed (codes "<image ") || equal_fold trimmed (codes "</image>")

-- `stripImageTagsFromText`
unfoldable pub strip_image_tags_from_text : Text → Text
unfolding is_image_tag_line trim_space join split_on replace_crlf
strip_image_tags_from_text text = trim_space (
    join (10 ∷ [])
      (select (λ line. not (is_image_tag_line line)) (split_on 10 (replace_crlf text))))

-- `userMessagePartImagePath`, and the path of `userMessageMediaText`.
unfoldable pub user_message_part_image_path : Fields → Text
unfolding extract_image_path_from_text first_string
user_message_part_image_path part = first_string (
    extract_image_path_from_text (string_at part (codes "text"))
    ∷ string_at part (codes "path")
    ∷ string_at part (codes "file_path")
    ∷ string_at part (codes "filePath")
    ∷ string_at part (codes "image_path")
    ∷ string_at part (codes "imagePath")
    ∷ [])

abbrev image_text : Text → Text
image_text path = codes "[Image: " ++ path ++ codes "]"

-- `userMessageMediaText`
unfoldable pub user_message_media_text : Fields → Text
unfolding user_message_part_image_path trim_space text_eq
user_message_media_text part =
    let path = user_message_part_image_path part in
    if not (is_empty path)
    then image_text path
    else if any (text_eq (trim_space (string_at part (codes "type"))))
        (codes "input_image" ∷ codes "image" ∷ codes "local_image" ∷ [])
    then codes "[Image]"
    else []

-- One round of the loop of `userMessageText`: the texts that it appends.
unfoldable pub part_texts : Json → List Text
unfolding trim_space extract_image_path_from_text strip_image_tags_from_text user_message_media_text
part_texts (object part) =
    let text = trim_space (string_at part (codes "text")) in
    let path = extract_image_path_from_text text in
    let caption = trim_space (strip_image_tags_from_text text) in
    let media = user_message_media_text part in
    if not (is_empty text)
    then (if is_empty path
        then text ∷ []
        else (if is_empty caption then [] else caption ∷ []) ++ image_text path ∷ [])
    else if is_empty media
    then []
    else media ∷ []
part_texts v = []

-- `userMessageText`
unfoldable pub user_message_text : Fields → Text
unfolding trim_space join part_texts array_of
user_message_text item =
    let text = trim_space (string_at item (codes "text")) in
    let content = or_nil (array_of (value_at item (codes "content"))) in
    if is_empty text then trim_space (join (10 ∷ []) (concat (map part_texts content))) else text

-- The loop of `userMessageImagePath` over the parts.
unfoldable pub first_image_path : List Json → Text
unfolding user_message_part_image_path
first_image_path [] = []
first_image_path (raw ∷ rest) =
    let path = user_message_part_image_path (as_map raw) in
    if is_empty path then first_image_path rest else path

-- `userMessageImagePath`
unfoldable pub user_message_image_path : Fields → Text
unfolding user_message_part_image_path first_image_path array_of
user_message_image_path item =
    let path = user_message_part_image_path item in
    if is_empty path
    then first_image_path (or_nil (array_of (value_at item (codes "content"))))
    else path

-- `planText`
unfoldable pub plan_text : Fields → Text
unfolding trim_space user_message_text
plan_text item =
    let text = trim_space (string_at item (codes "text")) in
    let plan = trim_space (string_at item (codes "plan")) in
    if not (is_empty text)
    then text
    else if is_empty plan
    then trim_space (user_message_text item)
    else plan

-- `line[:idx]` at the first line feed
abbrev first_line : Text → Text
first_line t = elim (cut_at (10 ∷ []) t) [ none ↦ t | some (line, rest) ↦ line ]

-- The case "commandExecution" of `renderItemText`.
unfoldable pub render_command : Fields → Text
unfolding clean_tool_text trim_space cut_at
render_command item =
    let command = clean_tool_text (string_at item (codes "command")) in
    let status = trim_space (string_at item (codes "status")) in
    let output = trim_space (string_at item (codes "aggregatedOutput")) in
    let line = trim_space (first_line output) in
    let both = not (is_empty status) && not (is_empty command) in
    if not (is_empty output)
    then (if both then status ++ codes ": " ++ command ++ codes "\nOutput: " ++ line else line)
    else if both
    then status ++ codes ": " ++ command
    else command

-- `renderItemText`
unfoldable pub render_item_text : Fields → Text
unfolding text_eq trim_space user_message_text plan_text render_command clean_tool_text
render_item_text item =
    let kind = string_at item (codes "type") in
    let text = trim_space (string_at item (codes "text")) in
    let path = clean_tool_text (string_at item (codes "path")) in
    if text_eq kind (codes "agentMessage")
    then text
    else if text_eq kind (codes "userMessage")
    then trim_space (user_message_text item)
    else if text_eq kind (codes "plan")
    then trim_space (plan_text item)
    else if text_eq kind (codes "commandExecution")
    then render_command item
    else if text_eq kind (codes "fileChange") && not (is_empty path)
    then codes "File changed: " ++ path
    else text

-- The switch of `toolLabel`.
unfoldable pub labelled : Fields → Text
unfolding trim_space text_eq clean_tool_text first_tool_text
labelled item =
    let kind = trim_space (string_at item (codes "type")) in
    let path = clean_tool_text (string_at item (codes "path")) in
    if text_eq kind (codes "commandExecution")
    then clean_tool_text (string_at item (codes "command"))
    else if text_eq kind (codes "fileChange")
    then (if is_empty path then [] else codes "File changed: " ++ path)
    else if text_eq kind (codes "dynamicToolCall") || text_eq kind (codes "mcpToolCall")
    then first_tool_text item (codes "tool" ∷ codes "name" ∷ codes "namespace" ∷ [])
    else if text_eq kind (codes "webSearch")
    then first_tool_text item (codes "query" ∷ codes "text" ∷ [])
    else []

-- `toolLabel`
unfoldable pub tool_label : Fields → Text
unfolding labelled clean_tool_text render_item_text
tool_label item =
    let label = labelled item in
    if is_empty label then clean_tool_text (render_item_text item) else label

-- `toolStatus`
unfoldable pub tool_status : Fields → Text → Text
unfolding trim_space
tool_status item turn_status =
    let status = trim_space (string_at item (codes "status")) in
    if is_empty status then trim_space turn_status else status

-- The first text that is not blank, or the empty one.
unfoldable pub first_visible : List Text → Text
unfolding is_blank
first_visible [] = []
first_visible (t ∷ ts) = if is_blank t then first_visible ts else t

-- `toolOutput`
unfoldable pub tool_output : Fields → Text
unfolding first_visible text_eq trim_space render_item_text
tool_output item = first_visible (
    string_at item (codes "aggregatedOutput")
    ∷ (if text_eq (trim_space (string_at item (codes "type"))) (codes "commandExecution")
        then string_at item (codes "output")
          ∷ string_at item (codes "stdout")
          ∷ string_at item (codes "stderr")
          ∷ []
        else render_item_text item ∷ []))

-- `normalizeAgentMessagePhase`
unfoldable pub normalize_agent_message_phase : Fields → Text
unfolding trim_space
normalize_agent_message_phase item = trim_space (string_at item (codes "phase"))

-- `isContextCompactionPhase`
unfoldable pub is_context_compaction_phase : Text → Bool
unfolding to_lower trim_space contains
is_context_compaction_phase phase =
    let normalized = to_lower (trim_space phase) in
    contains normalized (codes "compact") || contains normalized (codes "compression")
