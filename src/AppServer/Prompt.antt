-- ===== src/AppServer/Prompt.antt =====
-- internal/appserver/normalize.go: the question that a thread waits with, and its choices.
use codex_feishu.Prelude.{
  Bool, not, ◌&&◌, Option, none, some, List, [], ◌∷◌, ◌++◌, map, if◌then◌else◌, take, select,
  reverse,
}
use codex_feishu.Prelude.Text.{
  Text, codes, text_eq, trim_space, is_empty, is_blank, to_lower, contains,
}
use codex_feishu.Prelude.Text.Split.{join}
use codex_feishu.AppServer.Json.{
  Json, string, object, Fields, Encoding, value_at, array_of, or_nil, as_map, string_at, rpc_string,
  fingerprint,
}
use codex_feishu.AppServer.Items.{user_message_text, plan_text, normalize_agent_message_phase}
use codex_feishu.AppServer.Collect.{item_type, item_id}
use codex_feishu.AppServer.Snapshot.{PlanPrompt}

-- What an item asks in the first loop of `latestPlanQuestion`; empty where it continues.
unfoldable pub asked : Fields → Text
unfolding text_eq to_lower trim_space user_message_text plan_text normalize_agent_message_phase
asked item =
    let is_final =
      text_eq (to_lower (trim_space (normalize_agent_message_phase item))) (codes "final_answer") in
    if text_eq (item_type item) (codes "agentMessage")
    then (if is_final then [] else trim_space (user_message_text item))
    else if text_eq (item_type item) (codes "plan")
    then trim_space (plan_text item)
    else []

-- What an item asks in the second loop.
unfoldable pub asked_by_user : Fields → Text
unfolding text_eq trim_space user_message_text contains
asked_by_user item =
    let text = trim_space (user_message_text item) in
    if text_eq (item_type item) (codes "userMessage") && contains text (codes "?") then text else []

-- A loop from the end to the first item that asks: its id and the question.
unfoldable pub question_among : (Fields → Text) → List Json → Text × Text
question_among f [] = ([], [])
question_among f (raw ∷ before) =
    let next = question_among f before in
    let text = f (as_map raw) in if is_empty text then next else (item_id (as_map raw), text)

-- `latestPlanQuestion`
unfoldable pub latest_plan_question : List Json → Text × Text
unfolding question_among asked asked_by_user
latest_plan_question items =
    let found = question_among asked (reverse items) in
    if is_empty found.1 then question_among asked_by_user (reverse items) else found

module _ (lib : Encoding) where
  -- The loop over the fields of a choice.
  unfoldable pub first_field : Fields → List Text → Text
  unfolding rpc_string
  first_field fs [] = []
  first_field fs (key ∷ keys) =
      let text = rpc_string lib (value_at fs key) in
      if is_empty text then first_field fs keys else text

  unfoldable pub choice_text : Json → Text
  unfolding trim_space first_field
  choice_text (string t) = trim_space t
  choice_text (object fs) = first_field fs (codes "label" ∷ codes "text" ∷ codes "value" ∷ [])
  choice_text v = []

  -- The choices under one key.
  unfoldable pub choices_at : Fields → Text → List Text
  unfolding array_of choice_text
  choices_at payload key =
      select (λ text. not (is_empty text))
        (map choice_text (or_nil (array_of (value_at payload key))))

  unfoldable pub first_choices : Fields → List Text → List Text
  unfolding choices_at
  first_choices payload [] = []
  first_choices payload (key ∷ keys) = elim (choices_at payload key) [
    | [] ↦ first_choices payload keys
    | option ∷ options ↦ option ∷ options
  ]

  -- `extractChoiceOptions`
  unfoldable pub extract_choice_options : Fields → List Text
  unfolding first_choices
  extract_choice_options payload =
      first_choices payload
        (codes "choices" ∷ codes "options" ∷ codes "suggestions" ∷ codes "responses" ∷ [])

  unfoldable pub options_among : List Json → List Text
  unfolding extract_choice_options
  options_among [] = []
  options_among (raw ∷ before) = elim (extract_choice_options (as_map raw)) [
    | [] ↦ options_among before
    | option ∷ options ↦ option ∷ options
  ]

  -- `latestChoiceOptions`
  unfoldable pub latest_choice_options : List Json → List Text
  unfolding options_among
  latest_choice_options items = options_among (reverse items)

  -- `model.PromptSourceSyntheticPoll`
  abbrev pub prompt_source_synthetic_poll : Text
  prompt_source_synthetic_poll = codes "synthetic_poll"

  -- `syntheticPlanPrompt`. A fingerprint has the 40 digits of SHA-1, so the slice `fp[:12]` exists.
  unfoldable pub synthetic_plan_prompt : Text → Text → List Json → Bool → Option PlanPrompt
  unfolding latest_plan_question latest_choice_options fingerprint join
  synthetic_plan_prompt thread_id turn_id items waiting =
      let found = latest_plan_question items in
      let question = if is_empty found.1 then codes "Input required." else found.1 in
      let options = latest_choice_options items in
      let fp = fingerprint lib (
        codes "planPrompt"
        ∷ prompt_source_synthetic_poll
        ∷ thread_id
        ∷ turn_id
        ∷ found.0
        ∷ question
        ∷ join (0x1f ∷ []) options
        ∷ []) in
      if not waiting
      then none
      else some (record {
        prompt_id =
            codes "synthetic:" ++ thread_id ++ codes ":" ++ turn_id ++ codes ":" ++ take 12 fp;
        source = prompt_source_synthetic_poll;
        thread_id = thread_id;
        turn_id = turn_id;
        item_id = found.0;
        request_id = [];
        question = question;
        options = options;
        fingerprint = fp;
        status = codes "waiting for input";
      })

-- `waitingText`
unfoldable pub waiting_text : Option PlanPrompt → Text
unfolding is_blank
waiting_text none = codes "Thread is waiting for input."
waiting_text (some prompt) =
    if is_blank prompt.question then codes "Thread is waiting for input." else prompt.question

-- One question of `requestUserInputQuestion`; empty where it has neither text.
unfoldable pub question_part : Fields → Text
unfolding trim_space
question_part question =
    let header = trim_space (string_at question (codes "header")) in
    let text = trim_space (string_at question (codes "question")) in
    if not (is_empty header) && not (is_empty text)
    then header ++ codes ": " ++ text
    else if is_empty text
    then header
    else text

-- `requestUserInputQuestion`
unfoldable pub request_user_input_question : Fields → Text
unfolding trim_space array_of question_part join
request_user_input_question params =
    let text = trim_space (string_at params (codes "question")) in
    let questions = or_nil (array_of (value_at params (codes "questions"))) in
    let parts =
      select (λ part. not (is_empty part)) (map (λ raw. question_part (as_map raw)) questions) in
    if not (is_empty text)
    then text
    else elim parts [ [] ↦ codes "Input required." | part ∷ more ↦ join (10 ∷ []) (part ∷ more) ]
