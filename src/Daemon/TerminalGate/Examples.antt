-- ===== src/Daemon/TerminalGate/Examples.antt =====
-- The gate on a turn that the chat started and that Codex reports as interrupted.
use codex_feishu.Prelude.{ℕ, ◌-◌, ◌*◌, ◌≡◌, refl, true, false, Option, none, some, [], ◌∷◌}
mod Applied
mod Runs
use codex_feishu.Prelude.Text.{
  Text, codes, text_eq, is_space, trim_left, trim_right, trim_space, is_blank, fold_char,
  equal_fold, has_prefix,
}
use codex_feishu.AppServer.Snapshot.{ThreadReadSnapshot, at, parse_time}
use codex_feishu.Storage.State.{lookup, set_state, get_state}
use codex_feishu.Daemon.Signals.{
  is_final_entry, has_item_content, snapshot_has_final_signal, is_meaningful_item,
  snapshot_has_meaningful_terminal_signal, is_deferrable_interrupted_snapshot,
  is_empty_interrupted_snapshot, terminal_gate_snapshot_ids,
}
use codex_feishu.Daemon.TerminalGate.State.{
  defer, partial_interrupted, GateState, gate, text, State, Env, second, max_duration,
  grace_duration, defer_key_of, explicit_interrupt_key, terminal_logged_key, chat_origin_turn_key,
}
use codex_feishu.Daemon.TerminalGate.Marks.{
  get_value, set_value, value_is_blank, has_explicit_interrupt, has_terminal_logged,
  is_direct_input_source_mode, is_direct_input_origin_turn, decode_defer, load_defer, save_defer,
}
use codex_feishu.Daemon.TerminalGate.Decide.{
  interrupted_defer_reason, state_or_new, hold, first_seen_of, expires_of, defer_or_expire,
  decide_loaded, first_decision, decide_read, decide_turn, decide,
}
use codex_feishu.Daemon.TerminalGate.Keys.{IsTurn}
use codex_feishu.Daemon.TerminalGate.Safety.{IsJustified, decide-IsJustified}
use codex_feishu.Daemon.TerminalGate.Frame.{decide_frame}
use codex_feishu.Daemon.TerminalGate.Expiry.{decide-Begins, Begins}

abbrev thread_id : Text
thread_id = codes "t"

abbrev turn_id : Text
turn_id = codes "u"

abbrev pub interrupted : Option ThreadReadSnapshot
interrupted = some (record {
  thread = record {
    id = codes " t ";
    title = [];
    cwd = [];
    project_name = [];
    directory_name = [];
    updated_at = 0;
    status = codes "idle";
    last_preview = [];
    active_turn_id = [];
    preferred_model = [];
    permissions_mode = [];
    archived = false;
    listed = false;
    raw = [];
  };
  latest_turn_id = turn_id;
  latest_turn_status = codes "Interrupted";
  latest_turn_started_at = [];
  latest_turn_updated_at = [];
  waiting_on_approval = false;
  waiting_on_reply = false;
  latest_agent_messages = [];
  latest_agent_message_entries =
      record { id = []; phase = codes "commentary"; text = codes "x"; fp = [] } ∷ [];
  latest_progress_fp = [];
  latest_progress_text = [];
  latest_user_message_id = [];
  latest_user_message_text = [];
  latest_user_message_image_path = [];
  latest_user_message_fp = [];
  latest_final_fp = [];
  latest_final_text = [];
  latest_tool_id = [];
  latest_tool_kind = [];
  latest_tool_label = [];
  latest_tool_status = [];
  latest_tool_output = [];
  latest_tool_fp = [];
  latest_tool_live_current = false;
  latest_tool_started_at = [];
  latest_tool_updated_at = [];
  plan_prompt = none;
  recent_turns = [];
  compact_thread_raw = [];
  detail_items =
      record {
        id = [];
        kind = codes "user";
        phase = [];
        text = codes "hello";
        label = [];
        tool_kind = [];
        status = [];
        output = [];
        fp = [];
        commentary_index = 0;
      }
      ∷ [];
})

abbrev pub healthy : ℕ → Env
healthy clock = record {
  clock = clock;
  observer_poll_interval = 5 * second;
  get_fails = λ k. false;
  set_fails = λ k. false;
}

abbrev from_chat : State
from_chat = (codes "turn_origin.chat.t.u", text (codes "feishu_input")) ∷ []

abbrev pub held_state : GateState
held_state = record {
  thread_id = thread_id;
  turn_id = turn_id;
  first_seen_at = at (1000 * second);
  last_seen_at = at (1000 * second);
  expires_at = at (1090 * second);
  next_poll_after = at (1005 * second);
  hot_poll_interval_millis = 5000;
  empty_interrupted_seen_count = 1;
  last_decision = some defer;
  last_reason = some partial_interrupted;
}

abbrev pub deferred : State
deferred = (codes "turn_terminal.defer_empty_interrupted.t.u", gate held_state) ∷ from_chat

pub interrupted-IsTurn :
    IsTurn (terminal_gate_snapshot_ids interrupted).0 (terminal_gate_snapshot_ids interrupted).1
unfolding terminal_gate_snapshot_ids trim_space
interrupted-IsTurn = record {
  thread_trimmed = refl;
  turn_trimmed = refl;
  thread_given = refl;
  turn_given = refl;
}

-- The first poll defers, and completes.
first-defers :
    let o = decide (healthy (1000 * second)) 0 interrupted from_chat in
    (o.decision.action ≡ defer) × (o.done ≡ true)
unfolding decide decide_turn first_decision trim_space decide_read has_explicit_interrupt
    explicit_interrupt_key has_terminal_logged terminal_logged_key load_defer defer_key_of
    decide_loaded is_deferrable_interrupted_snapshot equal_fold is_blank lookup
    is_direct_input_origin_turn chat_origin_turn_key has_item_content is_empty_interrupted_snapshot
    is_final_entry is_meaningful_item snapshot_has_final_signal
    snapshot_has_meaningful_terminal_signal terminal_gate_snapshot_ids defer_or_expire expires_of
    first_seen_of hold interrupted_defer_reason state_or_new decode_defer get_value
    is_direct_input_source_mode save_defer set_value value_is_blank grace_duration max_duration
    parse_time fold_char has_prefix is_space text_eq trim_left trim_right get_state set_state
first-defers = (refl, refl)

decide-IsJustified_example :
    IsJustified
      (healthy (1000 * second))
      interrupted
      from_chat
      (terminal_gate_snapshot_ids interrupted).0
      (terminal_gate_snapshot_ids interrupted).1
      (decide (healthy (1000 * second)) 0 interrupted from_chat).decision
decide-IsJustified_example =
    decide-IsJustified (healthy (1000 * second)) 0 interrupted from_chat first-defers.0

decide-Begins_example :
    Begins
      (load_defer
        (healthy (1000 * second))
        (terminal_gate_snapshot_ids interrupted).0
        (terminal_gate_snapshot_ids interrupted).1
        (1000 * second)
        from_chat)
      (grace_duration (5 * second))
      (decide (healthy (1000 * second)) 0 interrupted from_chat)
decide-Begins_example =
    decide-Begins (healthy (1000 * second)) 0 interrupted from_chat first-defers.0 first-defers.1

decide_frame_example :
    lookup (codes "feishu.chat") (decide (healthy (1000 * second)) 0 interrupted from_chat).store
    ≡ lookup (codes "feishu.chat") from_chat
unfolding text_eq defer_key_of terminal_logged_key first_decision terminal_gate_snapshot_ids
    trim_space
decide_frame_example =
    decide_frame (healthy (1000 * second)) 0 interrupted from_chat (codes "feishu.chat")
      (record { not_defer = refl; not_logged = refl })
