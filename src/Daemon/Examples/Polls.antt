-- ===== src/Daemon/Examples/Polls.antt =====
-- The theorems on what a poll keeps and shows at concrete snapshots.
use codex_feishu.Prelude.{◌*◌, ◌≡◌, refl, true, false, Option, none, some, [], ◌∷◌}
use codex_feishu.Prelude.Text.{Text, codes, is_blank}
use codex_feishu.AppServer.Snapshot.{ThreadReadSnapshot, ThreadSnapshotState}
use codex_feishu.AppServer.ReadSnapshot.{no_snapshot}
use codex_feishu.AppServer.Timing.{observed_text, timed, compact_snapshot}
use codex_feishu.Storage.State.{lookup}
use codex_feishu.Daemon.TerminalGate.State.{text, State, Env, second, chat_origin_turn_key}
use codex_feishu.Daemon.Polling.Preserve.{
  tool_output_detail_items, recorded_snapshot, preserve_chat_origin_live_current_tool,
}
use codex_feishu.Daemon.Polling.Preserve.Stable.{preserve_chat_origin_live_current_tool_idem}
use codex_feishu.Daemon.Polling.Passive.{snapshot_has_passive_change}
use codex_feishu.Daemon.Polling.Passive.Recorded.{stored, snapshot_has_passive_change-recorded}
use codex_feishu.Daemon.Examples.{tool_item, kept_lib, kept_codec, held, seen}

abbrev with_live_make : ThreadReadSnapshot
with_live_make = record no_snapshot {
  latest_turn_id = codes "u1";
  latest_turn_status = codes "inProgress";
  latest_tool_id = codes "a";
  latest_tool_label = codes "make";
  latest_tool_status = codes "running";
  latest_tool_fp = codes "f1";
  latest_tool_live_current = true;
  detail_items = tool_item "a" ∷ [];
}

abbrev read_back : Text → Option ThreadReadSnapshot
read_back t = some with_live_make

abbrev polled : ThreadReadSnapshot
polled = record no_snapshot {
  thread = record no_snapshot.thread { id = codes "t" };
  latest_turn_id = codes "u1";
  latest_turn_status = codes "inProgress";
}

abbrev quiet : Env
quiet = record {
  clock = 7;
  observer_poll_interval = 5 * second;
  get_fails = λ k. false;
  set_fails = λ k. false;
}

abbrev marks : State
marks = (codes "turn_origin.chat.t.u1", text (codes "feishu_input")) ∷ []

abbrev recorded : Option ThreadSnapshotState
recorded = some (record seen { compact_json = codes "{}" })

-- The poll that knows no tool of the turn keeps the live one.
make_is_kept :
    (preserve_chat_origin_live_current_tool read_back quiet marks recorded polled).latest_tool_fp
    ≡ codes "f1"
unfolding preserve_chat_origin_live_current_tool chat_origin_turn_key lookup
make_is_kept = refl

preserve_chat_origin_live_current_tool_idem_example :
    preserve_chat_origin_live_current_tool read_back quiet marks recorded
      (preserve_chat_origin_live_current_tool read_back quiet marks recorded polled)
    ≡ preserve_chat_origin_live_current_tool read_back quiet marks recorded polled
unfolding recorded_snapshot tool_output_detail_items is_blank
preserve_chat_origin_live_current_tool_idem_example =
    preserve_chat_origin_live_current_tool_idem read_back quiet marks recorded polled refl

abbrev written : ThreadReadSnapshot
written =
    stored kept_lib kept_codec held.thread
      (timed kept_codec none held (observed_text kept_codec 7 7))

snapshot_has_passive_change-recorded_example :
    snapshot_has_passive_change kept_lib
      (λ t. some written)
      (some (compact_snapshot kept_codec kept_lib none held 7 7))
      held
    ≡ false
snapshot_has_passive_change-recorded_example =
    snapshot_has_passive_change-recorded kept_lib kept_codec (λ t. some written) none held 7 7
      held.thread refl
