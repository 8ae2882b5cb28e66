-- ===== src/Daemon/TerminalGate/Examples/Applied.antt =====
-- What the service does with the decision on that turn.
use codex_feishu.Prelude.{◌*◌, ◌≡◌, refl, true, false, ◌||◌, none, some, [], ◌∷◌, arith, ltb}
use codex_feishu.Prelude.Text.{codes, text_eq, trim_space}
use codex_feishu.AppServer.Snapshot.{Thread, blank, parse_time, ThreadSnapshotState}
use codex_feishu.Storage.State.{lookup}
use codex_feishu.Daemon.TerminalGate.State.{second, defer_key_of}
use codex_feishu.Daemon.TerminalGate.Keys.{IsTurn}
use codex_feishu.Daemon.TerminalGate.Deadline.{IsHeld}
use codex_feishu.Daemon.TerminalGate.Apply.{
  Tables, SnapshotFaults, thread_has_deferred_empty_interrupted,
}
use codex_feishu.Daemon.TerminalGate.Apply.Reports.{thread_has_deferred_until}
use codex_feishu.Daemon.TerminalGate.Examples.{
  thread_id, turn_id, healthy, from_chat, held_state, deferred,
}

abbrev last_snapshot : ThreadSnapshotState
last_snapshot = record {
  thread_updated_at = 7;
  last_seen_thread_status = [];
  last_seen_turn_id = codes "u";
  last_seen_turn_status = codes "inProgress";
  last_progress_fp = [];
  last_progress_sent_at = blank;
  last_final_fp = [];
  last_completion_fp = [];
  last_approval_fp = [];
  last_reply_fp = [];
  last_final_notice_fp = [];
  last_tool_document_fp = [];
  last_rich_live_event_at = blank;
  last_poll_at = blank;
  next_poll_after = blank;
  compact_json = [];
}

abbrev tables : Tables
tables = record { daemon = from_chat; snapshots = (codes "t", last_snapshot) ∷ [] }

abbrev snapshots_obey : SnapshotFaults
snapshots_obey = record { read_fails = false; write_fails = false }

abbrev active_thread : Thread
active_thread = record {
  id = thread_id;
  title = [];
  cwd = [];
  project_name = [];
  directory_name = [];
  updated_at = 0;
  status = codes "active";
  last_preview = [];
  active_turn_id = turn_id;
  preferred_model = [];
  permissions_mode = [];
  archived = false;
  listed = true;
  raw = [];
}

active-IsTurn : IsTurn active_thread.id active_thread.active_turn_id
unfolding trim_space
active-IsTurn = record {
  thread_trimmed = refl;
  turn_trimmed = refl;
  thread_given = refl;
  turn_given = refl;
}

active-IsHeld : IsHeld active_thread.id active_thread.active_turn_id (1090 * second) deferred
unfolding lookup defer_key_of text_eq trim_space parse_time
active-IsHeld = record { state = held_state; found = refl; deadline = refl }

thread_has_deferred_until_example :
    (thread_has_deferred_empty_interrupted (healthy (1089 * second)) active_thread none deferred
      ≡ ltb (1089 * second) (1090 * second))
    × ((ltb (1089 * second) (1090 * second)
          || thread_has_deferred_empty_interrupted
              (healthy (1089 * second))
              active_thread
              (some last_snapshot)
              deferred)
        ≡ thread_has_deferred_empty_interrupted
            (healthy (1089 * second))
            active_thread
            (some last_snapshot)
            deferred)
thread_has_deferred_until_example =
    thread_has_deferred_until (healthy (1089 * second)) active_thread (some last_snapshot)
      (1090 * second) deferred active-IsTurn active-IsHeld refl (omega arith)
