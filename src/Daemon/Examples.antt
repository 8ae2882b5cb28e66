-- ===== src/Daemon/Examples.antt =====
-- The theorems on live tools, detail pages and polling at concrete snapshots.
use codex_feishu.Prelude.{◌+◌, ◌-◌, ◌*◌, String, ◌≡◌, refl, true, false, none, some, [], ◌∷◌, arith}
mod Polls
mod Pages
use codex_feishu.Prelude.Text.{codes}
use codex_feishu.AppServer.Json.{pos, Encoding}
use codex_feishu.AppServer.Snapshot.{
  DetailItem, ThreadReadSnapshot, at, ThreadSnapshotState, detail_item_tool,
}
use codex_feishu.AppServer.Details.{no_item}
use codex_feishu.AppServer.ReadSnapshot.{no_snapshot}
use codex_feishu.Daemon.LiveTool.Forward.{live_run, moves_on, live_run-moves_on}
use codex_feishu.Daemon.DetailPages.{first_commentary_with_tools_on_page}
use codex_feishu.Daemon.DetailPages.Cover.{OnPage, first_commentary_with_tools_on_page-OnPage}
use codex_feishu.AppServer.Timing.{SnapshotCodec, compact_snapshot}
use codex_feishu.AppServer.Diff.{when, completion_is_new, completion_event, diff_snapshot}
use codex_feishu.Daemon.TerminalGate.State.{defer, partial_interrupted, Decision, second}
use codex_feishu.Daemon.Polling.{compact_deferred_progress_snapshot}
use codex_feishu.Daemon.Polling.Deferred.{diff_snapshot-compact_deferred_progress_snapshot}

abbrev pub tool_item : String → DetailItem
tool_item id = record no_item { id = codes id; kind = detail_item_tool; label = codes "make" }

abbrev so_far : ThreadReadSnapshot
so_far = record no_snapshot {
  latest_turn_id = codes "019a0000-0000-7000-8000-000000000001";
  latest_turn_status = codes "completed";
  detail_items = tool_item "a" ∷ tool_item "b" ∷ [];
}

abbrev event : ThreadReadSnapshot
event = record no_snapshot {
  latest_turn_id = codes "019a0000-0000-7000-8000-000000000002";
  latest_tool_id = codes "b";
  latest_tool_status = codes "running";
  detail_items = tool_item "b" ∷ [];
}

live_run-moves_on_example :
    moves_on so_far.latest_turn_id (live_run so_far (event ∷ event ∷ [])).latest_turn_id ≡ true
live_run-moves_on_example = live_run-moves_on so_far (event ∷ event ∷ [])

-- The event is not refused.
event_applies : (live_run so_far (event ∷ [])).latest_turn_id ≡ event.latest_turn_id
unfolding live_run
event_applies = refl

first_commentary_with_tools_on_page-OnPage_example :
    OnPage (pos 7) 5 (first_commentary_with_tools_on_page so_far (pos 7) 5)
first_commentary_with_tools_on_page-OnPage_example =
    first_commentary_with_tools_on_page-OnPage so_far (pos 7) 5 (omega arith)

abbrev pub kept_lib : Encoding
kept_lib = record { sha1_hex = λ t. t; marshal = λ v. codes "{}"; sprint = λ v. [] }

abbrev pub kept_codec : SnapshotCodec
kept_codec = record {
  encode = λ s. s.latest_turn_id;
  decode = λ t. record no_snapshot { latest_turn_id = t };
  format_time = λ n. codes "12:00";
}

abbrev pub held : ThreadReadSnapshot
held = record no_snapshot {
  latest_turn_id = codes "u1";
  latest_turn_status = codes "interrupted";
  latest_progress_fp = codes "p2";
}

abbrev pub seen : ThreadSnapshotState
seen =
    compact_snapshot kept_codec kept_lib none
      (record no_snapshot {
        latest_turn_id = codes "u1";
        latest_turn_status = codes "inProgress";
        latest_progress_fp = codes "p1";
      })
      5 5

abbrev deferral : Decision
deferral = record {
  action = defer;
  reason = partial_interrupted;
  thread_id = codes "t";
  turn_id = codes "u1";
  empty_interrupted = false;
  deferrable_interrupted = true;
  explicit_interrupt = false;
  grace = 45 * second;
  first_seen_at = 7;
  last_seen_at = 7;
  expires_at = 7 + 45 * second;
  hot_poll = true;
  next_poll_after = at (7 + second);
  defer_key = [];
  explicit_key = [];
}

diff_snapshot-compact_deferred_progress_snapshot_example :
    diff_snapshot kept_lib
      (some (compact_deferred_progress_snapshot kept_lib kept_codec (some seen) held 7 deferral))
      held
    ≡ when (completion_is_new kept_lib seen held) (completion_event kept_lib held)
diff_snapshot-compact_deferred_progress_snapshot_example =
    diff_snapshot-compact_deferred_progress_snapshot kept_codec kept_lib seen held 7 deferral
