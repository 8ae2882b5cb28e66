-- ===== src/Daemon/TerminalGate/Examples/Runs.antt =====
-- The theorems on runs of polls at that turn.
use codex_feishu.Prelude.{ℕ, ◌*◌, ◌≡◌, refl, inl, true, false, List, [], ◌∷◌, arith, All}
use codex_feishu.Prelude.Text.{
  text_eq, is_space, trim_left, trim_right, trim_space, is_blank, fold_char, equal_fold, has_prefix,
}
use codex_feishu.AppServer.Snapshot.{parse_time}
use codex_feishu.Storage.State.{lookup, set_state, get_state}
use codex_feishu.Daemon.Signals.{
  is_final_entry, has_item_content, snapshot_has_final_signal, is_meaningful_item,
  snapshot_has_meaningful_terminal_signal, is_deferrable_interrupted_snapshot,
  is_empty_interrupted_snapshot, terminal_gate_snapshot_ids,
}
use codex_feishu.Daemon.TerminalGate.State.{
  second, max_duration, grace_duration, defer_key_of, explicit_interrupt_key, terminal_logged_key,
  chat_origin_turn_key,
}
use codex_feishu.Daemon.TerminalGate.Marks.{
  get_value, set_value, value_is_blank, has_explicit_interrupt, has_terminal_logged,
  is_direct_input_source_mode, is_direct_input_origin_turn, decode_defer, load_defer, save_defer,
  mark_explicit_interrupt,
}
use codex_feishu.Daemon.TerminalGate.Decide.{
  interrupted_defer_reason, state_or_new, hold, first_seen_of, expires_of, defer_or_expire,
  decide_loaded, first_decision, decide_read, decide_turn, decide,
}
use codex_feishu.Daemon.TerminalGate.Deadline.{IsHeld}
use codex_feishu.Daemon.TerminalGate.Polls.{Poll, IsPending, run_polls, in_time, run_polls-in_time}
use codex_feishu.Daemon.TerminalGate.Closing.{
  explicit_interrupt-never_defers, Expires, IsDeferred, deadline_closes,
}
use codex_feishu.Daemon.TerminalGate.Closed.{defers}
use codex_feishu.Daemon.TerminalGate.Examples.{
  interrupted, healthy, held_state, deferred, interrupted-IsTurn,
}

abbrev poll_at : ℕ → Poll
poll_at t = record { env = healthy t; given = t; snapshot = interrupted }

abbrev later_polls : List Poll
later_polls = poll_at (1095 * second) ∷ poll_at (1100 * second) ∷ poll_at (1200 * second) ∷ []

explicit_interrupt-never_defers_example :
    All
      (λ o.
        defers
          (terminal_gate_snapshot_ids interrupted).0
          (terminal_gate_snapshot_ids interrupted).1
          o
        ≡ false)
      (run_polls later_polls
        (mark_explicit_interrupt
          (healthy (1001 * second))
          (terminal_gate_snapshot_ids interrupted).0
          (terminal_gate_snapshot_ids interrupted).1
          deferred).1)
explicit_interrupt-never_defers_example =
    explicit_interrupt-never_defers interrupted-IsTurn (healthy (1001 * second)) deferred
      later_polls refl

-- What is on record of the turn.
deferred-IsHeld :
    IsHeld
      (terminal_gate_snapshot_ids interrupted).0
      (terminal_gate_snapshot_ids interrupted).1
      (1090 * second)
      deferred
unfolding lookup defer_key_of text_eq trim_space terminal_gate_snapshot_ids parse_time
deferred-IsHeld = record { state = held_state; found = refl; deadline = refl }

deferred-IsDeferred :
    IsDeferred
      (healthy (1090 * second))
      (terminal_gate_snapshot_ids interrupted).0
      (terminal_gate_snapshot_ids interrupted).1
      (1090 * second)
      deferred
unfolding decide decide_turn first_decision trim_space decide_read has_explicit_interrupt
    explicit_interrupt_key has_terminal_logged terminal_logged_key load_defer defer_key_of
    decide_loaded is_deferrable_interrupted_snapshot equal_fold is_blank lookup
    is_direct_input_origin_turn chat_origin_turn_key has_item_content is_empty_interrupted_snapshot
    is_final_entry is_meaningful_item snapshot_has_final_signal
    snapshot_has_meaningful_terminal_signal terminal_gate_snapshot_ids defer_or_expire expires_of
    first_seen_of hold interrupted_defer_reason state_or_new decode_defer get_value
    is_direct_input_source_mode save_defer set_value value_is_blank grace_duration max_duration
    parse_time fold_char has_prefix is_space text_eq trim_left trim_right get_state set_state
deferred-IsDeferred = record {
  held = deferred-IsHeld;
  not_explicit = refl;
  not_logged = refl;
  direct = refl;
  readable = refl;
}

interrupted-deferrable :
    (is_deferrable_interrupted_snapshot interrupted ≡ true)
    × (snapshot_has_final_signal interrupted ≡ false)
unfolding is_deferrable_interrupted_snapshot snapshot_has_final_signal is_blank trim_space
    equal_fold text_eq
interrupted-deferrable = (refl, refl)

deadline_closes_example :
    Expires
      (terminal_gate_snapshot_ids interrupted).0
      (terminal_gate_snapshot_ids interrupted).1
      (decide (healthy (1090 * second)) 0 interrupted deferred)
    × All
        (λ o.
          defers
            (terminal_gate_snapshot_ids interrupted).0
            (terminal_gate_snapshot_ids interrupted).1
            o
          ≡ false)
        (run_polls later_polls (decide (healthy (1090 * second)) 0 interrupted deferred).store)
deadline_closes_example =
    deadline_closes (healthy (1090 * second)) 0 interrupted deferred (1090 * second)
      interrupted-IsTurn interrupted-deferrable.0 interrupted-deferrable.1 deferred-IsDeferred
      (λ k. refl) (omega arith) (omega arith) later_polls

poll-IsPending :
    (t : ℕ)
    → IsPending
        (terminal_gate_snapshot_ids interrupted).0
        (terminal_gate_snapshot_ids interrupted).1
        (poll_at t)
poll-IsPending t = record {
  same_thread = refl;
  same_turn = refl;
  deferrable = interrupted-deferrable.0;
  no_final = interrupted-deferrable.1;
  writes = λ k. refl;
}

run_polls-in_time_example :
    All
      (λ o. in_time (1090 * second) o ≡ true)
      (run_polls
        (poll_at (1010 * second) ∷ poll_at (1080 * second) ∷ poll_at (1095 * second) ∷ [])
        deferred)
run_polls-in_time_example =
    run_polls-in_time interrupted-IsTurn (omega arith)
      (poll_at (1010 * second) ∷ poll_at (1080 * second) ∷ poll_at (1095 * second) ∷ []) deferred
      (
        poll-IsPending (1010 * second),
        (poll-IsPending (1080 * second), (poll-IsPending (1095 * second), tt)),
      )
      (inl deferred-IsHeld)
