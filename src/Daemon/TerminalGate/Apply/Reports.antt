-- ===== src/Daemon/TerminalGate/Apply/Reports.antt =====
-- What `threadHasDeferredEmptyInterrupted` reports of a turn that is deferred.
use codex_feishu.Prelude.{ℕ, ◌<◌, ◌≡◌, false, ◌||◌, Option, none, arith, ltb}
use codex_feishu.Prelude.Text.{Text}
use codex_feishu.AppServer.Snapshot.{Thread, ThreadSnapshotState}
use codex_feishu.Storage.State.{get_state}
use codex_feishu.Daemon.TerminalGate.State.{State, Env, defer_key_of}
use codex_feishu.Daemon.TerminalGate.Marks.{load_defer}
use codex_feishu.Daemon.TerminalGate.Keys.{IsTurn, defer_given}
use codex_feishu.Daemon.TerminalGate.Deadline.{IsHeld}
use codex_feishu.Daemon.TerminalGate.Apply.{
  candidate_turns, has_live_deferral, thread_has_deferred_empty_interrupted,
}

has_live_deferral-held :
    {thread turn : Text} (h : IsTurn thread turn) (env : Env) (limit : ℕ) (st : State)
    → IsHeld thread turn limit st
    → env.get_fails (defer_key_of thread turn) ≡ false
    → 0 < limit
    → has_live_deferral env thread turn st ≡ ltb env.clock limit
unfolding has_live_deferral load_defer get_state
has_live_deferral-held h env limit st held r pos =
    ground (arith, defer_given h, r, held.found, held.deadline)

-- While a deferral of the active turn of a thread is on record and can be read, and its deadline is
-- not reached, the thread is reported as deferred, whatever its last snapshot is. From the deadline
-- on, the active turn alone is no longer reported. The identifiers of the turn are trimmed and not
-- empty.
pub thread_has_deferred_until :
    (env : Env) (thread : Thread) (snap : Option ThreadSnapshotState) (limit : ℕ) (st : State)
    → IsTurn thread.id thread.active_turn_id
    → IsHeld thread.id thread.active_turn_id limit st
    → env.get_fails (defer_key_of thread.id thread.active_turn_id) ≡ false
    → 0 < limit
    → (thread_has_deferred_empty_interrupted env thread none st ≡ ltb env.clock limit)
      × ((ltb env.clock limit || thread_has_deferred_empty_interrupted env thread snap st)
          ≡ thread_has_deferred_empty_interrupted env thread snap st)
unfolding thread_has_deferred_empty_interrupted candidate_turns
thread_has_deferred_until env thread snap limit st h held r pos =
    let live = has_live_deferral-held h env limit st held r pos in
    simp (h.turn_given, h.turn_trimmed, live) (ground arith, ground arith)
