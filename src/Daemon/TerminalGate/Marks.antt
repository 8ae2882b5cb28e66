-- ===== src/Daemon/TerminalGate/Marks.antt =====
-- internal/daemon/terminal_gate.go: the marks that the gate keeps in `daemon_state`.
use codex_feishu.AppServer.Snapshot.{blank, at}
use codex_feishu.Prelude.{
  ℕ, ◌+◌, Bool, true, false, not, Option, none, some, [], ◌==◌, if◌then◌else◌,
}
use mathlib.Core.Option
use codex_feishu.Prelude.Text.{Text, codes, text_eq, trim_space, is_empty, is_blank}
use codex_feishu.Storage.State.{set_state, get_state}
use codex_feishu.Daemon.TerminalGate.State.{
  accept, defer, explicit_interrupt, legacy_state, GateState, Value, gate, time, text, State, Env,
  grace_duration, defer_key_of, explicit_interrupt_key, terminal_logged_key, chat_origin_turn_key,
}

unfoldable pub get_value : Env → Text → State → Option Value
unfolding get_state
get_value env key st = if env.get_fails key then none else some (get_state (text []) key st)

-- The new state, and whether the write was made.
unfoldable pub set_value : Env → Text → Value → State → Bool × State
set_value env key v st = if env.set_fails key then (false, st) else (true, set_state key v st)

unfoldable pub value_is_blank : Value → Bool
value_is_blank (gate s) = false
value_is_blank (time t) = false
value_is_blank (text t) = is_blank t

-- `hasChatOriginExplicitInterrupt`, `hasChatOriginTerminalLogged`: `none` is an error.
abbrev has_mark : Env → Text → State → Option Bool
has_mark env key st =
    if is_empty key
    then some false
    else Option.map (λ v. not (value_is_blank v)) (get_value env key st)

unfoldable pub has_explicit_interrupt : Env → Text → Text → State → Option Bool
unfolding get_value value_is_blank
has_explicit_interrupt env thread turn st = has_mark env (explicit_interrupt_key thread turn) st

unfoldable pub has_terminal_logged : Env → Text → Text → State → Option Bool
unfolding get_value value_is_blank
has_terminal_logged env thread turn st = has_mark env (terminal_logged_key thread turn) st

-- `isDirectInputSourceMode(s.inputOriginTurnSource(…))`
unfoldable pub is_direct_input_source_mode : Option Value → Bool
is_direct_input_source_mode (some (text t)) = text_eq (trim_space t) (codes "feishu_input")
is_direct_input_source_mode _ = false

unfoldable pub is_direct_input_origin_turn : Env → Text → Text → State → Bool
unfolding get_value is_direct_input_source_mode
is_direct_input_origin_turn env thread turn st =
    let key = chat_origin_turn_key thread turn in
    if is_empty key then false else is_direct_input_source_mode (get_value env key st)

-- A value that is no JSON is read as a time, the form of an older version.
unfoldable pub legacy_state_of : Env → Text → Text → ℕ → ℕ → GateState
unfolding grace_duration
legacy_state_of env thread turn now parsed =
    let first_seen = if parsed == 0 then now else parsed in
    record {
      thread_id = trim_space thread;
      turn_id = trim_space turn;
      first_seen_at = at first_seen;
      last_seen_at = blank;
      expires_at = at (first_seen + grace_duration env.observer_poll_interval);
      next_poll_after = blank;
      hot_poll_interval_millis = 0;
      empty_interrupted_seen_count = 0;
      last_decision = some defer;
      last_reason = some legacy_state;
    }

unfoldable pub decode_defer : Env → Text → Text → ℕ → Value → Option GateState
unfolding legacy_state_of
decode_defer env thread turn now (gate s) = some s
decode_defer env thread turn now (time t) = some (legacy_state_of env thread turn now t)
decode_defer env thread turn now (text t) =
    if is_blank t then none else some (legacy_state_of env thread turn now 0)

-- `loadChatOriginEmptyInterruptedDefer`: the outer `none` is an error.
unfoldable pub load_defer : Env → Text → Text → ℕ → State → Option (Option GateState)
unfolding get_value decode_defer
load_defer env thread turn now st =
    let key = defer_key_of thread turn in
    if is_empty key
    then some none
    else Option.map (decode_defer env thread turn now) (get_value env key st)

-- `clearChatOriginEmptyInterruptedDefer`
unfoldable pub clear_defer : Env → Text → Text → State → Bool × State
unfolding set_value
clear_defer env thread turn st =
    let key = defer_key_of thread turn in
    if is_empty key then (true, st) else set_value env key (text []) st

-- `saveChatOriginEmptyInterruptedDefer`
unfoldable pub save_defer : Env → Text → Text → GateState → State → Bool × State
unfolding set_value
save_defer env thread turn s st =
    let key = defer_key_of thread turn in
    if is_empty key then (true, st) else set_value env key (gate s) st

-- `markChatOriginTerminalLogged`
unfoldable pub mark_terminal_logged : Env → Text → Text → ℕ → State → Bool × State
unfolding set_value
mark_terminal_logged env thread turn when st =
    let key = terminal_logged_key thread turn in
    if is_empty key
    then (true, st)
    else set_value env key (time (if when == 0 then env.clock else when)) st

unfoldable pub explicit_state_of : Env → Text → Text → GateState
explicit_state_of env thread turn = record {
  thread_id = trim_space thread;
  turn_id = trim_space turn;
  first_seen_at = at env.clock;
  last_seen_at = at env.clock;
  expires_at = blank;
  next_poll_after = blank;
  hot_poll_interval_millis = 0;
  empty_interrupted_seen_count = 0;
  last_decision = some accept;
  last_reason = some explicit_interrupt;
}

-- `markChatOriginExplicitInterrupt`
unfoldable pub mark_explicit_interrupt : Env → Text → Text → State → Bool × State
unfolding set_value
mark_explicit_interrupt env thread turn st =
    let key = explicit_interrupt_key thread turn in
    if is_empty key
    then (true, st)
    else set_value env key (gate (explicit_state_of env thread turn)) st

-- `clearChatOriginTerminalGate`
unfoldable pub clear_terminal_gate : Env → Text → Text → State → Bool × State
unfolding clear_defer set_value
clear_terminal_gate env thread turn st =
    let (cleared, st') = clear_defer env thread turn st in
    let key = explicit_interrupt_key thread turn in
    if not cleared
    then (false, st')
    else if is_empty key
    then (true, st')
    else set_value env key (text []) st'
