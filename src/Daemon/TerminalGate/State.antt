-- ===== src/Daemon/TerminalGate/State.antt =====
-- internal/daemon/terminal_gate.go: the gate's data, its intervals and its keys.
-- An instant is a number of nanoseconds after Go's zero time, which is 0. A stored text is modelled
-- by what its readers make of it: JSON of a gate state, a time in RFC 3339, or any other text.
use codex_feishu.AppServer.Snapshot.{TimeString, at}
use codex_feishu.Prelude.{
  ℕ, ◌+◌, ◌*◌, ◌%◌, ◌^◌, Bool, ◌||◌, Option, List, [], ◌∷◌, ◌++◌, ltb, if◌then◌else◌,
}
use codex_feishu.Prelude.Text.{Text, codes, trim_space, is_empty}

pub data DecisionKind : Type 0 where
  accept defer recover : DecisionKind

pub data Reason : Type 0 where
  not_deferrable_interrupted missing_thread_or_turn snapshot_recovered explicit_interrupt : Reason
  terminal_already_logged not_direct_input_origin final_interrupted grace_expired : Reason
  empty_interrupted partial_interrupted legacy_state : Reason
  other_reason : Text → Reason

-- `terminalGateDecision`
pub record Decision : Type 0 where
  pub action : DecisionKind
  pub reason : Reason
  pub thread_id : Text
  pub turn_id : Text
  pub empty_interrupted : Bool
  pub deferrable_interrupted : Bool
  pub explicit_interrupt : Bool
  pub grace : ℕ
  pub first_seen_at : ℕ
  pub last_seen_at : ℕ
  pub expires_at : ℕ
  pub hot_poll : Bool
  pub next_poll_after : TimeString
  pub defer_key : Text
  pub explicit_key : Text

-- `terminalGateState`
pub record GateState : Type 0 where
  pub thread_id : Text
  pub turn_id : Text
  pub first_seen_at : TimeString
  pub last_seen_at : TimeString
  pub expires_at : TimeString
  pub next_poll_after : TimeString
  pub hot_poll_interval_millis : ℕ
  pub empty_interrupted_seen_count : ℕ
  pub last_decision : Option DecisionKind
  pub last_reason : Option Reason

-- A value of `daemon_state` under the gate's keys.
pub data Value : Type 0 where
  gate : GateState → Value
  time : ℕ → Value
  text : Text → Value

abbrev pub State : Type 0
State = List (Text × Value)

-- What the gate meets outside it: the clock, the configured poll interval in nanoseconds (0 stands
-- for one that is not positive), and the keys whose read or write the database refuses. One call
-- reads each key once and writes each key once at most.
pub record Env : Type 0 where
  pub clock : ℕ
  pub observer_poll_interval : ℕ
  pub get_fails : Text → Bool
  pub set_fails : Text → Bool

abbrev pub second : ℕ
second = 1_000_000_000

-- `terminalGateMinimumGrace`, `terminalGateDefaultHotPollInterval`
abbrev pub minimum_grace : ℕ
minimum_grace = 90 * second

abbrev pub default_hot_poll_interval : ℕ
default_hot_poll_interval = 5 * second

unfoldable pub max_duration : ℕ → ℕ → ℕ
max_duration left right = if ltb right left then left else right

-- `observerPollInterval*12` is an `int64` that may wrap to a negative number.
unfoldable pub grace_duration : ℕ → ℕ
unfolding max_duration
grace_duration poll =
    let product = poll * 12 % 2 ^ 64 in
    if ltb product (2 ^ 63) then max_duration minimum_grace product else minimum_grace

unfoldable pub hot_poll_interval : ℕ → ℕ
hot_poll_interval poll = if ltb 0 poll then poll else default_hot_poll_interval

unfoldable pub next_poll_after_of : ℕ → ℕ → TimeString
unfolding hot_poll_interval
next_poll_after_of now poll = at (now + hot_poll_interval poll)

-- `terminalGateDeferPrefix`, `terminalGateExplicitInterruptPrefix`, and the prefixes of
-- `chatOriginTerminalLoggedKey` and `chatOriginTurnKey`.
abbrev pub defer_prefix : Text
defer_prefix = codes "turn_terminal.defer_empty_interrupted."

abbrev pub explicit_interrupt_prefix : Text
explicit_interrupt_prefix = codes "turn_terminal.explicit_interrupt."

abbrev pub terminal_logged_prefix : Text
terminal_logged_prefix = codes "turn_origin.chat_terminal_logged."

abbrev pub chat_origin_prefix : Text
chat_origin_prefix = codes "turn_origin.chat."

-- A prefix and the two trimmed identifiers, or the empty key.
abbrev pub turn_key : Text → Text → Text → Text
turn_key prefix thread_id turn_id =
    let thread = trim_space thread_id in
    let turn = trim_space turn_id in
    if is_empty thread || is_empty turn then [] else prefix ++ (thread ++ b'.' ∷ turn)

unfoldable pub defer_key_of : Text → Text → Text
defer_key_of = turn_key defer_prefix

unfoldable pub explicit_interrupt_key : Text → Text → Text
explicit_interrupt_key = turn_key explicit_interrupt_prefix

unfoldable pub terminal_logged_key : Text → Text → Text
terminal_logged_key = turn_key terminal_logged_prefix

unfoldable pub chat_origin_turn_key : Text → Text → Text
chat_origin_turn_key = turn_key chat_origin_prefix
