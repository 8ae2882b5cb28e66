-- ===== src/Daemon/TerminalGate/Keys.antt =====
-- The gate's keys in `daemon_state`: the four of one turn differ, so a write under one of them keeps
-- what the others hold.
use codex_feishu.Prelude.{◌≡◌, refl, inl, inr, false, ◌||◌, [], ◌∷◌, ◌++◌, Bool-cases}
use codex_feishu.Prelude.Text.{Text, text_eq, trim_space, is_empty}
use codex_feishu.Daemon.TerminalGate.State.{
  defer_prefix, explicit_interrupt_prefix, terminal_logged_prefix, chat_origin_prefix, turn_key,
  defer_key_of, explicit_interrupt_key, terminal_logged_key, chat_origin_turn_key,
}

-- The identifiers of a thread and a turn, trimmed and not empty.
pub record IsTurn (thread turn : Text) : Type 0 where
  pub thread_trimmed : trim_space thread ≡ thread
  pub turn_trimmed : trim_space turn ≡ turn
  pub thread_given : is_empty thread ≡ false
  pub turn_given : is_empty turn ≡ false

abbrev suffix : Text → Text → Text
suffix thread turn = thread ++ b'.' ∷ turn

module _ {thread turn : Text} (h : IsTurn thread turn) where
  turn_key_lem : (prefix : Text) → turn_key prefix thread turn ≡ prefix ++ suffix thread turn
  turn_key_lem prefix =
      rw (h.thread_trimmed, h.turn_trimmed) (rw (h.thread_given, h.turn_given) refl)

  pub defer_key_lem : defer_key_of thread turn ≡ defer_prefix ++ suffix thread turn
  unfolding defer_key_of
  defer_key_lem = turn_key_lem defer_prefix

  pub explicit_key_lem :
      explicit_interrupt_key thread turn ≡ explicit_interrupt_prefix ++ suffix thread turn
  unfolding explicit_interrupt_key
  explicit_key_lem = turn_key_lem explicit_interrupt_prefix

  pub logged_key_lem :
      terminal_logged_key thread turn ≡ terminal_logged_prefix ++ suffix thread turn
  unfolding terminal_logged_key
  logged_key_lem = turn_key_lem terminal_logged_prefix

  pub origin_key_lem : chat_origin_turn_key thread turn ≡ chat_origin_prefix ++ suffix thread turn
  unfolding chat_origin_turn_key
  origin_key_lem = turn_key_lem chat_origin_prefix

  pub defer_given : is_empty (defer_key_of thread turn) ≡ false
  defer_given = rw defer_key_lem

  pub explicit_given : is_empty (explicit_interrupt_key thread turn) ≡ false
  explicit_given = rw explicit_key_lem

  pub logged_given : is_empty (terminal_logged_key thread turn) ≡ false
  logged_given = rw logged_key_lem

  pub origin_given : is_empty (chat_origin_turn_key thread turn) ≡ false
  origin_given = rw origin_key_lem

  pub defer-ne-explicit :
      text_eq (defer_key_of thread turn) (explicit_interrupt_key thread turn) ≡ false
  unfolding text_eq
  defer-ne-explicit = rw (defer_key_lem, explicit_key_lem)

  pub defer-ne-logged : text_eq (defer_key_of thread turn) (terminal_logged_key thread turn) ≡ false
  unfolding text_eq
  defer-ne-logged = rw (defer_key_lem, logged_key_lem)

  pub defer-ne-origin :
      text_eq (defer_key_of thread turn) (chat_origin_turn_key thread turn) ≡ false
  unfolding text_eq
  defer-ne-origin = rw (defer_key_lem, origin_key_lem)

  pub logged-ne-explicit :
      text_eq (terminal_logged_key thread turn) (explicit_interrupt_key thread turn) ≡ false
  unfolding text_eq
  logged-ne-explicit = rw (logged_key_lem, explicit_key_lem)

  -- The keys of two turns, of which the first may lack an identifier.
  apart :
      (prefix t u key : Text)
      → text_eq [] key ≡ false
      → text_eq (prefix ++ suffix (trim_space t) (trim_space u)) key ≡ false
      → text_eq (turn_key prefix t u) key ≡ false
  apart prefix t u key e f =
      elim (Bool-cases (is_empty (trim_space t) || is_empty (trim_space u))) [
        | inl x ↦ rw x e
        | inr x ↦ rw x f
      ]

  pub defer-apart-explicit :
      (t u : Text) → text_eq (defer_key_of t u) (explicit_interrupt_key thread turn) ≡ false
  unfolding text_eq defer_key_of
  defer-apart-explicit t u = rw explicit_key_lem (apart defer_prefix t u _ refl refl)

  pub defer-apart-logged :
      (t u : Text) → text_eq (defer_key_of t u) (terminal_logged_key thread turn) ≡ false
  unfolding text_eq defer_key_of
  defer-apart-logged t u = rw logged_key_lem (apart defer_prefix t u _ refl refl)

  pub logged-apart-explicit :
      (t u : Text) → text_eq (terminal_logged_key t u) (explicit_interrupt_key thread turn) ≡ false
  unfolding text_eq terminal_logged_key
  logged-apart-explicit t u = rw explicit_key_lem (apart terminal_logged_prefix t u _ refl refl)
