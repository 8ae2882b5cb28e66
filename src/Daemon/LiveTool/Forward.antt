-- ===== src/Daemon/LiveTool/Forward.antt =====
-- How live events move the snapshot of a thread.
use codex_feishu.Prelude.{
  ◌≡◌, refl, sym, subst, inl, inr, Bool, true, false, not, ◌&&◌, ◌||◌, Option, none, some, List, [],
  ◌∷◌, arith, if◌then◌else◌, Bool-cases, &&-right,
}
use codex_feishu.Prelude.Text.{Text, text_eq, text_eq_refl, text_eq_eq, trim_space, is_empty}
use codex_feishu.AppServer.Payload.{terminal_turn_status}
use codex_feishu.AppServer.Snapshot.{ThreadReadSnapshot}
use codex_feishu.Storage.Rows.{text_ltb}
use codex_feishu.Daemon.LiveTool.{
  is_codex_thread_id, turn_id_after, is_other_turn, is_refused, with_live_tool, turn_of_event,
  apply_live_tool,
}

abbrev pub or_same : ThreadReadSnapshot → Option ThreadReadSnapshot → ThreadReadSnapshot
or_same s none = s
or_same s (some t) = t

-- One event: a refused one leaves the snapshot as it is.
unfoldable pub live_step : ThreadReadSnapshot → ThreadReadSnapshot → ThreadReadSnapshot
unfolding apply_live_tool
live_step s live = or_same s (apply_live_tool s live)

unfoldable pub live_run : ThreadReadSnapshot → List ThreadReadSnapshot → ThreadReadSnapshot
unfolding live_step
live_run s [] = s
live_run s (live ∷ events) = live_run (live_step s live) events

text_ltb_trans : (a b c : Text) → text_ltb a b ≡ true → text_ltb b c ≡ true → text_ltb a c ≡ true
unfolding text_ltb
text_ltb_trans [] [] c h k = absurd cc
text_ltb_trans [] (y ∷ b) [] h k = absurd cc
text_ltb_trans [] (y ∷ b) (z ∷ c) h k = refl
text_ltb_trans (x ∷ a) [] c h k = absurd cc
text_ltb_trans (x ∷ a) (y ∷ b) [] h k = absurd cc
text_ltb_trans (x ∷ a) (y ∷ b) (z ∷ c) h k = ground (arith, h, k, text_ltb_trans a b c)

text_ltb-empty : (a : Text) → text_ltb a [] ≡ false
unfolding text_ltb
text_ltb-empty [] = refl
text_ltb-empty (x ∷ a) = refl

-- The turn stays, or a later one takes its place, or there was none.
unfoldable pub moves_on : Text → Text → Bool
unfolding text_eq text_ltb trim_space
moves_on before after =
    is_empty before
    || text_eq before after
    || (not (is_empty after) && text_ltb (trim_space before) (trim_space after))

moves_on_refl : (a : Text) → moves_on a a ≡ true
unfolding moves_on
moves_on_refl a = ground (arith, text_eq_refl a)

moves_on_trans : (a b c : Text) → moves_on a b ≡ true → moves_on b c ≡ true → moves_on a c ≡ true
unfolding moves_on
moves_on_trans a b c h k = elim (Bool-cases (text_eq a b)) [
  | inl e ↦ subst (λ x. moves_on x c ≡ true) (sym (text_eq_eq a b e)) k
  | inr e ↦ elim (Bool-cases (text_eq b c)) [
    | inl g ↦ subst (λ x. moves_on a x ≡ true) (text_eq_eq b c g) h
    | inr g ↦
        ground (arith, h, k, e, g, text_ltb_trans (trim_space a) (trim_space b) (trim_space c))
  ]
]

turn_id_after-later :
    (a b : Text) → turn_id_after a b ≡ true → text_ltb (trim_space b) (trim_space a) ≡ true
unfolding turn_id_after
turn_id_after-later a b h =
    &&-right (is_codex_thread_id (trim_space a) && is_codex_thread_id (trim_space b))
      (text_ltb (trim_space b) (trim_space a)) h

guard :
    (empty same ended after later : Bool)
    → (after ≡ true → later ≡ true)
    → (empty || same || later || (not empty && not same && not (ended && after))) ≡ true
guard empty same ended after later h = ground (arith, h)

other_turn :
    (s : ThreadReadSnapshot) (turn_id : Text)
    → (is_empty s.latest_turn_id
        || text_eq s.latest_turn_id turn_id
        || text_ltb (trim_space s.latest_turn_id) (trim_space turn_id)
        || is_other_turn s turn_id)
      ≡ true
unfolding is_other_turn
other_turn s turn_id =
    guard (is_empty s.latest_turn_id) (text_eq s.latest_turn_id turn_id)
      (terminal_turn_status s.latest_turn_status) (turn_id_after turn_id s.latest_turn_id)
      (text_ltb (trim_space s.latest_turn_id) (trim_space turn_id))
      (turn_id_after-later turn_id s.latest_turn_id)

later_turn :
    (s live : ThreadReadSnapshot) (turn_id : Text)
    → is_refused s live turn_id ≡ false
    → moves_on s.latest_turn_id turn_id ≡ true
unfolding is_refused moves_on
later_turn s live turn_id h = ground (arith, h, other_turn s turn_id)

step_if :
    (s t : ThreadReadSnapshot) (b : Bool)
    → (b ≡ false → moves_on s.latest_turn_id t.latest_turn_id ≡ true)
    → moves_on s.latest_turn_id (or_same s (if b then none else some t)).latest_turn_id ≡ true
step_if s t true h = moves_on_refl s.latest_turn_id
step_if s t false h = h refl

live_step-moves_on :
    (s live : ThreadReadSnapshot)
    → moves_on s.latest_turn_id (live_step s live).latest_turn_id ≡ true
unfolding live_step apply_live_tool with_live_tool
live_step-moves_on s live =
    step_if s (with_live_tool s live (turn_of_event s live)) _
      (later_turn s live (turn_of_event s live))

-- Over any sequence of live events the snapshot of a thread never goes back to an earlier turn: its
-- turn stays, or one with a greater identifier takes its place, or there was none.
pub live_run-moves_on :
    (s : ThreadReadSnapshot) (events : List ThreadReadSnapshot)
    → moves_on s.latest_turn_id (live_run s events).latest_turn_id ≡ true
unfolding live_run
live_run-moves_on s [] = moves_on_refl s.latest_turn_id
live_run-moves_on s (live ∷ events) =
    moves_on_trans s.latest_turn_id (live_step s live).latest_turn_id _ (live_step-moves_on s live)
      (live_run-moves_on (live_step s live) events)
