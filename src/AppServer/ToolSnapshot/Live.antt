-- ===== src/AppServer/ToolSnapshot/Live.antt =====
-- What a snapshot says that was made of a live event.
use codex_feishu.AppServer.ToolSnapshot.{
  tool_event_status, tool_snapshot_of, tool_snapshot, tool_snapshot_from_live_notification,
}
use codex_feishu.AppServer.Events.{Event, NormalizedEvent, is_tool_kind}
use codex_feishu.Prelude.{
  ◌≡◌, refl, ap, ◌∙◌, Bool, true, false, not, ◌&&◌, ◌||◌, Option, none, some, List, [], ◌∷◌, arith,
  if◌then◌else◌,
}
use codex_feishu.Prelude.Text.{Text, trim_space, is_empty, is_blank, codes}
use codex_feishu.AppServer.Json.{Encoding, first_string}
use codex_feishu.AppServer.Payload.{terminal_latest_tool_status}
use codex_feishu.AppServer.Snapshot.{ThreadReadSnapshot, Thread}
use codex_feishu.Prelude.Text.Trim.{trim_space_idem}
use codex_feishu.AppServer.LiveEvent.{normalize_app_server_live_event}

-- The thread, the tool and its status are named, the tool has something to show, and it runs now only
-- where its turn is named and its status is not the last one.
unfoldable pub is_tool_report : ThreadReadSnapshot → Bool
unfolding is_blank terminal_latest_tool_status
is_tool_report s =
    not (is_empty s.thread.id)
    && not (is_empty s.latest_tool_id)
    && not (is_empty s.latest_tool_kind)
    && not (is_empty s.latest_tool_status)
    && (not (is_blank s.latest_tool_label) || not (is_blank s.latest_tool_output))
    && (not s.latest_tool_live_current
        || (not (is_empty s.latest_turn_id)
            && not (terminal_latest_tool_status s.latest_tool_status)))

trim_space-first_string : (ts : List Text) → trim_space (first_string ts) ≡ first_string ts
unfolding first_string trim_space
trim_space-first_string [] = refl
trim_space-first_string (t ∷ ts) = ground (arith, trim_space_idem t, trim_space-first_string ts)

-- A last text that is not blank is found where no other is.
first_string-last :
    (t w : Text) → is_empty (trim_space w) ≡ false → is_empty (first_string (t ∷ w ∷ [])) ≡ false
unfolding first_string
first_string-last t w h = ground (arith, h)

kind_is_named : (t : Text) → is_empty (first_string (t ∷ codes "tool" ∷ [])) ≡ false
unfolding trim_space
kind_is_named t = first_string-last t (codes "tool") refl

id_is_named :
    (t k : Text) → is_empty (first_string (t ∷ first_string (k ∷ codes "tool" ∷ []) ∷ [])) ≡ false
id_is_named t k =
    first_string-last t _
      (ap is_empty (trim_space-first_string (k ∷ codes "tool" ∷ [])) ∙ kind_is_named k)

tool_event_status-named : (e : NormalizedEvent) → is_empty (tool_event_status e) ≡ false
unfolding tool_event_status
tool_event_status-named e = ground arith

is_blank-trim_space : (t : Text) → is_blank (trim_space t) ≡ is_blank t
unfolding is_blank
is_blank-trim_space t = ap is_empty (trim_space_idem t)

module _ (lib : Encoding) where
  tool_snapshot_of-is_tool_report :
      (e : NormalizedEvent) (thread : Thread) (id : Text)
      → is_empty id ≡ false
      → (is_blank e.label && is_blank e.output) ≡ false
      → is_tool_report (tool_snapshot_of lib e thread id) ≡ true
  unfolding tool_snapshot_of is_tool_report
  tool_snapshot_of-is_tool_report e thread id named shows = ground (
    arith,
    named,
    shows,
    kind_is_named e.item_kind,
    id_is_named e.item_id e.item_kind,
    tool_event_status-named e,
    is_blank-trim_space e.label,
  )

  tool_snapshot-is_tool_report :
      (e : NormalizedEvent) (thread : Thread) (s : ThreadReadSnapshot)
      → tool_snapshot lib e thread ≡ some s
      → is_tool_report s ≡ true
  unfolding tool_snapshot
  tool_snapshot-is_tool_report e thread s h =
      let id = first_string (e.thread_id ∷ thread.id ∷ []) in
      when_some (not (is_tool_kind e.kind)) (is_empty id) (is_blank e.label && is_blank e.output)
        (tool_snapshot_of lib e thread id) s (tool_snapshot_of-is_tool_report e thread id) h
    where
      when_some :
          (a b c : Bool) (t u : ThreadReadSnapshot)
          → (b ≡ false → c ≡ false → is_tool_report t ≡ true)
          → (if a || b || c then none else some t) ≡ some u
          → is_tool_report u ≡ true
      when_some a b c t u k e = ground (arith, k, e)

  -- A snapshot that was made of a notification names its thread, its tool and the tool's status, has
  -- something to show of the tool, and says that the tool runs only where the turn is named and the
  -- tool's status is not one of those that end it.
  pub tool_snapshot_from_live_notification-is_tool_report :
      (event : Event) (thread : Thread) (s : ThreadReadSnapshot)
      → tool_snapshot_from_live_notification lib event thread ≡ some s
      → is_tool_report s ≡ true
  unfolding tool_snapshot_from_live_notification
  tool_snapshot_from_live_notification-is_tool_report event thread s h =
      of_event (normalize_app_server_live_event lib event thread) h
    where
      of_event :
          (e : Option NormalizedEvent)
          → elim e [ none ↦ none | some e ↦ tool_snapshot lib e thread ] ≡ some s
          → is_tool_report s ≡ true
      of_event none k = absurd cc
      of_event (some e) k = tool_snapshot-is_tool_report e thread s k
