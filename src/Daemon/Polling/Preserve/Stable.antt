-- ===== src/Daemon/Polling/Preserve/Stable.antt =====
-- Keeping the live tool again changes nothing.
use codex_feishu.Prelude.{
  ◌≡◌, refl, ap, inl, inr, Bool, true, false, Option, none, some, List, [], if◌then◌else◌,
  Bool-cases, any,
}
use codex_feishu.Prelude.Text.{Text, is_blank}
use codex_feishu.AppServer.Snapshot.{DetailItem, ThreadReadSnapshot, ThreadSnapshotState}
use codex_feishu.Daemon.LiveTool.Upsert.{upsert_live_tool_details_idem}
use codex_feishu.Daemon.TerminalGate.State.{State, Env}
use codex_feishu.Daemon.Polling.Preserve.{
  tool_output_detail_items, with_recorded_tool, keeps_live_tool, preserve_recorded,
  recorded_snapshot, preserve_chat_origin_live_current_tool,
}

-- The tools and outputs of the recorded snapshot.
abbrev pub recorded_tools : Option ThreadReadSnapshot → List DetailItem
recorded_tools none = []
recorded_tools (some prev) = tool_output_detail_items prev.detail_items

-- A change under a test, done again under the test.
idem_under_if {ℓ} :
    {A : Type ℓ} (test : A → Bool) (change : A → A) (x : A)
    → change (change x) ≡ change x
    → (b : Bool) → test x ≡ b
    → (if test (if b then change x else x)
        then change (if b then change x else x)
        else (if b then change x else x))
      ≡ (if b then change x else x)
idem_under_if test change x h true e = elim (Bool-cases (test (change x))) [
  | inl k ↦ simp (k, h)
  | inr k ↦ simp (k)
]
idem_under_if test change x h false e = simp (e)

with_recorded_tool_idem :
    (prev s : ThreadReadSnapshot)
    → any (λ (l : DetailItem). is_blank l.id) (tool_output_detail_items prev.detail_items) ≡ false
    → with_recorded_tool prev (with_recorded_tool prev s) ≡ with_recorded_tool prev s
unfolding with_recorded_tool
with_recorded_tool_idem prev s h =
    ap (λ items. record (with_recorded_tool prev s) { detail_items = items })
      (upsert_live_tool_details_idem s.detail_items (tool_output_detail_items prev.detail_items)
        h).1

preserve_recorded_idem :
    (env : Env) (store : State) (recorded : Option ThreadReadSnapshot) (s : ThreadReadSnapshot)
    → any (λ (l : DetailItem). is_blank l.id) (recorded_tools recorded) ≡ false
    → preserve_recorded env store recorded (preserve_recorded env store recorded s)
      ≡ preserve_recorded env store recorded s
unfolding preserve_recorded
preserve_recorded_idem env store none s h = refl
preserve_recorded_idem env store (some prev) s h =
    idem_under_if (keeps_live_tool env store prev) (with_recorded_tool prev) s
      (with_recorded_tool_idem prev s h) (keeps_live_tool env store prev s) refl

-- Where the recorded tools have ids, keeping the live tool of a turn a second time, against the same
-- record, changes nothing.
pub preserve_chat_origin_live_current_tool_idem :
    (unmarshal : Text → Option ThreadReadSnapshot) (env : Env) (store : State)
    (previous : Option ThreadSnapshotState) (s : ThreadReadSnapshot)
    → any
        (λ (l : DetailItem). is_blank l.id)
        (recorded_tools (recorded_snapshot unmarshal previous))
      ≡ false
    → preserve_chat_origin_live_current_tool unmarshal env store previous
        (preserve_chat_origin_live_current_tool unmarshal env store previous s)
      ≡ preserve_chat_origin_live_current_tool unmarshal env store previous s
unfolding preserve_chat_origin_live_current_tool
preserve_chat_origin_live_current_tool_idem unmarshal env store previous s =
    preserve_recorded_idem env store (recorded_snapshot unmarshal previous) s
