-- ===== src/DesktopIpc/Owners/Known.antt =====
-- What is known of the owner of a thread.
use codex_feishu.Prelude.{
  ◌≡◌, refl, Bool, true, false, not, ◌&&◌, Option, none, some, arith, if◌then◌else◌,
}
use codex_feishu.Prelude.Text.{Text, text_eq, text_eq_refl, text_eq_iff, trim_space, is_empty}
use codex_feishu.Prelude.Text.Trim.{trim_space_idem}
use codex_feishu.Storage.State.{get_state}
use codex_feishu.Storage.State.Laws.{lookup-set_state}
use codex_feishu.DesktopIpc.Client.{Response}
use codex_feishu.DesktopIpc.Owners.{
  Owners, thread_owner, remember_thread_owner, owner_from_answer, ensure_thread_owner,
}

remember_thread_owner-owner :
    (thread client other : Text) (owners : Owners)
    → thread_owner other (remember_thread_owner thread client owners) ≡ (
        if not (is_empty (trim_space thread))
          && (not (is_empty (trim_space client)) && text_eq (trim_space thread) (trim_space other))
        then trim_space client
        else thread_owner other owners)
unfolding thread_owner remember_thread_owner get_state
remember_thread_owner-owner thread client other owners = ground (
  arith,
  lookup-set_state (trim_space thread) (trim_space other) (trim_space client) owners,
  text_eq_iff (trim_space thread) (trim_space other),
)

-- An owner that was found is not empty and on record.
abbrev pub known_as : Text → Option Text × Owners → Bool
known_as thread (none, owners) = true
known_as thread (some owner, owners) =
    not (is_empty owner) && text_eq (thread_owner thread owners) owner

owner_from_answer-known :
    (thread : Text) (answer : Option Response) (owners : Owners)
    → is_empty (trim_space thread) ≡ false
    → known_as thread (owner_from_answer thread answer owners) ≡ true
unfolding owner_from_answer
owner_from_answer-known thread none owners h = refl
owner_from_answer-known thread (some answer) owners h =
    let owner = trim_space answer.handled_by_client_id in
    ground (
      arith,
      trim_space_idem answer.handled_by_client_id,
      text_eq_refl owner,
      text_eq_refl (trim_space thread),
      remember_thread_owner-owner thread owner thread owners,
    )

-- An owner that the client finds for a thread is not empty, and it is the owner on record of the
-- thread afterwards, whatever the desktop app answers. Remembering an owner changes the record of
-- that thread only, and a blank thread or client is not remembered.
pub ensure_thread_owner-known :
    (discover : Text → Option Response) (thread client other : Text) (owners : Owners)
    → (known_as (trim_space thread) (ensure_thread_owner discover thread owners) ≡ true)
      × (thread_owner other (remember_thread_owner thread client owners) ≡ (
          if not (is_empty (trim_space thread))
            && (not (is_empty (trim_space client))
                && text_eq (trim_space thread) (trim_space other))
          then trim_space client
          else thread_owner other owners))
unfolding ensure_thread_owner
ensure_thread_owner-known discover thread client other owners = (
  ground (
    arith,
    trim_space_idem thread,
    text_eq_refl (thread_owner (trim_space thread) owners),
    owner_from_answer-known (trim_space thread) (discover (trim_space thread)) owners,
  ),
  remember_thread_owner-owner thread client other owners,
)
