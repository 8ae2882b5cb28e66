-- ===== src/DesktopIpc/Owners.antt =====
-- internal/desktopipc/client.go: which client of the desktop app owns a thread. The map from threads
-- to clients is a list; a missing thread has the empty owner.
pub mod Known
use codex_feishu.Prelude.{not, ◌||◌, Option, none, some, List, [], if◌then◌else◌}
use codex_feishu.Prelude.Text.{Text, trim_space, is_empty}
use codex_feishu.Storage.State.{set_state, get_state}
use codex_feishu.DesktopIpc.Client.{Response}

abbrev pub Owners : Type 0
Owners = List (Text × Text)

-- `threadOwner`
unfoldable pub thread_owner : Text → Owners → Text
unfolding trim_space get_state
thread_owner thread owners =
    if is_empty (trim_space thread) then [] else get_state [] (trim_space thread) owners

-- `rememberThreadOwner`
unfoldable pub remember_thread_owner : Text → Text → Owners → Owners
unfolding trim_space set_state
remember_thread_owner thread client owners =
    if is_empty (trim_space thread) || is_empty (trim_space client)
    then owners
    else set_state (trim_space thread) (trim_space client) owners

-- `ensureThreadOwner`, by the answer of the desktop app to the discovery, if there is one.
unfoldable pub owner_from_answer : Text → Option Response → Owners → Option Text × Owners
unfolding remember_thread_owner trim_space
owner_from_answer thread none owners = (none, owners)
owner_from_answer thread (some answer) owners =
    let owner = trim_space answer.handled_by_client_id in
    elim answer.err [
      | some e ↦ (none, owners)
      | none ↦
          if is_empty owner
          then (none, owners)
          else (some owner, remember_thread_owner thread owner owners)
    ]

unfoldable pub ensure_thread_owner : (Text → Option Response) → Text → Owners → Option Text × Owners
unfolding thread_owner owner_from_answer trim_space
ensure_thread_owner discover given owners =
    let thread = trim_space given in
    let known = thread_owner thread owners in
    if is_empty thread
    then (none, owners)
    else if not (is_empty known)
    then (some known, owners)
    else owner_from_answer thread (discover thread) owners
