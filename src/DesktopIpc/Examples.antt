-- ===== src/DesktopIpc/Examples.antt =====
-- A request that is answered, while the connection fails.
use codex_feishu.DesktopIpc.Owners.{thread_owner, remember_thread_owner, ensure_thread_owner}
use codex_feishu.DesktopIpc.Owners.Known.{known_as, ensure_thread_owner-known}
use codex_feishu.Prelude.{
  ◌+◌, ◌≤◌, ◌≡◌, refl, true, not, ◌&&◌, Option, none, some, [], if◌then◌else◌,
}
use codex_feishu.Prelude.Text.{codes, Text, text_eq, trim_space, is_empty}
use codex_feishu.DesktopIpc.Client.{
  WireMessage, connection, Client, new_client, register, handle_message, fail_all, send, registers,
  handles, fails, sends, Reach, begins, goes, Response,
}
use codex_feishu.DesktopIpc.Client.Once.{deliveries_on, answered_once}

abbrev answer : WireMessage
answer = record {
  kind = codes "response";
  request_id = 1;
  method = [];
  params = [];
  result_type = codes "success";
  result = some (codes "{}");
  error = [];
  handled_by_client_id = codes "desktop";
  source_client_id = [];
}

abbrev waiting : Client
waiting = register none new_client

abbrev answered : Client
answered = fail_all (connection (codes "EOF")) (send 0 (handle_message answer waiting))

answered-Reach : Reach answered
answered-Reach =
    goes
      (goes (goes (goes begins (registers none new_client)) (handles answer waiting))
        (sends 0 (handle_message answer waiting)))
      (fails (connection (codes "EOF")) (send 0 (handle_message answer waiting)))

-- The answer was sent, and the failure is not.
answered-sent : deliveries_on 0 answered.sent ≡ 1
unfolding handle_message register fail_all send
answered-sent = refl

answered_once_example : deliveries_on 0 answered.sent + deliveries_on 0 answered.in_flight ≤ 1
answered_once_example = answered_once answered answered-Reach 0

abbrev discovery : Text → Option Response
discovery thread =
    some (record { result = none; err = none; handled_by_client_id = codes " window-1 " })

ensure_thread_owner-known_example :
    (known_as (trim_space (codes " t")) (ensure_thread_owner discovery (codes " t") []) ≡ true)
    × (thread_owner (codes "t") (remember_thread_owner (codes " t") (codes "window-2") []) ≡ (
        if not (is_empty (trim_space (codes " t")))
          && (not (is_empty (trim_space (codes "window-2")))
              && text_eq (trim_space (codes " t")) (trim_space (codes "t")))
        then trim_space (codes "window-2")
        else thread_owner (codes "t") []))
ensure_thread_owner-known_example =
    ensure_thread_owner-known discovery (codes " t") (codes "window-2") (codes "t") []
