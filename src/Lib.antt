-- ===== src/Lib.antt =====
-- codex-feishu is a daemon that drives Codex threads from Feishu chats. It polls the Codex app
-- server for snapshots of threads, keeps its state in an SQLite database, shows each thread as a
-- panel of messages in a chat, talks to the Codex desktop app over a socket, and updates itself
-- from GitHub releases. This library models the core of it and proves what makes that core correct.
--
-- The parts and their files:
--
--   Storage            internal/storage: the store's tables as lists of rows, one function for each
--                      statement. State.antt is `daemon_state` (SetState, SetStateIfAbsent, GetState,
--                      DeleteState) and State/Refinement.antt the map that it stands for, Panels.antt
--                      is `thread_panels` (store_panels.go), Delivery.antt is `delivery_queue` and
--                      `delivery_attempts`, Approvals.antt `pending_approvals`, Routes.antt
--                      `callback_routes`, ExternalIds.antt `external_id_maps` (ResolveExternalID),
--                      Rows.antt what they share.
--   AppServer          internal/appserver: what the app server answers, made into the snapshots that
--                      the daemon works on. Json.antt has the decoded values and their readers
--                      (client.go), Snapshot.antt the types. Of normalize.go, Items.antt has the texts
--                      of items, Collect.antt the messages of a turn, Details.antt its detail items,
--                      Payload.antt and Prompt.antt the plan prompt, ThreadRead.antt and
--                      ReadSnapshot.antt SnapshotFromThreadRead, Compact.antt what is stored of a
--                      payload, Timing.antt CompactSnapshot, Diff.antt DiffSnapshot, Requests.antt
--                      PendingApprovalFromServerRequest, LiveNotification.antt
--                      NormalizeLiveNotification, ToolSnapshot.antt the tool of a notification.
--                      Events.antt, Legacy.antt and LiveEvent.antt are live_event.go with the event of
--                      internal/control.
--   Daemon             internal/daemon. Signals.antt reads snapshots. TerminalGate is terminal_gate.go:
--                      State.antt has its data, intervals and keys, Marks.antt what it keeps in
--                      `daemon_state`, Decide.antt decideChatOriginEmptyInterruptedTerminal, Apply.antt
--                      what the service does with a decision. LiveTool.antt and LiveTool/Write.antt
--                      are applyLiveToolSnapshot (service.go), Polling.antt what pollTracked reads and
--                      records, Polling/Preserve.antt preserveChatOriginLiveCurrentTool,
--                      Polling/Passive.antt snapshotHasPassiveChange, DetailPages.antt the sections
--                      and pages of details.go and DetailPages/Card.antt the message of the card.
--                      TerminalGate/Polls.antt runs the gate on polls one after another. They use
--                      AppServer, Msgformat and Storage/State, and their proofs are split by what
--                      they prove.
--   Msgformat          internal/msgformat/markdown.go. Units.antt counts UTF-16 units, Markdown.antt is
--                      renderMarkdownEntities, Split.antt is splitRenderedMessage, Segments.antt is
--                      RenderSegments, which composes them.
--   Feishu             internal/feishu/content.go: Content.antt is splitText.
--   DesktopIpc         internal/desktopipc/client.go: Client.antt is the table of pending requests, as
--                      a relation of the steps that its goroutines make in any order, Owners.antt the
--                      owners of threads.
--   Updater            internal/updater/updater.go. Version.antt compares versions, Release.antt finds
--                      the assets of a release, Install.antt has the checksum, the archive and the
--                      replacement of the binary, Update.antt is Check and Update.
--   Prelude            names of the libraries passed on, tests on numbers, lists, and Go's functions on
--                      texts, which are lists of code points.
--
-- How the code is represented:
--
--   A statement of SQL is one step, since the store runs each on one connection; a transaction is
--   one step too, and a failure in it leaves the table as it was. Identifiers, chats and messages
--   are natural numbers. A time column is its text, as SQLite compares it; the gate's instants are
--   nanoseconds after Go's zero time, and a value that the gate stores is represented by what its
--   readers make of it (the JSON of a gate state, a time, or another text). The database may refuse
--   any read or write of the gate: Env says which, and each key is read once and written once at
--   most in a call. Errors are `none` or `false`, without their message. Loops over a text run on
--   fuel, the length of the text, and are proved to end with it. A field for JSON is its text.
--   Intervals are 64-bit where the code multiplies them (grace_duration), and a part of a version
--   that does not fit 64 bits counts as 0, as the code has it. Texts are valid UTF-8.
--   strings.EqualFold and strings.ToLower are exact where one side is ASCII, as it is in every
--   call; the two statuses that threadNeedsCatchupPolling compares are words of the protocol.
--
--   A JSON object is the list of its fields, read at the first one of a name; a number is what the
--   readers make of it: its integer part, whether it is positive or zero, and its text. A loop from
--   the end of a list is a loop over the reversed list. The digits of n are printed on fuel n + 1,
--   and ResolveExternalID tries 1024 numbers, as the code does.
--
--   Parameters: what counts as an HTTP URL (net/url), the answers of the network, SHA-256, the
--   entries of an archive, filepath.Clean, strings.TrimSpace on bytes that need not be valid UTF-8,
--   and the faults of the disk; SHA-1, json.Marshal and fmt.Sprint (`Encoding`), the JSON of a
--   snapshot and RFC3339Nano (`SnapshotCodec`), the digest and the failures of the database behind
--   ResolveExternalID (`IdEnv`), the history files of Codex (`History`), and json.Unmarshal of a
--   recorded snapshot.
--
--   The texts of the details card in the language of the bot are given (`CardTexts`). A rune that
--   trimOutputTail cuts is read as one U+FFFD for each byte that is left, as Go reads it.
--
-- Not modelled: the requests to Feishu and the app server, the cards and their JSON, the loops of the
-- daemon around its requests, the command line, the tray, the log archive and the other tables of the
-- store. They are I/O or orchestration.
mod Prelude
pub mod Storage
pub mod AppServer
pub mod Daemon
pub mod Msgformat
pub mod Updater
pub mod DesktopIpc
pub mod Feishu
