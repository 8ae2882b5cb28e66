-- ===== src/AppServer/Compact.antt =====
-- internal/appserver/normalize.go: the payload that a snapshot keeps, and `CompactSnapshot`. A map
-- that the code builds is the list of its entries in the order of its keys in the code.
use codex_feishu.Prelude.{
  ℕ, zero, suc, ◌+◌, ◌-◌, ◌/◌, ◌%◌, ◌<◌, Option, none, some, List, [], ◌∷◌, ◌++◌, map, ltb,
  if◌then◌else◌, length, take, drop,
}
pub mod Window
use codex_feishu.Prelude.Text.{Text, codes}
use codex_feishu.AppServer.Json.{
  Json, null, boolean, number, string, array, object, Elements, nil, cons, Fields, end, field, find,
  from_list, object_of,
}
use codex_feishu.AppServer.ThreadRead.{thread_payload_of, turns_of, items_of}
use codex_feishu.AppServer.Snapshot.{Thread, CompletedTurnMessage}

-- The decimal digits of a number, by the last one; as fuel serves a number that is not smaller.
unfoldable pub digits_of : ℕ → ℕ → Text
digits_of zero n = []
digits_of (suc fuel) n =
    let rest = digits_of fuel (n / 10) in
    if ltb n 10 then (b'0' + n) ∷ [] else rest ++ (b'0' + n % 10) ∷ []

-- `%d` of `fmt`
unfoldable pub decimal : ℕ → Text
unfolding digits_of
decimal n = digits_of (suc n) n

abbrev pub max_compact_snapshot_turns : ℕ
max_compact_snapshot_turns = 6

abbrev pub max_compact_snapshot_items : ℕ
max_compact_snapshot_items = 80

abbrev pub max_compact_snapshot_text_runes : ℕ
max_compact_snapshot_text_runes = 4000

-- The case of a text in `compactSnapshotValue`.
unfoldable pub compact_text : Text → Text
unfolding decimal
compact_text t =
    let size = length t in
    if ltb max_compact_snapshot_text_runes size
    then take max_compact_snapshot_text_runes t
      ++ codes "\n<truncated "
      ++ decimal (size - max_compact_snapshot_text_runes)
      ++ codes " chars>"
    else t

-- `compactSnapshotValue`
unfoldable mutual
  unfolding compact_text

  pub compact_snapshot_value : Json → Json
  compact_snapshot_value null = null
  compact_snapshot_value (boolean b) = boolean b
  compact_snapshot_value (number x) = number x
  compact_snapshot_value (string t) = string (compact_text t)
  compact_snapshot_value (array vs) = array (compact_elements vs)
  compact_snapshot_value (object fs) = object (compact_fields fs)

  pub compact_elements : Elements → Elements
  compact_elements nil = nil
  compact_elements (cons v vs) = cons (compact_snapshot_value v) (compact_elements vs)

  pub compact_fields : Fields → Fields
  compact_fields end = end
  compact_fields (field k v fs) = field k (compact_snapshot_value v) (compact_fields fs)

-- The loop over keys: each one that is present is kept, its value changed by `f`.
unfoldable pub copy_keys : (Json → Json) → Fields → List Text → Fields → Fields
unfolding find
copy_keys f payload [] more = more
copy_keys f payload (key ∷ keys) more =
    let rest = copy_keys f payload keys more in
    elim (find key payload) [ none ↦ rest | some v ↦ field key (f v) rest ]

abbrev pub thread_keys : List Text
thread_keys =
    codes "id"
    ∷ codes "path"
    ∷ codes "createdAt"
    ∷ codes "updatedAt"
    ∷ codes "cwd"
    ∷ codes "name"
    ∷ codes "title"
    ∷ codes "status"
    ∷ codes "archived"
    ∷ codes "isArchived"
    ∷ codes "deleted"
    ∷ codes "isDeleted"
    ∷ []

abbrev pub turn_keys : List Text
turn_keys =
    codes "id" ∷ codes "status" ∷ codes "startedAt" ∷ codes "completedAt" ∷ codes "durationMs" ∷ []

-- `xs[len(xs)-n:]` where there are more.
abbrev pub last_of {ℓ} : {A : Type ℓ} → ℕ → List A → List A
last_of n xs = drop (length xs - n) xs

unfoldable pub compact_turn : Json → Option Json
unfolding object_of copy_keys compact_snapshot_value from_list
compact_turn (object turn) = some (
    object (
      copy_keys compact_snapshot_value turn turn_keys (
        field (codes "items")
          (array (
            from_list
              (map compact_snapshot_value (last_of max_compact_snapshot_items (items_of turn)))))
          end)))
compact_turn v = none

unfoldable pub compact_turns : List Json → List Json
unfolding compact_turn
compact_turns [] = []
compact_turns (raw ∷ rest) =
    let more = compact_turns rest in
    elim (compact_turn raw) [ none ↦ more | some turn ↦ turn ∷ more ]

-- `CompactThreadReadPayload`, before it is marshalled.
unfoldable pub compact_thread_read_payload : Fields → Json
unfolding thread_payload_of copy_keys compact_snapshot_value compact_turns from_list
compact_thread_read_payload payload =
    let body = thread_payload_of payload in
    object (
      field (codes "thread")
        (object (
          copy_keys compact_snapshot_value body thread_keys (
            field (codes "turns")
              (array
                (from_list (compact_turns (last_of max_compact_snapshot_turns (turns_of body)))))
              end)))
        end)

-- One turn of `compactSnapshotThreadRaw`.
unfoldable pub completed_turn_payload : CompletedTurnMessage → Json
completed_turn_payload turn =
    let part = object (
      field (codes "type") (string (codes "text"))
        (field (codes "text") (string turn.user_text) end)) in
    let user = object (
      field (codes "id") (string turn.user_item_id) (
        field (codes "type") (string (codes "userMessage"))
          (field (codes "content") (array (cons part nil)) end))) in
    let final = object (
      field (codes "id") (string (codes "final-" ++ turn.turn_id)) (
        field (codes "type") (string (codes "agentMessage")) (
          field (codes "phase") (string (codes "final_answer"))
            (field (codes "text") (string turn.final_text) end)))) in
    object (
      field (codes "id") (string turn.turn_id) (
        field (codes "status") (string (codes "completed"))
          (field (codes "items") (array (cons user (cons final nil))) end)))

-- `compactSnapshotThreadRaw`, before it is marshalled.
unfoldable pub compact_snapshot_thread_raw : Thread → List CompletedTurnMessage → Json
unfolding completed_turn_payload from_list
compact_snapshot_thread_raw thread turns = object (
    field (codes "thread")
      (object (
        field (codes "id") (string thread.id) (
          field (codes "title") (string thread.title) (
            field (codes "cwd") (string thread.cwd) (
              field (codes "status") (string thread.status) (
                field (codes "turns") (array (from_list (map completed_turn_payload turns)))
                  end))))))
      end)
