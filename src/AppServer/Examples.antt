-- ===== src/AppServer/Examples.antt =====
-- The theorems on the app server's answers at concrete ones.
use codex_feishu.Prelude.{
  ◌+◌, ◌-◌, String, ◌≡◌, refl, ap, true, false, none, some, List, [], ◌∷◌, ◌++◌, length, take, drop,
}
mod Events
use codex_feishu.Prelude.Text.{Text, codes, trim_space, is_blank}
use codex_feishu.AppServer.Json.{
  Json, string, array, object, nil, cons, Fields, end, field, Encoding,
}
use codex_feishu.AppServer.Snapshot.{ThreadReadSnapshot}
use codex_feishu.AppServer.ReadSnapshot.{no_snapshot, snapshot_from_thread_read}
use codex_feishu.AppServer.Collect.{latest_final_agent_message}
use codex_feishu.AppServer.Collect.Window.{messages, final_of, latest_final_agent_message_lem}
use codex_feishu.AppServer.Details.{collect_detail_items_from_items}
use codex_feishu.AppServer.Details.Numbers.{numbered, collect_detail_items_from_items-numbered}
use codex_feishu.AppServer.ReadSnapshot.Finished.{is_settled, snapshot_from_thread_read-settled}
use codex_feishu.AppServer.Compact.Window.{IsWindow, compact_thread_read_payload-IsWindow}
use codex_feishu.AppServer.Timing.{SnapshotCodec, compact_snapshot}
use codex_feishu.AppServer.Timing.Stable.{CodecLaws, started_at, compact_snapshot-keeps_start}
use codex_feishu.AppServer.Diff.{diff_snapshot}
use codex_feishu.AppServer.Diff.Quiet.{diff_snapshot-compact_snapshot}

abbrev pub lib : Encoding
lib = record { sha1_hex = λ t. t; marshal = λ v. codes "{}"; sprint = λ v. [] }

abbrev pub text_field : String → String → Fields → Fields
text_field k v rest = field (codes k) (string (codes v)) rest

abbrev question : Json
question =
    object (text_field "type" "userMessage" (text_field "id" "m1" (text_field "text" "fix it" end)))

abbrev remark : Json
remark = object (
    text_field "type" "agentMessage"
      (text_field "id" "m2" (text_field "phase" "commentary" (text_field "text" "looking" end))))

abbrev pub command : Json
command = object (
    text_field "type" "commandExecution"
      (text_field "id" "m3" (text_field "command" "make" (text_field "aggregatedOutput" "ok" end))))

abbrev answer : Json
answer = object (
    text_field "type" "agentMessage"
      (text_field "id" "m4" (text_field "phase" "final_answer" (text_field "text" "fixed" end))))

abbrev items : List Json
items = question ∷ remark ∷ command ∷ answer ∷ []

abbrev turn : Json
turn = object (
    text_field "id" "u1" (
      text_field "status" "inProgress" (
        field (codes "items") (array (cons question (cons remark (cons command (cons answer nil)))))
          end)))

abbrev reply : Fields
reply =
    field (codes "thread")
      (object (
        text_field "id" "t1"
          (text_field "status" "active" (field (codes "turns") (array (cons turn nil)) end))))
      end

latest_final_agent_message_lem_example :
    latest_final_agent_message lib items ≡ final_of lib (messages lib items)
latest_final_agent_message_lem_example = latest_final_agent_message_lem lib items

collect_detail_items_from_items-numbered_example :
    numbered 0 (collect_detail_items_from_items lib items (codes "inProgress")) ≡ true
collect_detail_items_from_items-numbered_example =
    collect_detail_items_from_items-numbered lib items (codes "inProgress")

snapshot_from_thread_read-settled_example :
    is_settled (snapshot_from_thread_read lib reply (codes "{}")) ≡ true
snapshot_from_thread_read-settled_example = snapshot_from_thread_read-settled lib reply (codes "{}")

compact_thread_read_payload-IsWindow_example : IsWindow reply
compact_thread_read_payload-IsWindow_example = compact_thread_read_payload-IsWindow reply

-- A codec that writes the turn and its start.
unfoldable encode : ThreadReadSnapshot → Text
encode s = length s.latest_turn_id ∷ s.latest_turn_id ++ s.latest_turn_started_at

unfoldable decode : Text → ThreadReadSnapshot
decode [] = no_snapshot
decode (n ∷ t) = record no_snapshot { latest_turn_id = take n t; latest_turn_started_at = drop n t }

abbrev codec : SnapshotCodec
codec = record { encode = encode; decode = decode; format_time = λ t. codes "12:00" }

take-length : (s t : Text) → take (length s) (s ++ t) ≡ s
take-length [] t = refl
take-length (c ∷ s) t = ap (λ r. c ∷ r) (take-length s t)

drop-length : (s t : Text) → drop (length s) (s ++ t) ≡ t
drop-length [] t = refl
drop-length (c ∷ s) t = drop-length s t

codec_laws : CodecLaws codec
unfolding encode decode is_blank trim_space
codec_laws = record {
  turn_id = λ s. take-length s.latest_turn_id s.latest_turn_started_at;
  started = λ s. drop-length s.latest_turn_id s.latest_turn_started_at;
  json = λ s. refl;
  time = λ t. refl;
}

abbrev poll : ThreadReadSnapshot
poll = record no_snapshot {
  latest_turn_id = codes "u1";
  latest_turn_status = codes "completed";
  latest_final_fp = codes "f1";
  waiting_on_reply = true;
}

diff_snapshot-compact_snapshot_example :
    diff_snapshot lib (some (compact_snapshot codec lib none poll 7 9)) poll ≡ []
diff_snapshot-compact_snapshot_example = diff_snapshot-compact_snapshot codec lib none poll 7 9

named : is_blank poll.latest_turn_id ≡ false
unfolding is_blank trim_space
named = refl

unstarted : is_blank poll.latest_turn_started_at ≡ true
unfolding is_blank trim_space
unstarted = refl

compact_snapshot-keeps_start_example :
    started_at codec codec_laws lib
      (compact_snapshot codec lib (some (compact_snapshot codec lib none poll 7 9)) poll 11 12)
    ≡ started_at codec codec_laws lib (compact_snapshot codec lib none poll 7 9)
compact_snapshot-keeps_start_example =
    compact_snapshot-keeps_start codec codec_laws lib none poll poll 7 9 11 12 named refl unstarted
