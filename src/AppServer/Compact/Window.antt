-- ===== src/AppServer/Compact/Window.antt =====
-- What is read back from the payload that a snapshot keeps.
use codex_feishu.Prelude.{
  ℕ, ◌-◌, ◌≤◌, ◌≡◌, refl, sym, ap, ◌∙◌, subst, Bool, false, Option, none, some, List, [], ◌∷◌, map,
  arith, length, any, All, with_some, filter_map, length-filter_map-le, length-drop,
}
use codex_feishu.Prelude.Text.{Text, codes, text_eq, text_eq_refl}
use codex_feishu.AppServer.Json.{
  Json, null, boolean, number, string, array, object, Fields, end, field, find, value_at, elements,
  from_list, array_of, or_nil, object_of, as_map,
}
use codex_feishu.AppServer.ThreadRead.{thread_payload_of, turns_of, items_of}
use codex_feishu.AppServer.Compact.{
  max_compact_snapshot_turns, max_compact_snapshot_items, compact_snapshot_value, copy_keys,
  thread_keys, turn_keys, last_of, compact_turn, compact_turns, compact_thread_read_payload,
}

pub elements-from_list : (vs : List Json) → elements (from_list vs) ≡ vs
unfolding elements from_list
elements-from_list [] = refl
elements-from_list (v ∷ vs) = ap (λ rest. v ∷ rest) (elements-from_list vs)

-- A key is among those that are copied.
abbrev pub is_among : Text → List Text → Bool
is_among k keys = any (λ key. text_eq key k) keys

abbrev pub mapped : (Json → Json) → Option Json → Option Json
mapped f none = none
mapped f (some v) = some (f v)

-- A copied key reads as the changed value, every other one as in the entries that follow.
find-copy_keys :
    (f : Json → Json) (payload more : Fields) (k : Text) (keys : List Text)
    → is_among k keys ≡ false
    → find k (copy_keys f payload keys more) ≡ find k more
unfolding find copy_keys
find-copy_keys f payload more k [] h = refl
find-copy_keys f payload more k (key ∷ keys) h =
    elim (find key payload)
      as (λ o.
        find k (elim o [
          | none ↦ copy_keys f payload keys more
          | some v ↦ field key (f v) (copy_keys f payload keys more)
        ])
        ≡ find k more) [
          | none ↦ find-copy_keys f payload more k keys (ground (arith, h))
          | some v ↦ ground (arith, h, find-copy_keys f payload more k keys (ground (arith, h)))
        ]

turns_key : is_among (codes "turns") thread_keys ≡ false
unfolding text_eq
turns_key = refl

items_key : is_among (codes "items") turn_keys ≡ false
unfolding text_eq
items_key = refl

length-last_of-le : (n : ℕ) (xs : List Json) → length (last_of n xs) ≤ n
length-last_of-le n xs = omega (arith, length-drop (length xs - n) xs)

-- A turn has no more items than the snapshot keeps.
pub record IsSmall (turn : Json) : Type 0 where
  pub few : length (items_of (as_map turn)) ≤ max_compact_snapshot_items

value_at-copy_keys :
    (f : Json → Json) (payload more : Fields) (k : Text) (keys : List Text)
    → is_among k keys ≡ false
    → value_at (copy_keys f payload keys more) k ≡ value_at more k
unfolding value_at
value_at-copy_keys f payload more k keys h =
    ap (λ o. elim o [ none ↦ null | some v ↦ v ]) (find-copy_keys f payload more k keys h)

value_at-field : (k : Text) (v : Json) (rest : Fields) → value_at (field k v rest) k ≡ v
unfolding value_at find
value_at-field k v rest = ground (arith, text_eq_refl k)

length-map : (f : Json → Json) (xs : List Json) → length (map f xs) ≡ length xs
length-map f [] = refl
length-map f (x ∷ xs) = omega (arith, length-map f xs)

-- An array that stands under a key reads as its elements.
read_array :
    (fs : Fields) (k : Text) (vs : List Json)
    → value_at fs k ≡ array (from_list vs)
    → or_nil (array_of (value_at fs k)) ≡ vs
unfolding array_of
read_array fs k vs h = ap (λ v. or_nil (array_of v)) h ∙ elements-from_list vs

array_after_keys :
    (f : Json → Json) (payload : Fields) (k : Text) (keys : List Text) (vs : List Json)
    → is_among k keys ≡ false
    → or_nil (array_of (value_at (copy_keys f payload keys (field k (array (from_list vs)) end)) k))
      ≡ vs
array_after_keys f payload k keys vs h =
    read_array _ k vs
      (value_at-copy_keys f payload _ k keys h ∙ value_at-field k (array (from_list vs)) end)

compact_turn-IsSmall :
    (raw : Json) (rest : List Json)
    → All IsSmall rest
    → All IsSmall (with_some (compact_turn raw) rest)
unfolding compact_turn as_map
compact_turn-IsSmall (object turn) rest h = (record { few = few }, h)
  where
    kept : List Json
    kept = map compact_snapshot_value (last_of max_compact_snapshot_items (items_of turn))

    few :
        length (
          items_of (
            copy_keys compact_snapshot_value turn turn_keys
              (field (codes "items") (array (from_list kept)) end)))
        ≤ max_compact_snapshot_items
    few = omega (
      arith,
      ap length
          (array_after_keys compact_snapshot_value turn (codes "items") turn_keys kept items_key),
      length-map compact_snapshot_value (last_of max_compact_snapshot_items (items_of turn)),
      length-last_of-le max_compact_snapshot_items (items_of turn),
    )
compact_turn-IsSmall null rest h = h
compact_turn-IsSmall (boolean b) rest h = h
compact_turn-IsSmall (number x) rest h = h
compact_turn-IsSmall (string t) rest h = h
compact_turn-IsSmall (array vs) rest h = h

compact_turns_lem : (turns : List Json) → compact_turns turns ≡ filter_map compact_turn turns
unfolding compact_turns
compact_turns_lem [] = refl
compact_turns_lem (raw ∷ rest) = ground (arith, compact_turns_lem rest)

filter_map-IsSmall : (turns : List Json) → All IsSmall (filter_map compact_turn turns)
filter_map-IsSmall [] = tt
filter_map-IsSmall (raw ∷ rest) = compact_turn-IsSmall raw _ (filter_map-IsSmall rest)

-- The thread that the compact payload holds.
abbrev pub kept_thread : Fields → Fields
kept_thread payload = thread_payload_of (as_map (compact_thread_read_payload payload))

kept_thread_lem :
    (payload : Fields)
    → kept_thread payload
      ≡ copy_keys compact_snapshot_value (thread_payload_of payload) thread_keys (
          field
            (codes "turns")
            (array (
              from_list (
                compact_turns
                  (last_of max_compact_snapshot_turns (turns_of (thread_payload_of payload))))))
            end)
unfolding thread_payload_of compact_thread_read_payload as_map object_of value_at find text_eq
kept_thread_lem payload = refl

kept_turns :
    (payload : Fields)
    → turns_of (kept_thread payload)
      ≡ filter_map compact_turn
          (last_of max_compact_snapshot_turns (turns_of (thread_payload_of payload)))
kept_turns payload =
    ap turns_of (kept_thread_lem payload)
    ∙ array_after_keys compact_snapshot_value (thread_payload_of payload) (codes "turns")
        thread_keys _ turns_key
    ∙ compact_turns_lem _

pub record IsWindow (payload : Fields) : Type 0 where
  pub turns :
      turns_of (kept_thread payload)
      ≡ filter_map compact_turn
          (last_of max_compact_snapshot_turns (turns_of (thread_payload_of payload)))
  pub few_turns : length (turns_of (kept_thread payload)) ≤ max_compact_snapshot_turns
  pub few_items : All IsSmall (turns_of (kept_thread payload))

length-kept :
    (payload : Fields) → length (turns_of (kept_thread payload)) ≤ max_compact_snapshot_turns
length-kept payload =
    let recent = last_of max_compact_snapshot_turns (turns_of (thread_payload_of payload)) in
    omega (
      arith,
      ap length (kept_turns payload),
      length-filter_map-le compact_turn recent,
      length-last_of-le max_compact_snapshot_turns (turns_of (thread_payload_of payload)),
    )

-- What is read back from the payload that a snapshot keeps is the last six turns of the thread, or
-- all where there are fewer, each compacted and without the entries that are no objects; no turn
-- among them has more than eighty items.
pub compact_thread_read_payload-IsWindow : (payload : Fields) → IsWindow payload
compact_thread_read_payload-IsWindow payload = record {
  turns = kept_turns payload;
  few_turns = length-kept payload;
  few_items = subst (All IsSmall) (sym (kept_turns payload)) (
      filter_map-IsSmall
        (last_of max_compact_snapshot_turns (turns_of (thread_payload_of payload))));
}
