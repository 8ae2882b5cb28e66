-- ===== src/AppServer/Collect/Window.antt =====
-- What the agent messages of a turn are, and which of them is its final answer.
use codex_feishu.Prelude.{
  ℕ, zero, suc, ◌≡◌, refl, ap, ◌∙◌, Bool, true, false, not, ◌||◌, Option, none, some, List, [], ◌∷◌,
  arith, if◌then◌else◌, length, take, first, any, reverse, All, with_some, filter_map,
  filter_map-reverse, length-filter_map-le, length-reverse, take-all, All-reverse,
}
use codex_feishu.Prelude.Text.{Text, codes, text_eq, trim_space, is_empty, to_lower}
use codex_feishu.AppServer.Json.{Json, Encoding, fingerprint}
use codex_feishu.AppServer.Snapshot.{AgentMessageEntry}
use codex_feishu.AppServer.Collect.{
  phase_of, entry_of, collect_entries, collect_agent_message_entries_from_items, first_text,
  final_among, latest_final_agent_message, message_of, is_other,
}

module _ (lib : Encoding) where
  -- All agent messages of a turn, the newest first.
  unfoldable pub messages : List Json → List AgentMessageEntry
  messages items = reverse (filter_map (entry_of lib) items)

  collect_entries_lem :
      (items : List Json) (room : ℕ)
      → collect_entries lib items room ≡ take room (filter_map (entry_of lib) items)
  unfolding collect_entries
  collect_entries_lem [] zero = refl
  collect_entries_lem [] (suc room) = refl
  collect_entries_lem (raw ∷ before) zero = refl
  collect_entries_lem (raw ∷ before) (suc room) =
      ground (arith, collect_entries_lem before room, collect_entries_lem before (suc room))

  -- The loop from the end of the items with its counter collects the newest messages, at most
  -- `limit` of them, and every message of the turn where `limit` is the number of items.
  collect_agent_message_entries_from_items_lem :
      (items : List Json) (limit : ℕ)
      → (collect_agent_message_entries_from_items lib items limit ≡ take limit (messages items))
        × (collect_agent_message_entries_from_items lib items (length items) ≡ messages items)
  unfolding collect_agent_message_entries_from_items messages
  collect_agent_message_entries_from_items_lem items limit = (
    collect_entries_lem (reverse items) limit
        ∙ ap (take limit) (filter_map-reverse (entry_of lib) items),
    collect_entries_lem (reverse items) (length items)
        ∙ ap (take (length items)) (filter_map-reverse (entry_of lib) items)
        ∙ take-all (length items) _ (
            omega (
              arith,
              length-reverse (filter_map (entry_of lib) items),
              length-filter_map-le (entry_of lib) items,
            )),
  )

  -- The final answer among messages, the newest first: the first one whose phase says so; where no
  -- message has a phase, the newest one.
  unfoldable pub final_of : List AgentMessageEntry → Text × Text
  unfolding text_eq to_lower trim_space fingerprint
  final_of entries = elim (first (λ e. text_eq (phase_of e) (codes "final_answer")) entries) [
    | some e ↦ (e.text, e.fp)
    | none ↦ if any (λ e. not (is_empty (phase_of e))) entries then ([], []) else elim entries [
      | [] ↦ ([], [])
      | e ∷ rest ↦ (e.text, fingerprint lib (codes "agentMessage" ∷ e.id ∷ e.text ∷ []))
    ]
  ]

  final_among_lem :
      (entries : List AgentMessageEntry) (has_phase : Bool) (rest : List AgentMessageEntry)
      → final_among lib entries has_phase rest
        ≡ elim (first (λ e. text_eq (phase_of e) (codes "final_answer")) rest) [
          | some e ↦ (e.text, e.fp)
          | none ↦
              if has_phase || any (λ e. not (is_empty (phase_of e))) rest
              then ([], [])
              else first_text lib entries
        ]
  unfolding final_among
  final_among_lem entries has_phase [] = ground arith
  final_among_lem entries has_phase (e ∷ rest) =
      ground (arith, final_among_lem entries (has_phase || not (is_empty (phase_of e))) rest)

  -- An entry shows something.
  IsVisible : AgentMessageEntry → Type 0
  IsVisible e = is_empty e.text ≡ false

  record IsShown (o : Option AgentMessageEntry) : Type 0 where
    shown : (rest : List AgentMessageEntry) → All IsVisible rest → All IsVisible (with_some o rest)

  if-IsShown :
      (skipped : Bool) (e : AgentMessageEntry)
      → IsShown (if skipped || is_empty e.text then none else some e)
  unfolding IsVisible
  if-IsShown true e = record { shown = λ rest h. h }
  if-IsShown false e = record { shown = λ rest h. ground (arith, h) }

  entry_of-IsShown : (raw : Json) → IsShown (entry_of lib raw)
  unfolding entry_of
  entry_of-IsShown raw = if-IsShown (is_other raw) (message_of lib raw)

  filter_map-IsVisible : (items : List Json) → All IsVisible (filter_map (entry_of lib) items)
  filter_map-IsVisible [] = tt
  filter_map-IsVisible (raw ∷ rest) = (entry_of-IsShown raw).shown _ (filter_map-IsVisible rest)

  first_text_lem :
      (entries : List AgentMessageEntry)
      → All IsVisible entries
      → first_text lib entries ≡ elim entries [
        | [] ↦ ([], [])
        | e ∷ rest ↦ (e.text, fingerprint lib (codes "agentMessage" ∷ e.id ∷ e.text ∷ []))
      ]
  unfolding first_text IsVisible
  first_text_lem [] h = refl
  first_text_lem (e ∷ rest) h = ground (arith, h.0)

  final_among_visible :
      (entries : List AgentMessageEntry)
      → All IsVisible entries
      → final_among lib entries false entries ≡ final_of entries
  unfolding final_of
  final_among_visible entries h =
      ground (arith, final_among_lem entries false entries, first_text_lem entries h)

  -- The final answer of a turn is the newest message whose phase says so; where no message has a
  -- phase, it is the newest message; where some have, and none is final, there is none.
  pub latest_final_agent_message_lem :
      (items : List Json) → latest_final_agent_message lib items ≡ final_of (messages items)
  unfolding latest_final_agent_message final_of messages
  latest_final_agent_message_lem items =
      ap (λ es. final_among lib es false es)
        (collect_agent_message_entries_from_items_lem items (length items)).1
      ∙ final_among_visible _ (All-reverse IsVisible _ (filter_map-IsVisible items))
