-- ===== src/AppServer/Details/Numbers.antt =====
-- How the detail items of a turn are numbered.
use codex_feishu.Prelude.{
  ℕ, suc, ◌≡◌, refl, Bool, true, false, ◌&&◌, ◌||◌, List, [], ◌∷◌, ◌++◌, arith, ◌==◌, if◌then◌else◌,
}
use codex_feishu.Prelude.Text.{Text, codes, text_eq, trim_space, is_empty, equal_fold}
use codex_feishu.AppServer.Json.{Json, Fields, Encoding, as_map, string_at}
use codex_feishu.AppServer.Items.{
  tool_output, normalize_agent_message_phase, is_context_compaction_phase,
}
use codex_feishu.AppServer.Snapshot.{
  DetailItem, detail_item_user, detail_item_final, detail_item_commentary, detail_item_plan,
  detail_item_compaction,
}
use codex_feishu.AppServer.Details.{
  user_detail, agent_detail, plan_detail, compaction_detail, output_detail, tool_detail,
  detail_step, detail_items_from, collect_detail_items_from_items, agent_item, output_item,
}

unfoldable pub is_comment : DetailItem → Bool
unfolding text_eq
is_comment d = text_eq d.kind detail_item_commentary || text_eq d.kind detail_item_plan

unfoldable pub is_unnumbered : DetailItem → Bool
unfolding text_eq
is_unnumbered d = text_eq d.kind detail_item_user || text_eq d.kind detail_item_compaction

-- After `k` comments: the next comment has the number `k + 1`, an item of the user or of a
-- compaction has none, and every other item has the number of the last comment before it.
unfoldable pub numbered : ℕ → List DetailItem → Bool
unfolding is_comment is_unnumbered
numbered k [] = true
numbered k (d ∷ rest) =
    if is_comment d
    then d.commentary_index == suc k && numbered (suc k) rest
    else if is_unnumbered d
    then d.commentary_index == 0 && numbered k rest
    else d.commentary_index == k && numbered k rest

-- The items of one round continue a numbering.
record Continues (k : ℕ) (r : List DetailItem × ℕ) : Type 0 where
  continue : (rest : List DetailItem) → numbered r.1 rest ≡ true → numbered k (r.0 ++ rest) ≡ true

if-Continues :
    (b : Bool) (k : ℕ) (r q : List DetailItem × ℕ)
    → Continues k r
    → Continues k q
    → Continues k (if b then r else q)
if-Continues true k r q h g = h
if-Continues false k r q h g = g

nothing-Continues : (k : ℕ) → Continues k ([], k)
nothing-Continues k = record { continue = λ rest h. h }

comment-Continues :
    (d : DetailItem) (k : ℕ)
    → is_comment d ≡ true
    → d.commentary_index ≡ suc k
    → Continues k (d ∷ [], suc k)
unfolding numbered
comment-Continues d k c e = record { continue = λ rest h. ground (arith, c, e, h) }

silent-Continues :
    (d : DetailItem) (k : ℕ)
    → is_comment d ≡ false
    → is_unnumbered d ≡ true
    → d.commentary_index ≡ 0
    → Continues k (d ∷ [], k)
unfolding numbered
silent-Continues d k c u e = record { continue = λ rest h. ground (arith, c, u, e, h) }

other-Continues :
    (d : DetailItem) (k : ℕ) (more : List DetailItem)
    → is_comment d ≡ false
    → is_unnumbered d ≡ false
    → d.commentary_index ≡ k
    → Continues k (more, k)
    → Continues k (d ∷ more, k)
unfolding numbered
other-Continues d k more c u e m = record {
  continue = λ rest h. ground (arith, c, u, e, m.continue rest h);
}

module _ (lib : Encoding) where
  user_detail-Continues : (item : Fields) (k : ℕ) → Continues k (user_detail lib item k)
  unfolding user_detail is_comment is_unnumbered text_eq
  user_detail-Continues item k =
      if-Continues _ k _ _ (nothing-Continues k) (silent-Continues _ k refl refl refl)

  agent_detail-Continues : (item : Fields) (k : ℕ) → Continues k (agent_detail lib item k)
  unfolding agent_detail agent_item is_comment is_unnumbered text_eq
  agent_detail-Continues item k =
      let phase = normalize_agent_message_phase item in
      let compaction = agent_item lib item detail_item_compaction 0 in
      let final = agent_item lib item detail_item_final k in
      let comment = agent_item lib item detail_item_commentary (suc k) in
      let last : List DetailItem × ℕ = (comment ∷ [], suc k) in
      let is_final = equal_fold phase (codes "final_answer") in
      if-Continues (is_empty (trim_space (string_at item (codes "text")))) k ([], k)
        (if is_context_compaction_phase phase
          then (compaction ∷ [], k)
          else if is_final
          then (final ∷ [], k)
          else last)
        (nothing-Continues k)
        (if-Continues (is_context_compaction_phase phase) k (compaction ∷ [], k)
          (if is_final then (final ∷ [], k) else last)
          (silent-Continues compaction k refl refl refl)
          (if-Continues is_final k (final ∷ [], k) last
            (other-Continues final k [] refl refl refl (nothing-Continues k))
            (comment-Continues comment k refl refl)))

  plan_detail-Continues : (item : Fields) (k : ℕ) → Continues k (plan_detail lib item k)
  unfolding plan_detail is_comment is_unnumbered text_eq
  plan_detail-Continues item k =
      if-Continues _ k _ _ (nothing-Continues k) (comment-Continues _ k refl refl)

  compaction_detail-Continues : (item : Fields) (k : ℕ) → Continues k (compaction_detail lib item k)
  unfolding compaction_detail is_comment is_unnumbered text_eq
  compaction_detail-Continues item k = silent-Continues _ k refl refl refl

  output_detail-Continues :
      (item : Fields) (output : Text) (k : ℕ) → Continues k (output_detail lib item output k, k)
  unfolding output_detail output_item is_comment is_unnumbered text_eq
  output_detail-Continues item output k = record {
    continue = λ rest h. ground (
      arith,
      h,
      (other-Continues (output_item lib item output k) k [] refl refl refl
            (nothing-Continues k)).continue
          rest h,
    );
  }

  tool_detail-Continues :
      (item : Fields) (turn_status : Text) (k : ℕ)
      → Continues k (tool_detail lib item turn_status k)
  unfolding tool_detail is_comment is_unnumbered text_eq
  tool_detail-Continues item turn_status k =
      if-Continues _ k _ _ (nothing-Continues k)
        (other-Continues _ k _ refl refl refl (output_detail-Continues item (tool_output item) k))

  detail_step-Continues :
      (turn_status : Text) (raw : Json) (k : ℕ) → Continues k (detail_step lib turn_status raw k)
  unfolding detail_step
  detail_step-Continues turn_status raw k =
      let item = as_map raw in
      if-Continues _ k _ _ (user_detail-Continues item k) (
        if-Continues _ k _ _ (agent_detail-Continues item k) (
          if-Continues _ k _ _ (plan_detail-Continues item k) (
            if-Continues _ k _ _ (compaction_detail-Continues item k) (
              if-Continues _ k _ _ (tool_detail-Continues item turn_status k)
                (nothing-Continues k)))))

  detail_items_from-numbered :
      (turn_status : Text) (k : ℕ) (items : List Json)
      → numbered k (detail_items_from lib turn_status k items) ≡ true
  unfolding detail_items_from numbered
  detail_items_from-numbered turn_status k [] = refl
  detail_items_from-numbered turn_status k (raw ∷ rest) =
      let r = detail_step lib turn_status raw k in
      (detail_step-Continues turn_status raw k).continue
        (detail_items_from lib turn_status r.1 rest)
        (detail_items_from-numbered turn_status r.1 rest)

  -- The comments and plans among the detail items of a turn have the numbers 1, 2, …, in order;
  -- a tool, its output and the final answer have the number of the last comment before them, and
  -- an item of the user or of a compaction has none.
  pub collect_detail_items_from_items-numbered :
      (items : List Json) (turn_status : Text)
      → numbered 0 (collect_detail_items_from_items lib items turn_status) ≡ true
  unfolding collect_detail_items_from_items
  collect_detail_items_from_items-numbered items turn_status =
      detail_items_from-numbered turn_status 0 items
