-- ===== src/Daemon/LiveTool/Upsert.antt =====
-- What the detail items of a thread are after a live event.
use codex_feishu.Prelude.{
  ◌≡◌, refl, sym, ap, ◌∙◌, inl, inr, Bool, true, false, not, List, [], ◌∷◌, ◌++◌, append-nil, arith,
  Bool-cases, select, any,
}
use codex_feishu.Prelude.Text.{text_eq_refl, trim_space, is_blank}
use codex_feishu.AppServer.Snapshot.{DetailItem}
use codex_feishu.Daemon.LiveTool.{is_replaced, upsert_live_tool_details}

module _ {ℓ} {A : Type ℓ} where
  select-append : (p : A → Bool) (xs ys : List A) → select p (xs ++ ys) ≡ select p xs ++ select p ys
  select-append p [] ys = refl
  select-append p (x ∷ xs) ys = ground (arith, select-append p xs ys)

  select_idem : (p : A → Bool) (xs : List A) → select p (select p xs) ≡ select p xs
  select_idem p [] = refl
  select_idem p (x ∷ xs) = elim (Bool-cases (p x)) [
    | inl h ↦ ground (arith, h, select_idem p xs)
    | inr h ↦ ground (arith, h, select_idem p xs)
  ]

  select_all : (xs : List A) → select (λ x. true) xs ≡ xs
  select_all [] = refl
  select_all (x ∷ xs) = ap (λ ys. x ∷ ys) (select_all xs)

  -- A stronger test selects nothing where a weaker one does not.
  select_none :
      (p q : A → Bool) (xs : List A)
      → ((x : A) → q x ≡ true → p x ≡ true)
      → select p xs ≡ []
      → select q xs ≡ []
  select_none p q [] h e = refl
  select_none p q (x ∷ xs) h e = elim (Bool-cases (p x)) [
    | inl k ↦ absurd (ground (arith, k, e))
    | inr k ↦ ground (arith, k, e, h x, select_none p q xs h)
  ]

is_kept : List DetailItem → DetailItem → Bool
is_kept live item = not (is_replaced live item)

own_id :
    (l : DetailItem) (live : List DetailItem) → is_blank l.id ≡ false → is_kept (l ∷ live) l ≡ false
unfolding is_kept is_blank
own_id l live h = ground (arith, h, text_eq_refl (trim_space l.id))

weaker :
    (l x : DetailItem) (live : List DetailItem)
    → is_kept (l ∷ live) x ≡ true
    → is_kept live x ≡ true
unfolding is_kept
weaker l x live h = ground (arith, h)

-- A live item with an id replaces itself.
none_kept :
    (live : List DetailItem)
    → any (λ (l : DetailItem). is_blank l.id) live ≡ false
    → select (is_kept live) live ≡ []
none_kept [] h = refl
none_kept (l ∷ live) h = ground (
  arith,
  h,
  own_id l live,
  select_none (is_kept live) (is_kept (l ∷ live)) live (λ x. weaker l x live),
  none_kept live,
)

upsert_kept :
    (items live : List DetailItem)
    → any (λ (l : DetailItem). is_blank l.id) live ≡ false
    → select (is_kept live) (select (is_kept live) items ++ live) ++ live
      ≡ select (is_kept live) items ++ live
upsert_kept items live h =
    ap (λ ys. ys ++ live)
      (select-append (is_kept live) (select (is_kept live) items) live
        ∙ ap (λ ys. select (is_kept live) (select (is_kept live) items) ++ ys) (none_kept live h)
        ∙ append-nil _
        ∙ select_idem (is_kept live) items)

-- Where the items of a live event have ids, the event puts them at the end of the detail items in place
-- of those with the same ids, and once only: a repeated event changes nothing.
pub upsert_live_tool_details_idem :
    (items live : List DetailItem)
    → any (λ (l : DetailItem). is_blank l.id) live ≡ false
    → (upsert_live_tool_details items live
        ≡ select (λ item. not (is_replaced live item)) items ++ live)
      × (upsert_live_tool_details (upsert_live_tool_details items live) live
          ≡ upsert_live_tool_details items live)
unfolding upsert_live_tool_details is_kept
upsert_live_tool_details_idem items [] h = (sym (append-nil _ ∙ select_all items), refl)
upsert_live_tool_details_idem items (l ∷ live) h = (refl, upsert_kept items (l ∷ live) h)
