-- ===== src/Daemon/DetailPages/Pages.antt =====
-- The pages of the card of details, and what each shows.
use codex_feishu.Prelude.{
  ℕ, zero, suc, ◌+◌, ◌-◌, ◌*◌, ◌≤◌, ◌<◌, max, ◌≡◌, refl, sym, ap, ◌∙◌, Bool, true, false, Option,
  some, List, [], ◌∷◌, ◌++◌, map, append_assoc, arith, length, take, drop, concat, All, take-all,
  length-drop,
}
use codex_feishu.Prelude.Text.{Text}
use codex_feishu.AppServer.Json.{ℤ, pos}
use codex_feishu.AppServer.Snapshot.{ThreadReadSnapshot}
use codex_feishu.Msgformat.Units.{RenderedMessage}
use codex_feishu.Msgformat.Segments.{message_limit}
use codex_feishu.Msgformat.Segments.Bounds.{render_segments-Sends}
use codex_feishu.Msgformat.Split.Chunks.{IsProper}
use codex_feishu.Daemon.DetailPages.{
  DetailSection, details_page_size, details_page_count, clamp_int, detail_sections, page_sections,
}
use codex_feishu.Daemon.DetailPages.Card.{
  plain, section_summary_segments, page_segments, CardTexts, page_mode_segments, card_segments,
  details_segments, first_rendered_message, render_details_card,
}

module _ {ℓ} {A : Type ℓ} where
  take-empty : (n : ℕ) → take {A = A} n [] ≡ []
  take-empty zero = refl
  take-empty (suc n) = refl

  drop-empty : (n : ℕ) → drop {A = A} n [] ≡ []
  drop-empty zero = refl
  drop-empty (suc n) = refl

  take-add : (a b : ℕ) (xs : List A) → take a xs ++ take b (drop a xs) ≡ take (a + b) xs
  take-add zero b xs = ap (λ n. take n xs) (omega arith)
  take-add (suc a) b [] = take-empty b ∙ sym (take-empty (suc a + b))
  take-add (suc a) b (x ∷ xs) =
      let e : suc (a + b) ≡ suc a + b = omega arith in
      ap (λ ys. x ∷ ys) (take-add a b xs) ∙ ap (λ n. take n (x ∷ xs)) e

  drop-add : (a b : ℕ) (xs : List A) → drop b (drop a xs) ≡ drop (a + b) xs
  drop-add zero b xs = ap (λ n. drop n xs) (omega arith)
  drop-add (suc a) b [] = drop-empty b ∙ sym (drop-empty (suc a + b))
  drop-add (suc a) b (x ∷ xs) =
      let e : suc (a + b) ≡ suc a + b = omega arith in drop-add a b xs ∙ ap (λ n. drop n (x ∷ xs)) e

-- All pages from one on.
unfoldable pub pages_from : List DetailSection → ℕ → ℕ → List (List DetailSection)
unfolding page_sections
pages_from sections page zero = []
pages_from sections page (suc rounds) =
    page_sections sections page ∷ pages_from sections (suc page) rounds

concat-pages_from :
    (sections : List DetailSection) (page rounds : ℕ)
    → concat (pages_from sections page rounds)
      ≡ take (rounds * details_page_size) (drop (page * details_page_size) sections)
unfolding pages_from page_sections
concat-pages_from sections page zero = refl
concat-pages_from sections page (suc rounds) =
    let here = drop (page * details_page_size) sections in
    let next : suc page * details_page_size ≡ page * details_page_size + details_page_size =
      omega arith in
    let size : details_page_size + rounds * details_page_size ≡ suc rounds * details_page_size =
      omega arith in
    ap (λ ys. take details_page_size here ++ ys)
      (concat-pages_from sections (suc page) rounds
        ∙ ap (λ n. take (rounds * details_page_size) (drop n sections)) next
        ∙ ap (take (rounds * details_page_size))
            (sym (drop-add (page * details_page_size) details_page_size sections)))
    ∙ take-add details_page_size (rounds * details_page_size) here
    ∙ ap (λ n. take n here) size

enough_pages : (n : ℕ) → n ≤ details_page_count n * details_page_size
unfolding details_page_count
enough_pages n = ground arith

abbrev pub is_nil {ℓ} : {A : Type ℓ} → List A → Bool
is_nil [] = true
is_nil (x ∷ xs) = false

is_nil-take :
    {A : Type 0} (xs : List A) → 1 ≤ length xs → is_nil (take details_page_size xs) ≡ false
is_nil-take [] h = absurd (omega arith)
is_nil-take (x ∷ xs) h = refl

concat-map {ℓ κ} :
    {A : Type ℓ} {B : Type κ} (f : A → List B) (xss : List (List A))
    → concat (map (λ xs. concat (map f xs)) xss) ≡ concat (map f (concat xss))
concat-map f [] = refl
concat-map f ([] ∷ xss) = concat-map f xss
concat-map f ((x ∷ xs) ∷ xss) =
    append_assoc (f x) (concat (map f xs)) _ ∙ ap (λ ys. f x ++ ys) (concat-map f (xs ∷ xss))

all_pages :
    (sections : List DetailSection)
    → concat (pages_from sections 0 (details_page_count (length sections))) ≡ sections
unfolding details_page_count
all_pages sections =
    concat-pages_from sections 0 (details_page_count (length sections))
    ∙ take-all _ sections (enough_pages (length sections))

in_range : (page n : ℕ) → page < n → clamp_int (pos page) 0 (max 1 n - 1) ≡ page
unfolding clamp_int
in_range page n h = ground (arith, h)

page_shown :
    (s : ThreadReadSnapshot) (texts : CardTexts) (page : ℕ) (sections : List DetailSection)
    → page < details_page_count (length sections)
    → page_mode_segments s texts page (details_page_count (length sections)) sections
      ≡ page_segments s (page_sections sections page)
        ++ plain (texts.page_of (page + 1) (details_page_count (length sections))) ∷ []
unfolding page_mode_segments details_page_count
page_shown s texts page [] h = absurd (omega arith)
page_shown s texts page (x ∷ xs) h = refl

card_shown :
    (s : ThreadReadSnapshot) (texts : CardTexts) (page : ℕ) (index : ℤ)
    (sections : List DetailSection)
    → page < details_page_count (length sections)
    → card_segments s texts false (pos page) index sections
      ≡ plain texts.header
        ∷ page_mode_segments s texts page (details_page_count (length sections)) sections
unfolding card_segments
card_shown s texts page index sections h =
    let n = details_page_count (length sections) in
    let total : max 1 n ≡ n = omega arith in
    ap (λ p. plain texts.header ∷ page_mode_segments s texts p (max 1 n) sections)
      (in_range page n h)
    ∙ ap (λ t. plain texts.header ∷ page_mode_segments s texts page t sections) total

page_full :
    (page : ℕ) (sections : List DetailSection)
    → page < details_page_count (length sections)
    → is_nil (page_sections sections page) ≡ false
unfolding page_sections details_page_count
page_full page sections h = ground (
  arith,
  h,
  is_nil-take (drop (page * details_page_size) sections),
  length-drop (page * details_page_size) sections,
)

-- The card is one message of this limit, with its entities inside it.
pub record Shows (max_len : ℕ) (card : Option RenderedMessage) : Type 0 where
  pub message : RenderedMessage
  pub shown : card ≡ some message
  pub proper : IsProper max_len message

first-Shows :
    (max_len : ℕ) (messages : List RenderedMessage)
    → 0 < length messages
    → All (IsProper max_len) messages
    → Shows max_len (some (first_rendered_message messages))
unfolding first_rendered_message
first-Shows max_len [] h k = absurd (omega arith)
first-Shows max_len (m ∷ ms) h k = record { message = m; shown = refl; proper = k.0 }

render_details_card-Shows :
    (http : Text → Bool) (s : ThreadReadSnapshot) (texts : CardTexts) (tool_mode : Bool)
    (page index : ℤ)
    → Shows message_limit (render_details_card http s texts tool_mode page index)
unfolding render_details_card
render_details_card-Shows http s texts tool_mode page index =
    let segments = details_segments s texts tool_mode page index in
    let sends = render_segments-Sends http segments message_limit (λ e. absurd (omega arith)) in
    rw sends.produced (first-Shows message_limit sends.messages sends.given sends.proper)

-- Where the card is not in tool mode and the page that is asked for is one of its pages, its segments
-- are the header, those of the sections of the page, of which there is one at least, and the number
-- of the page; and those of the sections, over all pages in order, are those of every section of the
-- snapshot once and in order. What the card shows of its segments is one message of 4096 UTF-16 units
-- at most, with its entities inside it.
pub details_segments-covers :
    (http : Text → Bool) (s : ThreadReadSnapshot) (texts : CardTexts) (page : ℕ) (index : ℤ)
    → let sections = detail_sections (some s) in
      let count = details_page_count (length sections) in
      page < count
      → (details_segments s texts false (pos page) index
          ≡ plain texts.header ∷ page_segments s (page_sections sections page)
            ++ plain (texts.page_of (page + 1) count) ∷ [])
        × (is_nil (page_sections sections page) ≡ false)
        × (concat (map (page_segments s) (pages_from sections 0 count)) ≡ page_segments s sections)
        × Shows message_limit (render_details_card http s texts false (pos page) index)
unfolding details_segments page_segments
details_segments-covers http s texts page index h = (
  card_shown s texts page index (detail_sections (some s)) h
      ∙ ap (λ t. plain texts.header ∷ t) (page_shown s texts page (detail_sections (some s)) h),
  page_full page (detail_sections (some s)) h,
  concat-map (section_summary_segments s) (
        pages_from (detail_sections (some s)) 0
          (details_page_count (length (detail_sections (some s)))))
      ∙ ap (λ xs. concat (map (section_summary_segments s) xs))
          (all_pages (detail_sections (some s))),
  render_details_card-Shows http s texts false (pos page) index,
)
