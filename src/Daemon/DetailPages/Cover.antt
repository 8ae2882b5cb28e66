-- ===== src/Daemon/DetailPages/Cover.antt =====
-- The section that the card of details opens for a page.
use codex_feishu.Prelude.{
  ℕ, zero, suc, ◌+◌, ◌-◌, ◌*◌, ◌≤◌, ◌<◌, min, ◌≡◌, refl, Bool, true, false, Option, none, some,
  arith, ◌==◌, if◌then◌else◌,
}
use codex_feishu.AppServer.Json.{ℤ, pos, negsuc}
use codex_feishu.AppServer.Snapshot.{ThreadReadSnapshot}
use codex_feishu.Daemon.DetailPages.{
  details_page_size, details_page_count, clamp_int, first_with_tools,
  first_commentary_with_tools_on_page,
}

first_with_tools-bounds :
    (s : ThreadReadSnapshot) (index rounds found : ℕ)
    → first_with_tools s index rounds ≡ some found
    → (index ≤ found) × (found < index + rounds)
unfolding first_with_tools
first_with_tools-bounds s index zero found h = absurd cc
first_with_tools-bounds s index (suc rounds) found h =
    ground (arith, h, first_with_tools-bounds s (suc index) rounds found)

-- The first section of the page that is shown.
unfoldable pub first_on_page : ℤ → ℕ → ℕ
unfolding clamp_int details_page_count
first_on_page page count = clamp_int page 0 (details_page_count count - 1) * details_page_size + 1

first_on_page-le : (page : ℤ) (count : ℕ) → 1 ≤ count → first_on_page page count ≤ count
unfolding first_on_page clamp_int details_page_count
first_on_page-le (pos n) count h = ground (arith, h)
first_on_page-le (negsuc n) count h = ground (arith, h)

first_on_page-positive : (page : ℤ) (count : ℕ) → 1 ≤ first_on_page page count
unfolding first_on_page
first_on_page-positive page count = omega arith

clamp_int-id : (n count : ℕ) → 1 ≤ n → n ≤ count → clamp_int (pos n) 1 count ≡ n
unfolding clamp_int
clamp_int-id n count h k = ground (arith, h, k)

-- A section of a page, in a card that has this many.
pub record OnPage (page : ℤ) (count found : ℕ) : Type 0 where
  pub low : first_on_page page count ≤ found
  pub high : found < first_on_page page count + details_page_size
  pub last : found ≤ count

if-OnPage :
    (page : ℤ) (count : ℕ) (b : Bool) (x y : ℕ)
    → b ≡ false
    → OnPage page count y
    → OnPage page count (if b then x else y)
if-OnPage page count true x y e h = absurd cc
if-OnPage page count false x y e h = h

chosen-OnPage :
    (page : ℤ) (count start : ℕ) (o : Option ℕ)
    → 1 ≤ count
    → start ≡ first_on_page page count
    → ((found : ℕ)
        → o ≡ some found
        → (start ≤ found)
          × (found < start + (min (start + details_page_size - 1) count + 1 - start)))
    → OnPage page count (elim o [ some index ↦ index | none ↦ clamp_int (pos start) 1 count ])
chosen-OnPage page count start none h e bounds =
    let le : start ≤ count = omega (arith, first_on_page-le page count h, e) in
    let positive : 1 ≤ start = omega (arith, first_on_page-positive page count, e) in
    let same = clamp_int-id start count positive le in
    record {
      low = omega (arith, same, e);
      high = omega (arith, same, e);
      last = omega (arith, same, le);
    }
chosen-OnPage page count start (some found) h e bounds =
    let le : start ≤ count = omega (arith, first_on_page-le page count h, e) in
    let b = bounds found refl in
    record {
      low = omega (arith, b.0, e);
      high = omega (arith, b.1, e, le);
      last = omega (arith, b.1, le);
    }

-- The section that the card opens for a page stands on that page, where the page number is first
-- brought into the range of the pages, and is one of the sections, if there is any.
pub first_commentary_with_tools_on_page-OnPage :
    (s : ThreadReadSnapshot) (page : ℤ) (count : ℕ)
    → 1 ≤ count
    → OnPage page count (first_commentary_with_tools_on_page s page count)
unfolding first_commentary_with_tools_on_page first_on_page
first_commentary_with_tools_on_page-OnPage s page count h =
    let start = first_on_page page count in
    let rounds = min (start + details_page_size - 1) count + 1 - start in
    if-OnPage page count (count == 0) 1 _ (ground (arith, h)) (
      chosen-OnPage page count start (first_with_tools s start rounds) h refl
        (first_with_tools-bounds s start rounds))
