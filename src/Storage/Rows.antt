-- ===== src/Storage/Rows.antt =====
-- What the statements of the store share: NULL for blank texts, and a query with LIMIT 1.
use codex_feishu.Prelude.{
  Bool, true, false, ◌&&◌, ◌||◌, Option, none, some, List, [], ◌∷◌, ltb, ◌==◌, if◌then◌else◌,
}
use codex_feishu.Prelude.Text.{Text, is_blank}

-- `nullable`: a blank text is written as NULL, which every query reads as the empty text.
unfoldable pub nullable : Text → Text
nullable t = if is_blank t then [] else t

-- The order of texts in SQLite (BINARY collation), on code points.
unfoldable pub text_ltb : Text → Text → Bool
text_ltb [] [] = false
text_ltb [] (y ∷ ys) = true
text_ltb (x ∷ xs) [] = false
text_ltb (x ∷ xs) (y ∷ ys) = ltb x y || (x == y && text_ltb xs ys)

module _ {ℓ} {A : Type ℓ} where
  -- The better of two rows by an order that puts it first.
  abbrev pub better : (A → A → Bool) → A → Option A → A
  better before x none = x
  better before x (some y) = if before x y then x else y

  -- `ORDER BY … LIMIT 1`: the row that no other stands before.
  unfoldable pub top : (A → A → Bool) → List A → Option A
  top before [] = none
  top before (x ∷ xs) = some (better before x (top before xs))
