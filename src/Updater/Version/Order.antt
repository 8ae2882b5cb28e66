-- ===== src/Updater/Version/Order.antt =====
-- `compareVersions` orders versions.
use codex_feishu.Prelude.{ℕ, ◌≡◌, refl, ◌≢◌, List, [], ◌∷◌, arith}
use codex_feishu.Prelude.Text.{Text}
use codex_feishu.Updater.Version.{
  version_parts, Sign, greater, equal, less, compare_numbers, compare_parts, compare_versions,
}

abbrev pub opposite : Sign → Sign
opposite greater = less
opposite equal = equal
opposite less = greater

-- A total preorder, by its test.
pub record IsOrder (compare : Text → Text → Sign) : Type 0 where
  pub same : (a : Text) → compare a a ≡ equal
  pub mirrored : (a b : Text) → compare b a ≡ opposite (compare a b)
  pub composed :
      (a b c : Text) → compare a b ≢ greater → compare b c ≢ greater → compare a c ≢ greater
  pub strict : (a b c : Text) → compare a b ≡ less → compare b c ≢ greater → compare a c ≡ less

compare_parts-same : (xs : List ℕ) → compare_parts xs xs ≡ equal
unfolding compare_parts
compare_parts-same [] = refl
compare_parts-same (x ∷ xs) = ground (arith, compare_parts-same xs)

compare_parts-mirrored : (xs ys : List ℕ) → compare_parts ys xs ≡ opposite (compare_parts xs ys)
unfolding compare_parts compare_numbers
compare_parts-mirrored [] [] = refl
compare_parts-mirrored [] (y ∷ ys) = ground (arith, compare_parts-mirrored [] ys)
compare_parts-mirrored (x ∷ xs) [] = ground (arith, compare_parts-mirrored xs [])
compare_parts-mirrored (x ∷ xs) (y ∷ ys) = ground (arith, compare_parts-mirrored xs ys)

compare_numbers-composed :
    (a b c : ℕ) (s t u : Sign)
    → (s ≢ greater → t ≢ greater → u ≢ greater)
    → compare_numbers a b s ≢ greater
    → compare_numbers b c t ≢ greater
    → compare_numbers a c u ≢ greater
unfolding compare_numbers
compare_numbers-composed a b c s t u h p q = ground arith

compare_parts-composed :
    (xs ys zs : List ℕ)
    → compare_parts xs ys ≢ greater
    → compare_parts ys zs ≢ greater
    → compare_parts xs zs ≢ greater
unfolding compare_parts
compare_parts-composed [] [] zs p q = q
compare_parts-composed [] (y ∷ ys) [] p q =
    compare_numbers-composed 0 y 0 (compare_parts [] ys) (compare_parts ys []) equal
      (compare_parts-composed [] ys []) p q
compare_parts-composed [] (y ∷ ys) (z ∷ zs) p q =
    compare_numbers-composed 0 y z (compare_parts [] ys) (compare_parts ys zs) (compare_parts [] zs)
      (compare_parts-composed [] ys zs) p q
compare_parts-composed (x ∷ xs) [] [] p q = p
compare_parts-composed (x ∷ xs) [] (z ∷ zs) p q =
    compare_numbers-composed x 0 z (compare_parts xs []) (compare_parts [] zs) (compare_parts xs zs)
      (compare_parts-composed xs [] zs) p q
compare_parts-composed (x ∷ xs) (y ∷ ys) [] p q =
    compare_numbers-composed x y 0 (compare_parts xs ys) (compare_parts ys []) (compare_parts xs [])
      (compare_parts-composed xs ys []) p q
compare_parts-composed (x ∷ xs) (y ∷ ys) (z ∷ zs) p q =
    compare_numbers-composed x y z (compare_parts xs ys) (compare_parts ys zs) (compare_parts xs zs)
      (compare_parts-composed xs ys zs) p q

compare_parts-strict :
    (xs ys zs : List ℕ)
    → compare_parts xs ys ≡ less
    → compare_parts ys zs ≢ greater
    → compare_parts xs zs ≡ less
compare_parts-strict xs ys zs p q = ground (
  arith,
  compare_parts-composed xs ys zs,
  compare_parts-composed ys zs xs,
  compare_parts-mirrored xs ys,
  compare_parts-mirrored xs zs,
)

-- Versions are totally preordered by `compareVersions`: a version is equal to itself, the swapped
-- comparison gives the opposite sign, and what is not greater, or less, composes.
pub compare_versions-IsOrder : IsOrder compare_versions
unfolding compare_versions
compare_versions-IsOrder = record {
  same = λ a. compare_parts-same (version_parts a);
  mirrored = λ a b. compare_parts-mirrored (version_parts a) (version_parts b);
  composed = λ a b c. compare_parts-composed (version_parts a) (version_parts b) (version_parts c);
  strict = λ a b c. compare_parts-strict (version_parts a) (version_parts b) (version_parts c);
}
