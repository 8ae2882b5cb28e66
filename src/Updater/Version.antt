-- ===== src/Updater/Version.antt =====
-- internal/updater/updater.go: versions and their order.
pub mod Order
use codex_feishu.Prelude.{ℕ, ◌+◌, ◌-◌, ◌*◌, ◌^◌, ◌||◌, List, [], ◌∷◌, map, ltb, if◌then◌else◌}
use codex_feishu.Prelude.Text.{Text, codes, trim_space}
use codex_feishu.Prelude.Text.Split.{split_on, trim_prefix}

-- `cleanVersion`
unfoldable pub clean_version : Text → Text
unfolding trim_space trim_prefix
clean_version value = trim_prefix (trim_space value) (codes "v")

-- The digits at the front of a part.
unfoldable pub digits : Text → Text
digits [] = []
digits (c ∷ cs) = if ltb c b'0' || ltb b'9' c then [] else c ∷ digits cs

unfoldable pub number_from : ℕ → Text → ℕ
number_from n [] = n
number_from n (c ∷ cs) = number_from (n * 10 + (c - b'0')) cs

-- `strconv.Atoi` on digits, and 0 where it fails: an `int` has 64 bits.
unfoldable pub part_number : Text → ℕ
unfolding digits number_from
part_number part = let n = number_from 0 (digits part) in if ltb n (2 ^ 63) then n else 0

-- `versionParts`
unfoldable pub version_parts : Text → List ℕ
unfolding clean_version split_on part_number
version_parts value = map part_number (split_on b'.' (clean_version value))

-- 1, 0 and -1 of `compareVersions`.
pub data Sign : Type 0 where
  greater equal less : Sign

unfoldable pub compare_numbers : ℕ → ℕ → Sign → Sign
compare_numbers a b next = if ltb b a then greater else if ltb a b then less else next

-- The loop of `compareVersions`: a part that is missing counts as 0.
unfoldable pub compare_parts : List ℕ → List ℕ → Sign
unfolding compare_numbers
compare_parts [] [] = equal
compare_parts [] (b ∷ bs) = compare_numbers 0 b (compare_parts [] bs)
compare_parts (a ∷ xs) [] = compare_numbers a 0 (compare_parts xs [])
compare_parts (a ∷ xs) (b ∷ bs) = compare_numbers a b (compare_parts xs bs)

-- `compareVersions`
unfoldable pub compare_versions : Text → Text → Sign
unfolding version_parts compare_parts
compare_versions a b = compare_parts (version_parts a) (version_parts b)
