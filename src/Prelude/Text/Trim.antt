-- ===== src/Prelude/Text/Trim.antt =====
-- Laws of trimming.
use Prim.Native.Nat.{ℕ, ◌≤◌}
use mathlib.Core.Bool.{Bool, false}
use mathlib.Core.Path.{◌≡◌, refl}
use mathlib.Core.Logic.{inl, inr}
use mathlib.Core.List.{[], ◌∷◌}
use native.Mathlib.Omega.{arith}
use codex_feishu.Prelude.Lists.{length}
use codex_feishu.Prelude.Tests.{Bool-cases, if◌then◌else◌}
use codex_feishu.Prelude.Text.{Text, is_space, trim_left, trim_right, trim_space}

-- The text does not begin with a code point that passes the test.
abbrev Starts : (ℕ → Bool) → Text → Type 0
Starts p [] = Unit
Starts p (c ∷ cs) = p c ≡ false

trim_left-Starts : (p : ℕ → Bool) (t : Text) → Starts p (trim_left p t)
unfolding trim_left
trim_left-Starts p [] = tt
trim_left-Starts p (c ∷ cs) = elim (Bool-cases (p c)) [
  | inl e ↦ rw e (trim_left-Starts p cs)
  | inr e ↦ rw e e
]

trim_left-of_Starts : (p : ℕ → Bool) (t : Text) → Starts p t → trim_left p t ≡ t
unfolding trim_left
trim_left-of_Starts p [] h = refl
trim_left-of_Starts p (c ∷ cs) h = rw h

trim_right-Starts : (p : ℕ → Bool) (t : Text) → Starts p t → Starts p (trim_right p t)
unfolding trim_right
trim_right-Starts p [] h = tt
trim_right-Starts p (c ∷ cs) h = go (trim_right p cs)
  where
    go : (r : Text) → Starts p (elim r [ [] ↦ if p c then [] else c ∷ [] | d ∷ ds ↦ c ∷ d ∷ ds ])
    go [] = rw h h
    go (d ∷ ds) = h

trim_right_idem : (p : ℕ → Bool) (t : Text) → trim_right p (trim_right p t) ≡ trim_right p t
unfolding trim_right
trim_right_idem p [] = refl
trim_right_idem p (c ∷ cs) = ground (arith, trim_right_idem p cs)

pub trim_space_idem : (t : Text) → trim_space (trim_space t) ≡ trim_space t
unfolding trim_space
trim_space_idem t =
    let s = trim_left-Starts is_space t in
    rw (trim_left-of_Starts is_space _ (trim_right-Starts is_space _ s))
      (trim_right_idem is_space (trim_left is_space t))

length-trim_left : (p : ℕ → Bool) (t : Text) → length (trim_left p t) ≤ length t
unfolding trim_left
length-trim_left p [] = omega arith
length-trim_left p (c ∷ cs) = ground (arith, length-trim_left p cs)

length-trim_right : (p : ℕ → Bool) (t : Text) → length (trim_right p t) ≤ length t
unfolding trim_right
length-trim_right p [] = omega arith
length-trim_right p (c ∷ cs) = ground (arith, length-trim_right p cs)

pub length-trim_space : (t : Text) → length (trim_space t) ≤ length t
unfolding trim_space
length-trim_space t =
    omega (arith, length-trim_left is_space t, length-trim_right is_space (trim_left is_space t))
