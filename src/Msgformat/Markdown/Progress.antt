-- ===== src/Msgformat/Markdown/Progress.antt =====
-- Every iteration of the Markdown loop consumes a rune at least, so that the loop ends.
use codex_feishu.Prelude.{
  ℕ, zero, suc, ◌≤◌, ◌<◌, ◌≡◌, refl, Bool, true, false, not, ◌||◌, Option, none, some, [], ◌∷◌,
  arith, ◌==◌, if◌then◌else◌, length, drop, length-drop-le,
}
use mathlib.Core.Option
use codex_feishu.Prelude.Text.{Text, codes, trim_right, trim_space, has_prefix}
use codex_feishu.Msgformat.Markdown.{
  Rendered, cut_at, fence, is_url_terminator, is_url_trailing, url_part, checked_link, link_after,
  parse_markdown_link, parse_bare_url, close_fence, open_fence, after_url, after_link, after_code,
  render_step,
}

-- What a search leaves is no longer than the text.
abbrev ShorterRest : ℕ → Option (Text × Text) → Type 0
ShorterRest n none = Unit
ShorterRest n (some (before, rest)) = length rest ≤ n

abbrev ShorterLink : ℕ → Option (Text × (Text × Text)) → Type 0
ShorterLink n none = Unit
ShorterLink n (some (label, (link, rest))) = length rest ≤ n

ShorterRest-map :
    (n m : ℕ) (c : ℕ) (r : Option (Text × Text))
    → n ≤ m
    → ShorterRest n r
    → ShorterRest m (Option.map (λ (x : Text × Text). (c ∷ x.0, x.1)) r)
ShorterRest-map n m c none h k = tt
ShorterRest-map n m c (some (a, b)) h k = omega arith

if-ShorterRest :
    (n : ℕ) (b : Bool) (x y : Option (Text × Text))
    → ShorterRest n x
    → ShorterRest n y
    → ShorterRest n (if b then x else y)
if-ShorterRest n true x y h k = h
if-ShorterRest n false x y h k = k

cut_at-shorter : (p : Text → Bool) (t : Text) → ShorterRest (length t) (cut_at p t)
unfolding cut_at
cut_at-shorter p [] = tt
cut_at-shorter p (c ∷ cs) =
    if-ShorterRest (suc (length cs)) (p (c ∷ cs)) (some ([], c ∷ cs)) _ (omega arith) (
      ShorterRest-map (length cs) (suc (length cs)) c (cut_at p cs) (omega arith)
        (cut_at-shorter p cs))

if-ShorterLink :
    (n : ℕ) (b : Bool) (x y : Option (Text × (Text × Text)))
    → ShorterLink n x
    → ShorterLink n y
    → ShorterLink n (if b then x else y)
if-ShorterLink n true x y h k = h
if-ShorterLink n false x y h k = k

checked_link-shorter :
    (http : Text → Bool) (label : Text) (n : ℕ) (r : Option (Text × Text))
    → ShorterRest n r
    → ShorterLink n (checked_link http label r)
unfolding checked_link
checked_link-shorter http label n none h = tt
checked_link-shorter http label n (some (url, closing)) h =
    if-ShorterLink n _ none (some (label, (trim_space url, drop 1 closing))) tt
      (omega (arith, length-drop-le 1 closing, h))

ShorterRest-weaken :
    (n m : ℕ) (r : Option (Text × Text)) → n ≤ m → ShorterRest n r → ShorterRest m r
ShorterRest-weaken n m none h k = tt
ShorterRest-weaken n m (some (a, b)) h k = omega arith

link_after-shorter :
    (http : Text → Bool) (n : ℕ) (r : Option (Text × Text))
    → ShorterRest (suc n) r
    → ShorterLink n (link_after http r)
unfolding link_after
link_after-shorter http n none h = tt
link_after-shorter http n (some (before, closing)) h = if-ShorterLink n _ none _ tt (
    checked_link-shorter http (drop 1 before) n _ (
      ShorterRest-weaken (length (drop 2 closing)) n _ (drop_two closing n h)
        (cut_at-shorter (λ t. has_prefix t (b')' ∷ [])) (drop 2 closing))))
  where
    drop_two : (t : Text) (n : ℕ) → length t ≤ suc n → length (drop 2 t) ≤ n
    drop_two [] n h = omega arith
    drop_two (c ∷ cs) n h = omega (arith, h, length-drop-le 1 cs)

trim_right-nonempty :
    (p : ℕ → Bool) (c : ℕ) (t : Text) → p c ≡ false → 0 < length (trim_right p (c ∷ t))
unfolding trim_right
trim_right-nonempty p c t e = ground arith

length-drop-lt : (n c : ℕ) (cs : Text) → 0 < n → length (drop n (c ∷ cs)) ≤ length cs
length-drop-lt zero c cs h = absurd (omega arith)
length-drop-lt (suc n) c cs h = length-drop-le n cs

link_shorter :
    (cs : Text)
    → length (drop (length (trim_right is_url_trailing (url_part (b'h' ∷ cs)))) (b'h' ∷ cs))
      ≤ length cs
unfolding url_part is_url_terminator
link_shorter cs =
    length-drop-lt _ b'h' cs
      (trim_right-nonempty is_url_trailing b'h' (url_part cs) (unfold is_url_trailing in refl))

parse_bare_url-shorter :
    (http : Text → Bool) (c : ℕ) (cs : Text)
    → ShorterRest (length cs) (parse_bare_url http (c ∷ cs))
unfolding parse_bare_url
parse_bare_url-shorter http c cs =
    guarded (has_prefix (c ∷ cs) (codes "http://") || has_prefix (c ∷ cs) (codes "https://"))
      (λ e. unfold has_prefix in ground arith)
  where
    guarded :
        (b : Bool)
        → (b ≡ true → c ≡ b'h')
        → let link = trim_right is_url_trailing (url_part (c ∷ cs)) in
          ShorterRest (length cs) (
            if not b
            then none
            else if not (http link)
            then none
            else some (link, drop (length link) (c ∷ cs)))
    guarded false h = tt
    guarded true h =
        let link = trim_right is_url_trailing (url_part (c ∷ cs)) in
        if-ShorterRest (length cs) (not (http link)) none (some (link, drop (length link) (c ∷ cs)))
          tt (rw (h refl) (link_shorter cs))

if-shorter :
    {n : ℕ} (b : Bool) (x y : Text × Rendered)
    → length x.0 ≤ n
    → length y.0 ≤ n
    → length (if b then x else y).0 ≤ n
if-shorter true x y h k = h
if-shorter false x y h k = k

module _ (s : Rendered) where
  close_fence-shorter :
      (text line : Text) (n : ℕ) (r : Option (Text × Text))
      → ShorterRest n r
      → length (close_fence text line r s).0 ≤ n
  unfolding close_fence
  close_fence-shorter text line n none h = omega arith
  close_fence-shorter text line n (some (body, closing)) h =
      omega (arith, length-drop-le 3 closing, h)

  open_fence-shorter :
      (text after : Text) (n : ℕ) (r : Option (Text × Text))
      → length after ≤ n
      → ShorterRest n r
      → length (open_fence text after r s).0 ≤ n
  unfolding open_fence
  open_fence-shorter text after n none h k = h
  open_fence-shorter text after n (some (line, newline)) h k = close_fence-shorter text line n _ (
      ShorterRest-weaken (length (drop 1 newline)) n _ (omega (arith, length-drop-le 1 newline, k))
        (cut_at-shorter (λ t. has_prefix t fence) (drop 1 newline)))

  after_url-shorter :
      (c : ℕ) (cs : Text) (r : Option (Text × Text))
      → ShorterRest (length cs) r
      → length (after_url c cs r s).0 ≤ length cs
  unfolding after_url
  after_url-shorter c cs none h = omega arith
  after_url-shorter c cs (some (link, rest)) h = h

  after_link-shorter :
      (http : Text → Bool) (c : ℕ) (cs : Text) (r : Option (Text × (Text × Text)))
      → ShorterLink (length cs) r
      → length (after_link http c cs r s).0 ≤ length cs
  unfolding after_link
  after_link-shorter http c cs none h = after_url-shorter c cs _ (parse_bare_url-shorter http c cs)
  after_link-shorter http c cs (some (label, (link, rest))) h = h

  after_code-shorter :
      (http : Text → Bool) (c : ℕ) (cs : Text) (r : Option (Text × Text))
      → ShorterRest (length cs) r
      → length (after_code http c cs r s).0 ≤ length cs
  unfolding after_code parse_markdown_link
  after_code-shorter http c cs none h =
      let found = link_after http (cut_at (λ t. has_prefix t (b']' ∷ [])) (c ∷ cs)) in
      after_link-shorter http c cs (if c == b'[' then found else none) (
        if-ShorterLink (length cs) (c == b'[') found none
          (link_after-shorter http (length cs) _
            (cut_at-shorter (λ t. has_prefix t (b']' ∷ [])) (c ∷ cs)))
          tt)
  after_code-shorter http c cs (some (code, closing)) h = omega (arith, length-drop-le 1 closing, h)

  pub render_step-shorter :
      (http : Text → Bool) (c : ℕ) (cs : Text) → length (render_step http c cs s).0 ≤ length cs
  unfolding render_step
  render_step-shorter http c cs =
      let tick = cut_at (λ t. has_prefix t (b'`' ∷ [])) cs in
      if-shorter _ _ _
        (open_fence-shorter (c ∷ cs) (drop 2 cs) (length cs) _ (length-drop-le 2 cs) (
          ShorterRest-weaken (length (drop 2 cs)) (length cs) _ (length-drop-le 2 cs)
            (cut_at-shorter (λ t. has_prefix t (10 ∷ [])) (drop 2 cs))))
        (after_code-shorter http c cs (if c == b'`' then tick else none) (
          if-ShorterRest (length cs) (c == b'`') tick none
            (cut_at-shorter (λ t. has_prefix t (b'`' ∷ [])) cs) tt))
