-- ===== src/Msgformat/Markdown/Ranges.antt =====
-- The entities of rendered Markdown lie in the text, in order and apart.
use codex_feishu.Prelude.{
  ℕ, zero, suc, ◌+◌, ◌≤◌, ◌≡◌, refl, Bool, true, false, Option, none, some, List, [], ◌∷◌, ◌++◌,
  arith, ◌==◌, if◌then◌else◌, length, drop, All,
}
use codex_feishu.Prelude.Text.{Text, codes, trim_space, has_prefix}
use codex_feishu.Msgformat.Units.{MessageEntity, utf16_len, utf16_len-append, Inside}
use codex_feishu.Msgformat.Markdown.{
  Rendered, write, emit, cut_at, fence, close_fence, open_fence, after_url, after_link, after_code,
  render_step, render_loop, render_markdown_entities,
}
use codex_feishu.Msgformat.Markdown.Progress.{render_step-shorter}

-- From `low` on and up to `high`, the entities stand one after the other.
abbrev pub Apart : ℕ → ℕ → List MessageEntity → Type 0
Apart low high [] = low ≤ high
Apart low high (e ∷ es) = (low ≤ e.offset) × Apart (e.offset + e.length) high es

pub Apart-append :
    (low mid high : ℕ) (es fs : List MessageEntity)
    → Apart low mid es
    → Apart mid high fs
    → Apart low high (es ++ fs)
Apart-append low mid high [] fs h k = Apart-lower low mid high fs h k
  where
    Apart-lower :
        (low mid high : ℕ) (fs : List MessageEntity)
        → low ≤ mid
        → Apart mid high fs
        → Apart low high fs
    Apart-lower low mid high [] h k = omega arith
    Apart-lower low mid high (f ∷ fs) h k = (omega (arith, k.0), k.1)
Apart-append low mid high (e ∷ es) fs h k =
    (h.0, Apart-append (e.offset + e.length) mid high es fs h.1 k)

pub Apart-raise :
    (low high more : ℕ) (es : List MessageEntity)
    → high ≤ more
    → Apart low high es
    → Apart low more es
Apart-raise low high more [] h k = omega arith
Apart-raise low high more (e ∷ es) h k = (k.0, Apart-raise (e.offset + e.length) high more es h k.1)

pub Apart-Inside :
    (low high : ℕ) (es : List MessageEntity) → Apart low high es → All (Inside high) es
Apart-Inside low high [] h = tt
Apart-Inside low high (e ∷ es) h = (
  omega (arith, Apart-bound (e.offset + e.length) high es h.1),
  Apart-Inside (e.offset + e.length) high es h.1,
)
  where
    Apart-bound : (low high : ℕ) (es : List MessageEntity) → Apart low high es → low ≤ high
    Apart-bound low high [] h = h
    Apart-bound low high (e ∷ es) h =
        omega (arith, h.0, Apart-bound (e.offset + e.length) high es h.1)

-- The entities of what was rendered are in order, apart and inside the text.
pub record IsRanged (s : Rendered) : Type 0 where
  pub apart : Apart 0 (utf16_len s.out) s.entities

pub write-IsRanged : (t : Text) (s : Rendered) → IsRanged s → IsRanged (write t s)
unfolding write
write-IsRanged t s h = record {
  apart = rw (utf16_len-append s.out t) (
      Apart-raise 0 (utf16_len s.out) (utf16_len s.out + utf16_len t) s.entities (omega arith)
        h.apart);
}

emit-IsRanged :
    (kind t url language : Text) (s : Rendered) → IsRanged s → IsRanged (emit kind t url language s)
unfolding emit
emit-IsRanged kind t url language s h = record {
  apart = rw (utf16_len-append s.out t) (
      Apart-append 0 (utf16_len s.out) (utf16_len s.out + utf16_len t) s.entities _ h.apart
        (omega arith, omega arith));
}

module _ (s : Rendered) (h : IsRanged s) where
  open_fence-IsRanged :
      (text after : Text) (r : Option (Text × Text)) → IsRanged (open_fence text after r s).1
  unfolding open_fence
  open_fence-IsRanged text after none = write-IsRanged fence s h
  open_fence-IsRanged text after (some (line, newline)) =
      closed (cut_at (λ t. has_prefix t fence) (drop 1 newline))
    where
      closed : (r : Option (Text × Text)) → IsRanged (close_fence text line r s).1
      closed none = unfold close_fence in write-IsRanged text s h
      closed (some (body, closing)) =
          unfold close_fence in emit-IsRanged (codes "pre") _ [] (trim_space line) s h

  after_url-IsRanged :
      (c : ℕ) (cs : Text) (r : Option (Text × Text)) → IsRanged (after_url c cs r s).1
  unfolding after_url
  after_url-IsRanged c cs none = write-IsRanged (c ∷ []) s h
  after_url-IsRanged c cs (some (link, rest)) = emit-IsRanged (codes "text_link") link link [] s h

  after_link-IsRanged :
      (http : Text → Bool) (c : ℕ) (cs : Text) (r : Option (Text × (Text × Text)))
      → IsRanged (after_link http c cs r s).1
  unfolding after_link
  after_link-IsRanged http c cs none = after_url-IsRanged c cs _
  after_link-IsRanged http c cs (some (label, (link, rest))) =
      emit-IsRanged (codes "text_link") label link [] s h

  after_code-IsRanged :
      (http : Text → Bool) (c : ℕ) (cs : Text) (r : Option (Text × Text))
      → IsRanged (after_code http c cs r s).1
  unfolding after_code
  after_code-IsRanged http c cs none = after_link-IsRanged http c cs _
  after_code-IsRanged http c cs (some (code, closing)) = emit-IsRanged (codes "code") code [] [] s h

  render_step-IsRanged :
      (http : Text → Bool) (c : ℕ) (cs : Text) → IsRanged (render_step http c cs s).1
  unfolding render_step
  render_step-IsRanged http c cs =
      let tick = if c == b'`' then cut_at (λ t. has_prefix t (b'`' ∷ [])) cs else none in
      let newline = cut_at (λ t. has_prefix t (10 ∷ [])) (drop 2 cs) in
      if-IsRanged (has_prefix (c ∷ cs) fence) (open_fence (c ∷ cs) (drop 2 cs) newline s)
        (after_code http c cs tick s) (open_fence-IsRanged (c ∷ cs) (drop 2 cs) newline)
        (after_code-IsRanged http c cs tick)
    where
      if-IsRanged :
          (b : Bool) (x y : Text × Rendered)
          → IsRanged x.1
          → IsRanged y.1
          → IsRanged (if b then x else y).1
      if-IsRanged true x y p q = p
      if-IsRanged false x y p q = q

-- Rendering ended, with ranges in order.
pub record Renders (result : Option Rendered) : Type 0 where
  pub rendered : Rendered
  pub produced : result ≡ some rendered
  pub ranged : IsRanged rendered

render_loop-Renders :
    (http : Text → Bool) (fuel : ℕ) (t : Text) (s : Rendered)
    → length t ≤ fuel
    → IsRanged s
    → Renders (render_loop http fuel t s)
unfolding render_loop
render_loop-Renders http fuel [] s h k = record { rendered = s; produced = refl; ranged = k }
render_loop-Renders http zero (c ∷ cs) s h k = absurd (omega arith)
render_loop-Renders http (suc fuel) (c ∷ cs) s h k =
    render_loop-Renders http fuel (render_step http c cs s).0 (render_step http c cs s).1
      (omega (arith, render_step-shorter s http c cs)) (render_step-IsRanged s k http c cs)

-- Any text is rendered: the loop ends, whatever the text and whatever counts as a URL, and the
-- entities are in order, do not overlap and lie inside the rendered text.
pub render_markdown_entities-Renders :
    (http : Text → Bool) (markdown : Text) → Renders (render_markdown_entities http markdown)
unfolding render_markdown_entities
render_markdown_entities-Renders http markdown =
    render_loop-Renders http (length (trim_space markdown)) (trim_space markdown) _ (omega arith)
      (record { apart = omega arith })
