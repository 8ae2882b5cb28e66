-- ===== src/Msgformat/Segments/Bounds.antt =====
-- The messages that segments are rendered to.
use codex_feishu.Prelude.{
  ℕ, ◌+◌, ◌≤◌, ◌<◌, ◌≡◌, refl, subst, ◌≢◌, Bool, true, false, Option, none, some, List, [], ◌∷◌,
  ◌++◌, map, arith, ◌==◌, if◌then◌else◌, length, All,
}
use codex_feishu.Prelude.Text.{Text, is_blank}
use codex_feishu.Msgformat.Units.{
  MessageEntity, RenderedMessage, rune_utf16_len, utf16_len, utf16_len-append,
}
use codex_feishu.Msgformat.Markdown.{Rendered, write, render_markdown_entities}
use codex_feishu.Msgformat.Markdown.Ranges.{
  Apart, Apart-append, Apart-Inside, IsRanged, write-IsRanged, Renders,
  render_markdown_entities-Renders,
}
use codex_feishu.Msgformat.Split.Chunks.{IsProper, split_rendered_message-Cuts}
use codex_feishu.Msgformat.Segments.{
  Segment, message_limit, shift, append_converted, render_segment, collect_segments, or_space,
  split_collected, render_segments,
}

Apart-shift :
    (n low high : ℕ) (es : List MessageEntity)
    → Apart low high es
    → Apart (n + low) (n + high) (map (shift n) es)
Apart-shift n low high [] h = omega (arith, h)
Apart-shift n low high (e ∷ es) h = (
  omega (arith, h.0),
  subst (λ k. Apart k (n + high) (map (shift n) es)) (omega arith)
      (Apart-shift n (e.offset + e.length) high es h.1),
)

append_converted-Renders :
    (s : Rendered) (r : Option Rendered) → IsRanged s → Renders r → Renders (append_converted s r)
append_converted-Renders s r h k = rw k.produced (record {
  rendered = record {
    out = s.out ++ k.rendered.out;
    entities = s.entities ++ map (shift (utf16_len s.out)) k.rendered.entities;
  };
  produced = unfold append_converted in refl;
  ranged = record {
    apart = rw (utf16_len-append s.out k.rendered.out) (
        Apart-append 0 (utf16_len s.out) (utf16_len s.out + utf16_len k.rendered.out) s.entities _
          h.apart
          (subst
            (λ n.
              Apart n (utf16_len s.out + utf16_len k.rendered.out)
                (map (shift (utf16_len s.out)) k.rendered.entities))
            (omega arith)
            (Apart-shift (utf16_len s.out) 0 (utf16_len k.rendered.out) k.rendered.entities
              k.ranged.apart)));
  };
})

if-Renders :
    (b : Bool) (x y : Option Rendered) → Renders x → Renders y → Renders (if b then x else y)
if-Renders true x y h k = h
if-Renders false x y h k = k

render_segment-Renders :
    (http : Text → Bool) (g : Segment) (s : Rendered)
    → IsRanged s
    → Renders (render_segment http g s)
unfolding render_segment
render_segment-Renders http g s h =
    let h' = write-IsRanged g.plain s h in
    if-Renders (is_blank g.markdown) (some (write g.plain s))
      (append_converted (write g.plain s) (render_markdown_entities http g.markdown))
      (record { rendered = write g.plain s; produced = refl; ranged = h' })
      (append_converted-Renders (write g.plain s) _ h'
        (render_markdown_entities-Renders http g.markdown))

then_collect :
    (http : Text → Bool) (gs : List Segment) (r : Option Rendered)
    → Renders r
    → ((s : Rendered) → IsRanged s → Renders (collect_segments http gs s))
    → Renders (elim r [ none ↦ none | some s ↦ collect_segments http gs s ])
then_collect http gs none k next = k
then_collect http gs (some s) k next =
    next s (record { apart = ground (arith, k.ranged.apart, k.produced) })

collect_segments-Renders :
    (http : Text → Bool) (gs : List Segment) (s : Rendered)
    → IsRanged s
    → Renders (collect_segments http gs s)
unfolding collect_segments
collect_segments-Renders http [] s h = record { rendered = s; produced = refl; ranged = h }
collect_segments-Renders http (g ∷ gs) s h =
    then_collect http gs (render_segment http g s) (render_segment-Renders http g s h)
      (λ s' k. collect_segments-Renders http gs s' k)

-- The messages were produced, there is one at least, and each fits.
pub record Sends (max_len : ℕ) (result : Option (List RenderedMessage)) : Type 0 where
  pub messages : List RenderedMessage
  pub produced : result ≡ some messages
  pub given : 0 < length messages
  pub proper : All (IsProper max_len) messages

or_space-IsProper :
    (max_len : ℕ) (ms : List RenderedMessage)
    → 2 ≤ max_len
    → All (IsProper max_len) ms
    → (0 < length (or_space ms)) × All (IsProper max_len) (or_space ms)
unfolding or_space
or_space-IsProper max_len [] h k = (
  omega arith,
  (record { fits = unfold utf16_len rune_utf16_len in omega (arith, h); inside = tt }, tt),
)
or_space-IsProper max_len (m ∷ ms) h k = (omega arith, k)

split_collected-Sends :
    (max_len : ℕ) (r : Option Rendered)
    → 2 ≤ max_len
    → Renders r
    → Sends max_len (split_collected max_len r)
unfolding split_collected
split_collected-Sends max_len r h k =
    let s = k.rendered in
    let cuts =
      split_rendered_message-Cuts s.out s.entities max_len h
        (Apart-Inside 0 (utf16_len s.out) s.entities k.ranged.apart) in
    let proper = or_space-IsProper max_len cuts.messages h cuts.proper in
    rw k.produced (record {
      messages = or_space cuts.messages;
      produced = rw cuts.produced refl;
      given = proper.0;
      proper = proper.1;
    })

-- Any segments are rendered, whatever counts as a URL: the loops end and produce one message at
-- least, each of the limit's UTF-16 units at most (4096 where no limit is given), with its entities
-- inside it. The limit is not 1, which no rune beyond U+FFFF fits.
pub render_segments-Sends :
    (http : Text → Bool) (segments : List Segment) (given : ℕ)
    → given ≢ 1
    → Sends (if given == 0 then message_limit else given) (render_segments http segments given)
unfolding render_segments
render_segments-Sends http segments given h =
    split_collected-Sends (if given == 0 then message_limit else given) _ (ground arith) (
      collect_segments-Renders http segments _ (record { apart = unfold utf16_len in omega arith }))
