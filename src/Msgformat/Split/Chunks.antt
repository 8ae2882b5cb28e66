-- ===== src/Msgformat/Split/Chunks.antt =====
-- The messages that a text is cut into.
use codex_feishu.Prelude.{
  ℕ, zero, suc, ◌+◌, ◌≤◌, ◌≡◌, refl, inl, inr, Bool, true, false, ◌||◌, Option, some, List, [], ◌∷◌,
  ◌++◌, append-nil, arith, ltb, leb, ◌==◌, Bool-cases, length, All,
}
use codex_feishu.Prelude.Text.{Text, byte_len}
use codex_feishu.Msgformat.Units.{
  MessageEntity, RenderedMessage, rune_utf16_len, utf16_len, utf16_len-append, utf16_len-byte_len,
  Inside,
}
use codex_feishu.Msgformat.Split.{
  split_from, split_end, entities_for_range, split_loop, split_rendered_message,
}

split_from-joins :
    (max_len units : ℕ) (b : Bool) (t : Text)
    → (split_from max_len units b t).0 ++ (split_from max_len units b t).1 ≡ t
unfolding split_from
split_from-joins max_len units b [] = refl
split_from-joins max_len units b (c ∷ cs) =
    ground (arith, split_from-joins max_len (units + rune_utf16_len c) true cs)

split_from-started :
    (max_len units : ℕ) (t : Text)
    → units ≤ max_len
    → units + utf16_len (split_from max_len units true t).0 ≤ max_len
unfolding split_from utf16_len
split_from-started max_len units [] h = omega arith
split_from-started max_len units (c ∷ cs) h =
    ground (arith, split_from-started max_len (units + rune_utf16_len c) cs)

split_end-fits :
    (max_len : ℕ) (t : Text) → 2 ≤ max_len → utf16_len (split_end max_len t).0 ≤ max_len
unfolding split_end split_from utf16_len
split_end-fits max_len [] h = omega arith
split_end-fits max_len (c ∷ cs) h =
    ground (arith, split_from-started max_len (rune_utf16_len c) cs, rune_utf16_len-le c)
  where
    rune_utf16_len-le : (c : ℕ) → rune_utf16_len c ≤ 2
    rune_utf16_len-le c = unfold rune_utf16_len in ground arith

-- A message takes a rune at least.
split_end-progress :
    (max_len : ℕ) (c : ℕ) (cs : Text) → length (split_end max_len (c ∷ cs)).1 ≤ length cs
unfolding split_end split_from
split_end-progress max_len c cs =
    ground (arith, split_from-shorter max_len (rune_utf16_len c) true cs)
  where
    split_from-shorter :
        (max_len units : ℕ) (b : Bool) (t : Text)
        → length (split_from max_len units b t).1 ≤ length t
    split_from-shorter max_len units b [] = unfold split_from in omega arith
    split_from-shorter max_len units b (c ∷ cs) =
        unfold split_from in
        ground (arith, split_from-shorter max_len (units + rune_utf16_len c) true cs)

entities_for_range-Inside :
    (es : List MessageEntity) (start n : ℕ)
    → All (Inside n) (entities_for_range es start (start + n))
unfolding entities_for_range
entities_for_range-Inside [] start n = tt
entities_for_range-Inside (e ∷ es) start n =
    elim (Bool-cases (ltb e.offset start || ltb (start + n) (e.offset + e.length))) [
      | inl x ↦ rw x (entities_for_range-Inside es start n)
      | inr x ↦ rw x (ground arith, entities_for_range-Inside es start n)
    ]

-- What is sent: the messages' texts, one after the other.
abbrev pub joined : List RenderedMessage → Text
joined [] = []
joined (m ∷ ms) = m.text ++ joined ms

-- The message fits, and its entities lie inside it.
pub record IsProper (max_len : ℕ) (m : RenderedMessage) : Type 0 where
  pub fits : utf16_len m.text ≤ max_len
  pub inside : All (Inside (utf16_len m.text)) m.entities

-- The messages were produced, make up the text, and are proper.
pub record Cuts (max_len : ℕ) (text : Text) (result : Option (List RenderedMessage)) : Type 0 where
  pub messages : List RenderedMessage
  pub produced : result ≡ some messages
  pub joins : joined messages ≡ text
  pub proper : All (IsProper max_len) messages

split_loop-Cuts :
    (fuel max_len : ℕ) (es : List MessageEntity) (done t : Text)
    → 2 ≤ max_len
    → length t ≤ fuel
    → Cuts max_len t (split_loop fuel max_len es done t)
unfolding split_loop
split_loop-Cuts fuel max_len es done [] h k = record {
  messages = [];
  produced = refl;
  joins = refl;
  proper = tt;
}
split_loop-Cuts zero max_len es done (c ∷ cs) h k = absurd (omega arith)
split_loop-Cuts (suc fuel) max_len es done (c ∷ cs) h k =
    let chunk = (split_end max_len (c ∷ cs)).0 in
    let rest = (split_end max_len (c ∷ cs)).1 in
    let more =
      split_loop-Cuts fuel max_len es (done ++ chunk) rest h
        (omega (arith, split_end-progress max_len c cs)) in
    let message : RenderedMessage = record {
      text = chunk;
      entities = entities_for_range es (utf16_len done) (utf16_len (done ++ chunk));
    } in
    record {
      messages = message ∷ more.messages;
      produced = rw more.produced refl;
      joins = rw more.joins (unfold split_end in split_from-joins max_len 0 false (c ∷ cs));
      proper = (
        record {
          fits = split_end-fits max_len (c ∷ cs) h;
          inside =
              rw (utf16_len-append done chunk)
                (entities_for_range-Inside es (utf16_len done) (utf16_len chunk));
        },
        more.proper,
      );
    }

-- A text is cut into messages that make it up, each of `max_len` UTF-16 units at most, whose entities
-- lie inside their message. `max_len` is at least 2, so that every rune fits, and the entities given
-- lie inside the text.
pub split_rendered_message-Cuts :
    (text : Text) (entities : List MessageEntity) (max_len : ℕ)
    → 2 ≤ max_len
    → All (Inside (utf16_len text)) entities
    → Cuts max_len text (split_rendered_message text entities max_len)
unfolding split_rendered_message
split_rendered_message-Cuts text entities max_len h inside =
    elim (Bool-cases (max_len == 0 || leb (byte_len text) max_len)) [
      | inl x ↦ rw x (record {
        messages = record { text = text; entities = entities } ∷ [];
        produced = refl;
        joins = append-nil text;
        proper = (record { fits = ground (arith, utf16_len-byte_len text); inside = inside }, tt);
      })
      | inr x ↦ rw x (split_loop-Cuts (length text) max_len entities [] text h (omega arith))
    ]
