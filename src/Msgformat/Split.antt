-- ===== src/Msgformat/Split.antt =====
-- internal/msgformat/markdown.go: a text and its entities, cut into messages.
use codex_feishu.Prelude.{
  ℕ, zero, suc, ◌+◌, ◌-◌, Bool, true, false, ◌&&◌, ◌||◌, Option, none, some, List, [], ◌∷◌, ◌++◌,
  map, ltb, leb, ◌==◌, if◌then◌else◌, length,
}
pub mod Chunks
use mathlib.Core.Option
use codex_feishu.Prelude.Text.{Text, byte_len}
use codex_feishu.Msgformat.Units.{MessageEntity, RenderedMessage, rune_utf16_len, utf16_len}

-- The loop of `splitEnd`: what the message takes and what is left. `started` says whether it holds a
-- rune already.
unfoldable pub split_from : ℕ → ℕ → Bool → Text → Text × Text
unfolding rune_utf16_len
split_from max_len units started [] = ([], [])
split_from max_len units started (c ∷ cs) =
    let next = units + rune_utf16_len c in
    let (taken, rest) = split_from max_len next true cs in
    if ltb max_len next && started then ([], c ∷ cs) else (c ∷ taken, rest)

-- `splitEnd`
unfoldable pub split_end : ℕ → Text → Text × Text
unfolding split_from
split_end max_len text = split_from max_len 0 false text

-- `entitiesForRange`
unfoldable pub entities_for_range : List MessageEntity → ℕ → ℕ → List MessageEntity
entities_for_range [] start end = []
entities_for_range (e ∷ es) start end =
    let rest = entities_for_range es start end in
    if ltb e.offset start || ltb end (e.offset + e.length)
    then rest
    else record e { offset = e.offset - start } ∷ rest

-- The loop of `splitRenderedMessage` after `done`; `none` if the fuel runs out.
unfoldable pub split_loop : ℕ → ℕ → List MessageEntity → Text → Text → Option (List RenderedMessage)
unfolding split_end entities_for_range utf16_len
split_loop fuel max_len entities done [] = some []
split_loop zero max_len entities done (c ∷ cs) = none
split_loop (suc fuel) max_len entities done (c ∷ cs) =
    let (chunk, rest) = split_end max_len (c ∷ cs) in
    let message : RenderedMessage = record {
      text = chunk;
      entities = entities_for_range entities (utf16_len done) (utf16_len (done ++ chunk));
    } in
    Option.map (λ more. message ∷ more) (split_loop fuel max_len entities (done ++ chunk) rest)

-- `splitRenderedMessage`: a limit of 0 stands for one that is not positive.
unfoldable pub split_rendered_message :
    Text → List MessageEntity → ℕ → Option (List RenderedMessage)
unfolding split_loop byte_len
split_rendered_message text entities max_len =
    if max_len == 0 || leb (byte_len text) max_len
    then some (record { text = text; entities = entities } ∷ [])
    else split_loop (length text) max_len entities [] text
