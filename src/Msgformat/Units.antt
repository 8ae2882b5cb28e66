-- ===== src/Msgformat/Units.antt =====
-- internal/msgformat/markdown.go: lengths in UTF-16, and the messages (internal/model/types.go).
use codex_feishu.Prelude.{
  ℕ, ◌+◌, ◌≤◌, ◌≡◌, ◌&&◌, List, [], ◌∷◌, ◌++◌, arith, leb, if◌then◌else◌, All,
}
use codex_feishu.Prelude.Text.{Text, rune_len, byte_len}

-- `model.MessageEntity`
pub record MessageEntity : Type 0 where
  pub kind : Text
  pub offset : ℕ
  pub length : ℕ
  pub url : Text
  pub language : Text

-- `model.RenderedMessage`, without the fields that this package leaves empty.
pub record RenderedMessage : Type 0 where
  pub text : Text
  pub entities : List MessageEntity

-- `runeUTF16Len`
unfoldable pub rune_utf16_len : ℕ → ℕ
rune_utf16_len c = if leb 0x10000 c && leb c 0x10ffff then 2 else 1

-- `utf16Len`
unfoldable pub utf16_len : Text → ℕ
unfolding rune_utf16_len
utf16_len [] = 0
utf16_len (c ∷ cs) = rune_utf16_len c + utf16_len cs

pub utf16_len-append : (s t : Text) → utf16_len (s ++ t) ≡ utf16_len s + utf16_len t
unfolding utf16_len
utf16_len-append [] t = omega arith
utf16_len-append (c ∷ cs) t = omega (arith, utf16_len-append cs t)

pub utf16_len-byte_len : (t : Text) → utf16_len t ≤ byte_len t
unfolding utf16_len byte_len rune_utf16_len rune_len
utf16_len-byte_len [] = omega arith
utf16_len-byte_len (c ∷ cs) = ground (arith, utf16_len-byte_len cs)

-- The entity lies inside a text of `n` units.
abbrev pub Inside : ℕ → MessageEntity → Type 0
Inside n e = e.offset + e.length ≤ n

pub Inside-weaken :
    (n m : ℕ) (es : List MessageEntity) → n ≤ m → All (Inside n) es → All (Inside m) es
Inside-weaken n m [] h k = tt
Inside-weaken n m (e ∷ es) h k = (omega (arith, k.0), Inside-weaken n m es h k.1)
