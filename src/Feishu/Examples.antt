-- ===== src/Feishu/Examples.antt =====
-- A text of three lines, one of them too long.
use codex_feishu.Prelude.{◌≡◌, refl, true, [], ◌∷◌, ◌++◌, arith, any, All}
use codex_feishu.Prelude.Text.{codes, trim_right, trim_space}
use codex_feishu.Prelude.Text.Trim.{length-trim_space}
use codex_feishu.Prelude.Text.Split.{split_on, replace_crlf}
use codex_feishu.Feishu.Content.{Bytes, split_text}
use codex_feishu.Prelude.Text.Split.{split_on, replace_crlf}
use codex_feishu.Feishu.Content.Fits.{Fits, shows, split_text-Fits}

abbrev lines : Bytes
lines = codes "one" ++ 13 ∷ 10 ∷ codes "twotwotwo  " ++ 10 ∷ codes "3"

lines-split :
    split_text trim_space lines 5 ≡ codes "one" ∷ codes "twotw" ∷ codes "otwo" ∷ codes "3" ∷ []
unfolding split_text trim_space
lines-split = refl

lines-show : any shows (split_on 10 (replace_crlf lines)) ≡ true
unfolding replace_crlf split_on trim_right
lines-show = refl

split_text-Fits_example : All (Fits 5) (split_text trim_space lines 5)
split_text-Fits_example =
    split_text-Fits trim_space length-trim_space 5 (omega arith) lines lines-show
