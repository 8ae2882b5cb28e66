-- ===== src/Feishu/Content/Fits.antt =====
-- The parts of a text are bounded.
use codex_feishu.Prelude.{
  ℕ, zero, suc, ◌-◌, ◌≤◌, ◌<◌, ◌≡◌, refl, inl, inr, Bool, true, false, not, ◌&&◌, ◌||◌, List, [],
  ◌∷◌, ◌++◌, arith, leb, ◌==◌, Bool-cases, leb→le, length, take, drop, any, length-take-le, All,
  All-append,
}
use codex_feishu.Prelude.Text.{trim_right, is_empty}
use codex_feishu.Prelude.Text.Split.{split_on}
use codex_feishu.Feishu.Content.{
  Bytes, replace_crlf, Parts, flush, cut_line, candidate, add_line, add_lines, or_whole, split_text,
}

abbrev pub Fits : ℕ → Bytes → Type 0
Fits limit part = length part ≤ limit

-- A line of which something is left once the spaces at its end are dropped.
abbrev pub shows : Bytes → Bool
shows line = not (is_empty (trim_right (λ c. c == 32) line))

abbrev is_empty_list : List Bytes → Bool
is_empty_list [] = true
is_empty_list (p ∷ ps) = false

-- The parts and what is gathered fit, and something that showed is there.
record IsBounded (limit : ℕ) (seen : Bool) (s : Parts) : Type 0 where
  parts : All (Fits limit) s.out
  gathered : length s.current ≤ limit
  kept : (seen && is_empty_list s.out && is_empty s.current) ≡ false

length-take : (n : ℕ) (xs : Bytes) → n ≤ length xs → length (take n xs) ≡ n
length-take zero xs h = refl
length-take (suc n) [] h = absurd (omega arith)
length-take (suc n) (x ∷ xs) h = omega (arith, length-take n xs)

length-drop : (n : ℕ) (xs : Bytes) → length (drop n xs) ≡ length xs - n
length-drop zero xs = omega arith
length-drop (suc n) [] = omega arith
length-drop (suc n) (x ∷ xs) = omega (arith, length-drop n xs)

empty-append :
    (xs ys : List Bytes) → is_empty_list (xs ++ ys) ≡ (is_empty_list xs && is_empty_list ys)
empty-append [] ys = refl
empty-append (x ∷ xs) ys = refl

module _ (trim : Bytes → Bytes) (shorter : (t : Bytes) → length (trim t) ≤ length t) (limit : ℕ)
    (pos : 0 < limit) where
  cut_line-parts : (fuel : ℕ) (line : Bytes) → All (Fits limit) (cut_line trim limit fuel line).0
  unfolding cut_line
  cut_line-parts zero line = tt
  cut_line-parts (suc fuel) line = elim (Bool-cases (leb (length line) limit)) [
    | inl e ↦ rw e tt
    | inr e ↦ rw e (
      omega (arith, shorter (take limit line), length-take-le limit line),
      cut_line-parts fuel (drop limit line),
    )
  ]

  cut_line-rest :
      (fuel : ℕ) (line : Bytes)
      → length line ≤ fuel
      → length (cut_line trim limit fuel line).1 ≤ limit
  unfolding cut_line
  cut_line-rest zero line h = omega (arith, h)
  cut_line-rest (suc fuel) line h =
      ground (arith, cut_line-rest fuel (drop limit line), length-drop limit line)

  -- A line that does not fit leaves something.
  cut_line-kept :
      (line : Bytes)
      → leb (length line) limit ≡ false
      → is_empty_list (cut_line trim limit (length line) line).0 ≡ false
  unfolding cut_line
  cut_line-kept [] h = absurd (ground arith)
  cut_line-kept (c ∷ cs) h = ground arith

  flush-out :
      (s : Parts)
      → length s.current ≤ limit
      → All (Fits limit) s.out
      → All (Fits limit) (flush trim s).out
  unfolding flush
  flush-out s h k = elim (Bool-cases (is_empty s.current)) [
    | inl e ↦ rw e k
    | inr e ↦ rw e (
        All-append (Fits limit) s.out (trim s.current ∷ []) k
          (omega (arith, shorter s.current, h), tt))
  ]

  flush-kept :
      (s : Parts)
      → (is_empty_list s.out && is_empty s.current) ≡ false
      → is_empty_list (flush trim s).out ≡ false
  unfolding flush
  flush-kept s h = ground (arith, empty-append s.out (trim s.current ∷ []))

  add_line-IsBounded :
      (given : Bytes) (seen : Bool) (s : Parts)
      → IsBounded limit seen s
      → IsBounded limit (seen || shows given) (add_line trim limit given s)
  unfolding add_line
  add_line-IsBounded given seen s b =
      let line = trim_right (λ c. c == 32) given in
      elim (Bool-cases (leb (length (candidate s.current line)) limit)) [
        | inl e ↦ rw e (record {
          parts = b.parts;
          gathered = leb→le (length (candidate s.current line)) limit e;
          kept = candidate_kept s.current line s.out seen b.kept;
        })
        | inr e ↦ rw e (record {
          parts =
              All-append (Fits limit) (flush trim s).out _ (flush-out s b.gathered b.parts)
                (cut_line-parts (length line) line);
          gathered = cut_line-rest (length line) line (omega arith);
          kept = ground (
            arith,
            empty-append (flush trim s).out (cut_line trim limit (length line) line).0,
            cut_line-kept line,
            flush-kept s,
          );
        })
      ]
    where
      candidate_kept :
          (current line : Bytes) (out : List Bytes) (seen : Bool)
          → (seen && is_empty_list out && is_empty current) ≡ false
          → ((seen || not (is_empty line))
              && is_empty_list out
              && is_empty (candidate current line))
            ≡ false
      candidate_kept [] line out seen h = ground arith
      candidate_kept (c ∷ cs) line out seen h = ground arith

  add_lines-IsBounded :
      (lines : List Bytes) (seen : Bool) (s : Parts)
      → IsBounded limit seen s
      → IsBounded limit (seen || any shows lines) (add_lines trim limit lines s)
  unfolding add_lines
  add_lines-IsBounded [] seen s b = record {
    parts = b.parts;
    gathered = b.gathered;
    kept = ground (arith, b.kept);
  }
  add_lines-IsBounded (line ∷ lines) seen s b =
      let next =
        add_lines-IsBounded lines (seen || shows line) _ (add_line-IsBounded line seen s b) in
      record { parts = next.parts; gathered = next.gathered; kept = ground (arith, next.kept) }

  or_whole-Fits :
      (text : Bytes) (parts : List Bytes)
      → is_empty_list parts ≡ false
      → All (Fits limit) parts
      → All (Fits limit) (or_whole text parts)
  or_whole-Fits text [] e h = absurd (ground arith)
  or_whole-Fits text (p ∷ ps) e h = h

  -- Every part of a text that is cut is of `limit` bytes at most, if the limit is positive and a
  -- line of the text is not only spaces; `TrimSpace` is only asked not to lengthen a part.
  pub split_text-Fits :
      (given : Bytes)
      → any shows (split_on 10 (replace_crlf given)) ≡ true
      → All (Fits limit) (split_text trim given limit)
  unfolding split_text
  split_text-Fits given h =
      let text = replace_crlf given in
      let start : Parts = record { out = []; current = [] } in
      let b =
        add_lines-IsBounded (split_on 10 text) false start
          (record { parts = tt; gathered = omega arith; kept = refl }) in
      let s = add_lines trim limit (split_on 10 text) start in
      elim (Bool-cases (limit == 0)) [
        | inl e ↦ absurd (ground arith)
        | inr e ↦ rw e (elim (Bool-cases (leb (length text) limit)) [
          | inl f ↦ rw f (leb→le (length text) limit f, tt)
          | inr f ↦ rw f (
              or_whole-Fits text (flush trim s).out (flush-kept s (ground (arith, b.kept, h)))
                (flush-out s b.gathered b.parts))
        ])
      ]
