-- ===== src/Stream/Rounds.antt =====
-- One round of the loop of IStream::readUntil, in io/IStream.cc.
use crouton.Common.{
  ℕ, zero, suc, ◌+◌, ◌-◌, ◌%◌, ◌^◌, ◌≤◌, ◌<◌, min, Option, none, some, List, [], ◌∷◌, ◌++◌, length,
  take, drop, take_append, drop-append, take-append-drop, length-take, length-append, take_all,
  drop_all, drop_append, append_assoc, append-nil, ◌≡◌, refl, sym, ap, ◌∙◌, inl, inr, arith,
}
use crouton.Strings.{find}
use crouton.Stream.{Stream, IsStream, Round, found, more, round_new, round_split, round}
use crouton.Stream.Find.{
  le_cases, IsBeyond, find-short, find-beyond, find-held, find-rest, find-rest-none,
  find_from-missing, find_from-there,
}

-- Nothing of the new data, which may hold the end of a match, holds a whole one.
find-new :
    (end text peek later : List ℕ) (r : Option ℕ)
    → 1 ≤ length end
    → find end (text ++ (peek ++ later)) ≡ r
    → IsBeyond (length end) r (length text + length peek)
    → find end peek ≡ none
find-new end text peek later none some_left e beyond =
    find-beyond end peek later none some_left (find-rest-none end text (peek ++ later) e) tt
find-new end text peek later (some p) some_left e beyond = elim (le_cases (length text) p) [
  | inl after ↦
      find-beyond end peek later (some (p - length text)) some_left
        (find-rest end text (peek ++ later) p e after) (omega (arith, beyond, after))
  | inr before ↦ find-short end peek (omega (arith, beyond, before))
]

pub split_in_three :
    (n : ℕ) (text peek later : List ℕ)
    → text ++ (peek ++ later) ≡ (text ++ take n peek) ++ (drop n peek ++ later)
split_in_three n text peek later =
    ap (λ (l : List ℕ). text ++ l)
      (ap (λ (l : List ℕ). l ++ later) (sym (take-append-drop n peek))
        ∙ append_assoc (take n peek) (drop n peek) later)
    ∙ sym (append_assoc text (take n peek) (drop n peek ++ later))

-- A beginning of a list is cut shorter.
take_first :
    (k : ℕ) (xs all : List ℕ)
    → take (length xs) all ≡ xs
    → all ≡ take k xs ++ drop (length (take k xs)) all
take_first zero xs all h = refl
take_first (suc k) [] all h = refl
take_first (suc k) (x ∷ xs) [] h = ground arith
take_first (suc k) (x ∷ xs) (y ∷ all) h = ground (arith, take_first k xs all)

IsBeyond-less : (size n m : ℕ) (r : Option ℕ) → n ≤ m → IsBeyond size r m → IsBeyond size r n
IsBeyond-less size n m none less beyond = tt
IsBeyond-less size n m (some p) less beyond = omega (arith, beyond, less)

module _ {S : Type 0} (stream : Stream S) (content : S → List ℕ)
    (laws : IsStream stream content) where
  -- What is peeked is read at once.
  pub content-read :
      (n : ℕ) (s : S)
      → n ≤ length (stream.peek_no_copy s)
      → content (stream.read_no_copy n s).1 ≡ drop n (content s)
  content-read n s peeked =
      let got = (stream.read_no_copy n s).0 in
      let after = content (stream.read_no_copy n s).1 in
      let size : length got ≡ n =
        omega (arith, laws.read_at_most n s, laws.read_peeked n s peeked) in
      sym (
        rw (laws.read_in_order n s)
          (ap (λ (k : ℕ). drop k (got ++ after)) (sym size) ∙ drop-append got after))

  -- The data at which `round` looks, and what comes after it.
  abbrev pub seen : ℕ → List ℕ → S → List ℕ
  seen max_len text s = take (max_len - length text) (stream.peek_no_copy s)

  pub seen_first :
      (max_len : ℕ) (text : List ℕ) (s : S)
      → content s ≡ seen max_len text s ++ drop (length (seen max_len text s)) (content s)
  seen_first max_len text s =
      take_first (max_len - length text) (stream.peek_no_copy s) (content s) (laws.peek_first s)

  round_new-none :
      (end text peek : List ℕ) (max_len : ℕ) (s : S)
      → find end peek ≡ none
      → length peek ≤ max_len - length text
      → round_new stream end max_len text peek s
        ≡ more (text ++ peek) (stream.read_no_copy (length peek) s).1
  unfolding round_new
  round_new-none end text peek max_len s missing fits =
      let size : min (length peek) (max_len - length text) ≡ length peek = omega (arith, fits) in
      let whole : take (length peek) peek ≡ peek = take_all (length peek) peek (omega arith) in
      ground arith

  pub round_split-none :
      (end text peek : List ℕ) (max_len : ℕ) (s : S)
      → find end (text ++ take (min (length end - 1) (length peek)) peek) ≡ none
      → round_split stream end max_len text peek s ≡ round_new stream end max_len text peek s
  unfolding round_split
  round_split-none end text peek max_len s missing =
      let both = text ++ take (min (length end - 1) (length peek)) peek in
      let nowhere =
        find_from-missing end both (length text - min (length end) (length text)) missing in
      ground arith

  pub round-empty :
      (end text : List ℕ) (max_len : ℕ) (s : S)
      → round_split stream end max_len text (seen max_len text s) s
        ≡ round_new stream end max_len text (seen max_len text s) s
      → round stream end max_len text s ≡ round_new stream end max_len text (seen max_len text s) s
  unfolding round
  round-empty end [] max_len s same = refl
  round-empty end (x ∷ text) max_len s same = same

  -- A round that does not come to the end of a match.
  pub round_more :
      (end text : List ℕ) (max_len : ℕ) (s : S) (r : Option ℕ)
      → 1 ≤ length end
      → find end (text ++ content s) ≡ r
      → IsBeyond (length end) r (length text + length (seen max_len text s))
      → round stream end max_len text s
        ≡ more
            (text ++ seen max_len text s)
            (stream.read_no_copy (length (seen max_len text s)) s).1
  round_more end text max_len s r some_left e beyond =
      let peek = seen max_len text s in
      let later = drop (length peek) (content s) in
      let n = min (length end - 1) (length peek) in
      let whole : find end (text ++ (peek ++ later)) ≡ r =
        ap (λ (l : List ℕ). find end (text ++ l)) (sym (seen_first max_len text s)) ∙ e in
      let joined = text ++ take n peek in
      let size : length joined ≤ length text + length peek =
        omega (arith, length-append text (take n peek), length-take n peek) in
      let old =
        find-beyond end joined (drop n peek ++ later) r some_left
          (ap (find end) (sym (split_in_three n text peek later)) ∙ whole)
          (IsBeyond-less (length end) (length joined) (length text + length peek) r size beyond) in
      round-empty end text max_len s (round_split-none end text peek max_len s old)
      ∙ round_new-none end text peek max_len s
          (find-new end text peek later r some_left whole beyond)
          (omega (arith, length-take (max_len - length text) (stream.peek_no_copy s)))

  pub take_within : (k : ℕ) (xs ys : List ℕ) → k ≤ length xs → take k (xs ++ ys) ≡ take k xs
  take_within k xs ys inside =
      let nothing : k - length xs ≡ 0 = omega (arith, inside) in
      take_append k xs ys ∙ rw nothing (append-nil (take k xs))

  take_past :
      (k : ℕ) (xs ys : List ℕ) → length xs ≤ k → take k (xs ++ ys) ≡ xs ++ take (k - length xs) ys
  take_past k xs ys past =
      take_append k xs ys ∙ ap (λ (l : List ℕ). l ++ take (k - length xs) ys) (take_all k xs past)

  drop_past : (k : ℕ) (xs ys : List ℕ) → length xs ≤ k → drop k (xs ++ ys) ≡ drop (k - length xs) ys
  drop_past k xs ys past =
      drop_append k xs ys ∙ ap (λ (l : List ℕ). l ++ drop (k - length xs) ys) (drop_all k xs past)

  round_new-some :
      (end text peek : List ℕ) (max_len q : ℕ) (s : S)
      → find end peek ≡ some q
      → q + length end ≤ max_len - length text
      → round_new stream end max_len text peek s
        ≡ found (text ++ take (q + length end) peek) (stream.read_no_copy (q + length end) s).1
  unfolding round_new
  round_new-some end text peek max_len q s there fits =
      let size : min (q + length end) (max_len - length text) ≡ q + length end =
        omega (arith, fits) in
      ground arith

  pub round_split-some :
      (end text peek : List ℕ) (max_len p : ℕ) (s : S)
      → find end (text ++ take (min (length end - 1) (length peek)) peek) ≡ some p
      → length text < p + length end
      → p + length end ≤ max_len
      → max_len < 2 ^ 64
      → round_split stream end max_len text peek s
        ≡ found
            (take (p + length end) (text ++ take (min (length end - 1) (length peek)) peek))
            (stream.read_no_copy (p + length end - length text) s).1
  unfolding round_split
  round_split-some end text peek max_len p s there ends fits small =
      let both = text ++ take (min (length end - 1) (length peek)) peek in
      let start : ℕ = length text - min (length end) (length text) in
      let place =
        find_from-there end both start p there (omega (arith, ends))
          (omega (arith, length-append text (take (min (length end - 1) (length peek)) peek))) in
      let size : min (p + length end) max_len ≡ p + length end = omega (arith, fits) in
      let rest : (p + length end + (2 ^ 64 - length text)) % 2 ^ 64 ≡ p + length end - length text =
        omega (arith, ends, fits, small) in
      ground arith

  -- The round ends with the first bytes of all those that there are, and the others are left.
  abbrev pub IsFound : Round S → List ℕ → ℕ → Type 0
  IsFound r all k = (s' : S) × (r ≡ found (take k all) s') × (content s' ≡ drop k all)

  pub length-seen :
      (max_len : ℕ) (text : List ℕ) (s : S)
      → length (seen max_len text s) ≤ length (stream.peek_no_copy s)
  length-seen max_len text s =
      omega (arith, length-take (max_len - length text) (stream.peek_no_copy s))

  pub left_over :
      (k : ℕ) (text : List ℕ) (s : S)
      → length text ≤ k
      → k - length text ≤ length (stream.peek_no_copy s)
      → content (stream.read_no_copy (k - length text) s).1 ≡ drop k (text ++ content s)
  left_over k text s past peeked =
      content-read (k - length text) s peeked ∙ sym (drop_past k text (content s) past)

  pub IsFound-new :
      (end text : List ℕ) (max_len p : ℕ) (s : S)
      → 1 ≤ length end
      → find end (text ++ content s) ≡ some p
      → length text ≤ p
      → p + length end ≤ length text + length (seen max_len text s)
      → p + length end ≤ max_len
      → IsFound
          (round_new stream end max_len text (seen max_len text s) s)
          (text ++ content s)
          (p + length end)
  IsFound-new end text max_len p s some_left e after held fits =
      let peek = seen max_len text s in
      let later = drop (length peek) (content s) in
      let first = seen_first max_len text s in
      let k : ℕ = p + length end in
      let place : find end peek ≡ some (p - length text) =
        find-held end peek later (p - length text) some_left
          (ap (find end) (sym first) ∙ find-rest end text (content s) p e after)
          (omega (arith, after, held)) in
      let size : p - length text + length end ≡ k - length text = omega (arith, after) in
      let same : text ++ take (k - length text) peek ≡ take k (text ++ content s) = sym (
        take_past k text (content s) (omega (arith, after))
        ∙ ap (λ (l : List ℕ). text ++ l)
            (ap (take (k - length text)) first
              ∙ take_within (k - length text) peek later (omega (arith, held)))) in
      (
        (stream.read_no_copy (k - length text) s).1,
        round_new-some end text peek max_len (p - length text) s place (omega (arith, after, fits))
            ∙ rw size
                (ap (λ (l : List ℕ). found l (stream.read_no_copy (k - length text) s).1) same),
        left_over k text s (omega (arith, after)) (omega (arith, held, length-seen max_len text s)),
      )
