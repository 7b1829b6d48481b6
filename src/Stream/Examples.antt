-- ===== src/Stream/Examples.antt =====
-- A stream that gives three bytes at a time, so that the end of a line is split between two pieces.
use crouton.Common.{
  ℕ, ◌≤◌, ◌<◌, min, List, [], ◌∷◌, ◌≡◌, refl, sym, arith, ◌⊎◌, length, take, drop, take-append-drop,
  length-take,
}
use crouton.Common.Result.{ok, err, unexpected_eof}
use crouton.Strings.{starts_with, find, find_from}
use crouton.Stream.{
  Stream, IsStream, read_exactly, read_until, until_loop, round, round_new, round_split,
}
use crouton.Stream.Reads.{read_exactly_lem}
use crouton.Stream.Until.{read_until_lem}

abbrev in_threes : Stream (List ℕ)
in_threes = record {
  read_no_copy = λ n s. (take (min n 3) s, drop (min n 3) s);
  peek_no_copy = λ s. take 3 s;
}

abbrev content : List ℕ → List ℕ
content s = s

peeks : (s : List ℕ) → take (length (take 3 s)) s ≡ take 3 s
peeks [] = refl
peeks (a ∷ []) = refl
peeks (a ∷ (b ∷ [])) = refl
peeks (a ∷ (b ∷ (c ∷ s))) = refl

in_threes-IsStream : IsStream in_threes content
in_threes-IsStream = record {
  read_in_order = λ n s. sym (take-append-drop (min n 3) s);
  read_at_most = λ n s. omega (arith, length-take (min n 3) s);
  read_some = λ n s asked left. omega (arith, length-take (min n 3) s);
  peek_first = peeks;
  peek_some = λ s left. omega (arith, length-take 3 s);
  read_peeked = λ n s peeked. omega (arith, length-take (min n 3) s, length-take 3 s);
}

-- "ab", the two bytes that end a line, and "c".
abbrev text : List ℕ
text = 97 ∷ 98 ∷ 13 ∷ 10 ∷ 99 ∷ []

read_until_lem_example :
    (s' : List ℕ) × (read_until in_threes 6 (13 ∷ 10 ∷ []) 100 text
      ≡ ok (97 ∷ 98 ∷ 13 ∷ 10 ∷ [], s'))
    × (s' ≡ 99 ∷ [])
unfolding find starts_with
read_until_lem_example =
    read_until_lem in_threes content in_threes-IsStream 6 100 2 (13 ∷ 10 ∷ []) text (omega arith)
      refl (omega arith) (omega arith) (omega arith)

read_exactly_lem_example :
    ((7 ≤ 5) × ((s' : List ℕ) × (read_exactly in_threes 7 text ≡ ok (text, s')) × (s' ≡ [])))
    ⊎ ((5 < 7) × (read_exactly in_threes 7 text ≡ err unexpected_eof))
read_exactly_lem_example = read_exactly_lem in_threes content in_threes-IsStream 7 text

-- With four bytes at most, the string that ends the line is still found.
found_split : read_until in_threes 6 (13 ∷ 10 ∷ []) 4 text ≡ ok (97 ∷ 98 ∷ 13 ∷ 10 ∷ [], 99 ∷ [])
unfolding read_until until_loop round round_new round_split find find_from starts_with
found_split = refl
