-- ===== src/Stream/Until.antt =====
-- IStream::readUntil of io/IStream.cc.
use crouton.Common.{
  ℕ, zero, suc, ◌+◌, ◌-◌, ◌^◌, ◌≤◌, ◌<◌, min, none, some, List, [], ◌∷◌, ◌++◌, length, take, drop,
  length-take, length-drop, length-append, append_assoc, ◌≡◌, refl, sym, ap, ◌∙◌, inl, inr, arith,
}
use crouton.Common.Result.{Result, ok, err, unfinished}
use crouton.Strings.{find}
use crouton.Stream.{Stream, IsStream, found, more, round, until_loop, read_until}
use crouton.Stream.Find.{le_cases, find-beyond, find-held, find-inside}
use crouton.Stream.Rounds.{
  split_in_three, content-read, seen, seen_first, length-seen, round_more, round_split-none,
  round_split-some, IsFound, left_over, IsFound-new, take_within,
}

module _ {S : Type 0} (stream : Stream S) (content : S → List ℕ)
    (laws : IsStream stream content) where
  abbrev view : ℕ → List ℕ → S → List ℕ
  view = seen stream content laws

  round-IsFound :
      (end text : List ℕ) (max_len p : ℕ) (s : S)
      → 1 ≤ length end
      → find end (text ++ content s) ≡ some p
      → length text < p + length end
      → p + length end ≤ length text + length (view max_len text s)
      → p + length end ≤ max_len
      → max_len < 2 ^ 64
      → IsFound stream content laws
          (round stream end max_len text s)
          (text ++ content s)
          (p + length end)
  unfolding round
  round-IsFound end [] max_len p s some_left e new held fits small =
      IsFound-new stream content laws end [] max_len p s some_left e (omega arith) held fits
  round-IsFound end (x ∷ xs) max_len p s some_left e new held fits small =
      let text = x ∷ xs in
      let peek = view max_len text s in
      let later = drop (length peek) (content s) in
      let n = min (length end - 1) (length peek) in
      let joined = text ++ take n peek in
      let k : ℕ = p + length end in
      let whole : joined ++ (drop n peek ++ later) ≡ text ++ content s =
        sym (split_in_three n text peek later)
        ∙ ap (λ (l : List ℕ). text ++ l) (sym (seen_first stream content laws max_len text s)) in
      let size : length joined ≡ length text + n =
        omega (arith, length-append text (take n peek), length-take n peek) in
      elim (le_cases k (length joined)) [
        | inl inside ↦
            let place =
              find-held end joined (drop n peek ++ later) p some_left (ap (find end) whole ∙ e)
                inside in
            (
              (stream.read_no_copy (k - length text) s).1,
              round_split-some stream content laws end text peek max_len p s place new fits small
                  ∙ ap (λ (l : List ℕ). found l (stream.read_no_copy (k - length text) s).1)
                      (sym (take_within stream content laws k joined (drop n peek ++ later) inside)
                        ∙ ap (take k) whole),
              left_over stream content laws k text s (omega (arith, new))
                  (omega (arith, held, length-seen stream content laws max_len text s)),
            )
        | inr outside ↦
            let old =
              find-beyond end joined (drop n peek ++ later) (some p) some_left
                (ap (find end) whole ∙ e) outside in
            let (s', ends, left) =
              IsFound-new stream content laws end text max_len p s some_left e
                (omega (arith, outside, size, held)) held fits in
            (s', round_split-none stream content laws end text peek max_len s old ∙ ends, left)
      ]

  until_loop-found :
      (k : ℕ) (end text : List ℕ) (max_len : ℕ) (s s' : S) (result : List ℕ)
      → length text < max_len
      → round stream end max_len text s ≡ found result s'
      → until_loop stream (suc k) end max_len text s ≡ ok (result, s')
  unfolding until_loop
  until_loop-found k end text max_len s s' result room e = ground arith

  until_loop-more :
      (k : ℕ) (end text text' : List ℕ) (max_len : ℕ) (s s' : S)
      → length text < max_len
      → round stream end max_len text s ≡ more text' s'
      → until_loop stream (suc k) end max_len text s ≡ until_loop stream k end max_len text' s'
  unfolding until_loop
  until_loop-more k end text text' max_len s s' room e = ground arith

  -- What a round that goes on has read is not lost.
  same_bytes :
      (max_len : ℕ) (text : List ℕ) (s : S)
      → (text ++ view max_len text s)
          ++ content (stream.read_no_copy (length (view max_len text s)) s).1
        ≡ text ++ content s
  same_bytes max_len text s =
      let peek = view max_len text s in
      append_assoc text peek _
      ∙ ap (λ (l : List ℕ). text ++ l)
          (ap (λ (l : List ℕ). peek ++ l)
              (content-read stream content laws (length peek) s
                (length-seen stream content laws max_len text s))
            ∙ sym (seen_first stream content laws max_len text s))

  -- The data and the stream at the end are the bytes up to this place and those after it.
  abbrev IsCut : Result (List ℕ × S) → List ℕ → ℕ → Type 0
  IsCut r all k = (s' : S) × (r ≡ ok (take k all, s')) × (content s' ≡ drop k all)

  until_loop_finds :
      (fuel : ℕ) (end text all : List ℕ) (max_len p : ℕ) (s : S)
      → 1 ≤ length end
      → text ++ content s ≡ all
      → find end all ≡ some p
      → length text < p + length end
      → p + length end ≤ max_len
      → max_len < 2 ^ 64
      → length (content s) < fuel
      → IsCut (until_loop stream fuel end max_len text s) all (p + length end)
  until_loop_finds zero end text all max_len p s some_left whole e new fits small enough =
      absurd (omega arith)
  until_loop_finds (suc k) end text all max_len p s some_left whole e new fits small enough =
      let peek = view max_len text s in
      let room : length text < max_len = omega (arith, new, fits) in
      let here : find end (text ++ content s) ≡ some p = ap (find end) whole ∙ e in
      elim (le_cases (p + length end) (length text + length peek)) [
        | inl held ↦
            let (s', ends, left) =
              round-IsFound end text max_len p s some_left here new held fits small in
            (
              s',
              until_loop-found k end text max_len s s' _ room ends
                  ∙ ap (λ (l : List ℕ). ok (take (p + length end) l, s')) whole,
              left ∙ ap (drop (p + length end)) whole,
            )
        | inr beyond ↦
            let next = (stream.read_no_copy (length peek) s).1 in
            let inside = find-inside end (text ++ content s) p some_left here in
            let some_content : 1 ≤ length (content s) =
              omega (arith, inside, new, length-append text (content s)) in
            let some_peek : 1 ≤ length peek = omega (
              arith,
              laws.peek_some s some_content,
              length-take (max_len - length text) (stream.peek_no_copy s),
              room,
            ) in
            let left =
              content-read stream content laws (length peek) s
                (length-seen stream content laws max_len text s) in
            let shorter : length (content next) < k = omega (
              arith,
              ap length left,
              length-drop (length peek) (content s),
              some_peek,
              some_content,
              enough,
            ) in
            let (s', ends, rest) =
              until_loop_finds k end (text ++ peek) all max_len p next some_left
                (same_bytes max_len text s ∙ whole) e
                (omega (arith, beyond, length-append text peek)) fits small shorter in
            (
              s',
              until_loop-more k end text (text ++ peek) max_len s next room (
                    round_more stream content laws end text max_len s (some p) some_left here
                      beyond)
                  ∙ ends,
              rest,
            )
      ]

  read_until_start :
      (fuel max_len : ℕ) (end : List ℕ) (s : S)
      → 1 ≤ length end
      → length end ≤ max_len
      → read_until stream fuel end max_len s ≡ until_loop stream fuel end max_len [] s
  unfolding read_until
  read_until_start fuel max_len [] s some_left fits = absurd (omega arith)
  read_until_start fuel max_len (x ∷ xs) s some_left fits = ground arith

  -- Where the string that is not empty is in what the stream will give, and its first occurrence
  -- ends within `maxLen` bytes, readUntil ends after at most one round for each byte and one more,
  -- whatever pieces the stream gives: its result are the bytes up to the end of this occurrence, and
  -- the bytes after it are left in the stream.
  pub read_until_lem :
      (fuel max_len p : ℕ) (end : List ℕ) (s : S)
      → 1 ≤ length end
      → find end (content s) ≡ some p
      → p + length end ≤ max_len
      → max_len < 2 ^ 64
      → length (content s) < fuel
      → (s' : S) × (read_until stream fuel end max_len s
          ≡ ok (take (p + length end) (content s), s'))
        × (content s' ≡ drop (p + length end) (content s))
  read_until_lem fuel max_len p end s some_left e fits small enough =
      let (s', ends, left) =
        until_loop_finds fuel end [] (content s) max_len p s some_left refl e (omega arith) fits
          small enough in
      (s', read_until_start fuel max_len end s some_left (omega arith) ∙ ends, left)

  until_loop_never :
      (fuel : ℕ) (end text all : List ℕ) (max_len : ℕ) (s : S)
      → 1 ≤ length end
      → text ++ content s ≡ all
      → find end all ≡ none
      → length all < max_len
      → until_loop stream fuel end max_len text s ≡ err unfinished
  unfolding until_loop
  until_loop_never zero end text all max_len s some_left whole e room = refl
  until_loop_never (suc k) end text all max_len s some_left whole e room =
      let peek = view max_len text s in
      let next = (stream.read_no_copy (length peek) s).1 in
      until_loop-more k end text (text ++ peek) max_len s next
        (omega (arith, room, ap length whole, length-append text (content s)))
        (round_more stream content laws end text max_len s none some_left (ap (find end) whole ∙ e)
          tt)
      ∙ until_loop_never k end (text ++ peek) all max_len next some_left
          (same_bytes max_len text s ∙ whole) e room

  -- Where the string is not in what the stream will give, and that is less than `maxLen` bytes,
  -- readUntil does not end, however many rounds it makes: it goes on at the end of the file.
  pub read_until_never :
      (fuel max_len : ℕ) (end : List ℕ) (s : S)
      → 1 ≤ length end
      → length end ≤ max_len
      → find end (content s) ≡ none
      → length (content s) < max_len
      → read_until stream fuel end max_len s ≡ err unfinished
  read_until_never fuel max_len end s some_left fits e room =
      read_until_start fuel max_len end s some_left fits
      ∙ until_loop_never fuel end [] (content s) max_len s some_left refl e room
