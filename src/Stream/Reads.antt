-- ===== src/Stream/Reads.antt =====
-- IStream::read, readExactly and readString of io/IStream.cc.
use crouton.Common.{
  ℕ, zero, suc, ◌+◌, ◌-◌, ◌≤◌, ◌<◌, min, ltb, if◌then◌else◌, List, [], ◌∷◌, ◌++◌, length, take,
  drop, List-cases, take-append, drop-append, take_all, drop_all, append-nil, take-append-drop,
  length-take, length-drop, length-append, append_assoc, ◌≡◌, refl, sym, ap, ◌∙◌, ◌⊎◌, inl, inr,
  arith,
}
use crouton.Common.Result.{Result, ok, err, unexpected_eof}
use crouton.Stream.Find.{le_cases}
use crouton.Stream.{
  Stream, IsStream, read_loop, read, read_exactly, grow_size, read_string_loop, read_string,
}

cut_here :
    (n : ℕ) (xs ys : List ℕ) → length xs ≡ n → (take n (xs ++ ys) ≡ xs) × (drop n (xs ++ ys) ≡ ys)
cut_here n xs ys size = (
  ap (λ (k : ℕ). take k (xs ++ ys)) (sym size) ∙ take-append xs ys,
  ap (λ (k : ℕ). drop k (xs ++ ys)) (sym size) ∙ drop-append xs ys,
)

cut_after :
    (n : ℕ) (xs ys : List ℕ)
    → ys ≡ []
    → length xs ≤ n
    → (take n (xs ++ ys) ≡ xs) × (drop n (xs ++ ys) ≡ [])
cut_after n xs ys nothing past =
    let all : xs ++ ys ≡ xs = ap (λ (l : List ℕ). xs ++ l) nothing ∙ append-nil xs in
    (ap (take n) all ∙ take_all n xs past, ap (drop n) all ∙ drop_all n xs past)

cut_all :
    (n : ℕ) (xs ys : List ℕ)
    → length xs + length ys ≤ n
    → (take n (xs ++ ys) ≡ xs ++ ys) × (drop n (xs ++ ys) ≡ [])
cut_all n xs ys inside =
    let size : length (xs ++ ys) ≤ n = omega (arith, length-append xs ys, inside) in
    (take_all n (xs ++ ys) size, drop_all n (xs ++ ys) size)

is_short : {A : Type 0} (a b : ℕ) (x y : A) → a < b → (if ltb a b then x else y) ≡ x
is_short a b x y h = ground arith

not_short : {A : Type 0} (a b : ℕ) (x y : A) → b ≤ a → (if ltb a b then x else y) ≡ y
not_short a b x y h = ground arith

module _ {S : Type 0} (stream : Stream S) (content : S → List ℕ)
    (laws : IsStream stream content) where
  -- The first bytes of all are the result, and the others are left.
  abbrev IsCut : Result (List ℕ × S) → List ℕ → ℕ → Type 0
  IsCut r all n = (s' : S) × (r ≡ ok (take n all, s')) × (content s' ≡ drop n all)

  read_loop-full :
      (k size : ℕ) (got : List ℕ) (s : S)
      → size ≤ length got
      → read_loop stream (suc k) got size s ≡ ok (got, s)
  unfolding read_loop
  read_loop-full k size got s full = ground arith

  read_loop-eof :
      (k size : ℕ) (got : List ℕ) (s : S)
      → length got < size
      → (stream.read_no_copy (size - length got) s).0 ≡ []
      → read_loop stream (suc k) got size s
        ≡ ok (got, (stream.read_no_copy (size - length got) s).1)
  unfolding read_loop
  read_loop-eof k size got s room nothing = ground arith

  read_loop-more :
      (k size : ℕ) (got : List ℕ) (s : S) (x : ℕ) (xs : List ℕ)
      → length got < size
      → (stream.read_no_copy (size - length got) s).0 ≡ x ∷ xs
      → read_loop stream (suc k) got size s
        ≡ read_loop stream k (got ++ x ∷ xs) size (stream.read_no_copy (size - length got) s).1
  unfolding read_loop
  read_loop-more k size got s x xs room e = ground arith

  -- Nothing is read only at the end.
  no_content : (n : ℕ) (s : S) → 1 ≤ n → (stream.read_no_copy n s).0 ≡ [] → content s ≡ []
  no_content n s asked nothing = elim (List-cases (content s)) [
    | inl none_left ↦ none_left
    | inr (x, xs, e) ↦
        absurd
          (omega (arith, laws.read_some n s asked (omega (arith, ap length e)), ap length nothing))
  ]

  read_loop_cuts :
      (k size : ℕ) (got all : List ℕ) (s : S)
      → got ++ content s ≡ all
      → length got ≤ size
      → size - length got < k
      → IsCut (read_loop stream k got size s) all size
  read_loop_cuts zero size got all s whole fits enough = absurd (omega arith)
  read_loop_cuts (suc k) size got all s whole fits enough =
      let n : ℕ = size - length got in
      let next = (stream.read_no_copy n s).1 in
      let order = laws.read_in_order n s in
      elim (le_cases size (length got)) [
        | inl full ↦
            let (front, back) = cut_here size got (content s) (omega (arith, full, fits)) in
            (
              s,
              read_loop-full k size got s full
                  ∙ ap (λ (l : List ℕ). ok (l, s)) (sym front ∙ ap (take size) whole),
              sym back ∙ ap (drop size) whole,
            )
        | inr room ↦ elim (List-cases (stream.read_no_copy n s).0) [
          | inl nothing ↦
              let (front, back) =
                cut_after size got (content s) (no_content n s (omega (arith, room)) nothing)
                  (omega (arith, room)) in
              (
                next,
                read_loop-eof k size got s room nothing
                    ∙ ap (λ (l : List ℕ). ok (l, next)) (sym front ∙ ap (take size) whole),
                ap (λ (l : List ℕ). l ++ content next) (sym nothing)
                    ∙ sym order
                    ∙ no_content n s (omega (arith, room)) nothing
                    ∙ sym back
                    ∙ ap (drop size) whole,
              )
          | inr (x, xs, e) ↦
              let bytes = ap length e in
              let (s', ends, left) =
                read_loop_cuts k size (got ++ x ∷ xs) all next
                  (append_assoc got (x ∷ xs) (content next)
                    ∙ ap (λ (l : List ℕ). got ++ l)
                        (ap (λ (l : List ℕ). l ++ content next) (sym e) ∙ sym order)
                    ∙ whole)
                  (omega (arith, laws.read_at_most n s, bytes, length-append got (x ∷ xs), room))
                  (omega (arith, length-append got (x ∷ xs), room, enough)) in
              (s', read_loop-more k size got s x xs room e ∙ ends, left)
        ]
      ]

  -- `read` ends, whatever pieces the stream gives: it reads the bytes that the buffer has room for,
  -- or all where there are fewer, and leaves the others.
  pub read_lem :
      (size : ℕ) (s : S)
      → (s' : S) × (read stream size s ≡ ok (take size (content s), s'))
        × (content s' ≡ drop size (content s))
  unfolding read
  read_lem size s = read_loop_cuts (suc size) size [] (content s) s refl (omega arith) (omega arith)

  read_string_loop-grown :
      (k max_len n : ℕ) (text bytes : List ℕ) (s s' : S)
      → length text < max_len
      → min grow_size (max_len - length text) ≡ n
      → read stream n s ≡ ok (bytes, s')
      → read_string_loop stream (suc k) max_len text s ≡ (
          if ltb (length bytes) n
          then ok (text ++ bytes, s')
          else read_string_loop stream k max_len (text ++ bytes) s')
  unfolding read_string_loop
  read_string_loop-grown k max_len n text bytes s s' room size e =
      let e' : read stream (min grow_size (max_len - length text)) s ≡ ok (bytes, s') =
        ap (λ (k : ℕ). read stream k s) size ∙ e in
      ground arith

  read_string_loop-full :
      (k max_len : ℕ) (text : List ℕ) (s : S)
      → max_len ≤ length text
      → read_string_loop stream (suc k) max_len text s ≡ ok (text, s)
  unfolding read_string_loop
  read_string_loop-full k max_len text s full = ground arith

  read_string_loop_cuts :
      (k max_len : ℕ) (text all : List ℕ) (s : S)
      → text ++ content s ≡ all
      → length text ≤ max_len
      → length (content s) < k
      → IsCut (read_string_loop stream k max_len text s) all max_len
  read_string_loop_cuts zero max_len text all s whole fits enough = absurd (omega arith)
  read_string_loop_cuts (suc k) max_len text all s whole fits enough =
      let n = min grow_size (max_len - length text) in
      let bytes = take n (content s) in
      let (s', got, left) = read_lem n s in
      let size : length bytes ≡ min n (length (content s)) = length-take n (content s) in
      elim (le_cases max_len (length text)) [
        | inl full ↦
            let (front, back) = cut_here max_len text (content s) (omega (arith, full, fits)) in
            (
              s,
              read_string_loop-full k max_len text s full
                  ∙ ap (λ (l : List ℕ). ok (l, s)) (sym front ∙ ap (take max_len) whole),
              sym back ∙ ap (drop max_len) whole,
            )
        | inr room ↦
            let step = read_string_loop-grown k max_len n text bytes s s' room refl got in
            elim (le_cases n (length bytes)) [
              | inl more ↦
                  let (s'', ends, rest) =
                    read_string_loop_cuts k max_len (text ++ bytes) all s'
                      (append_assoc text bytes (content s')
                        ∙ ap (λ (l : List ℕ). text ++ l)
                            (ap (λ (l : List ℕ). bytes ++ l) left ∙ take-append-drop n (content s))
                        ∙ whole)
                      (omega (arith, length-append text bytes, size))
                      (omega (
                        arith,
                        ap length left,
                        length-drop n (content s),
                        size,
                        more,
                        room,
                        enough,
                      )) in
                  (s'', step ∙ not_short (length bytes) n _ _ more ∙ ends, rest)
              | inr less ↦
                  let short : length (content s) ≤ n = omega (arith, size, less) in
                  let (front, back) =
                    cut_all max_len text (content s) (omega (arith, size, less)) in
                  (
                    s',
                    step
                        ∙ is_short (length bytes) n _ _ less
                        ∙ ap (λ (l : List ℕ). ok (l, s'))
                            (ap (λ (l : List ℕ). text ++ l) (take_all n (content s) short)
                              ∙ sym front
                              ∙ ap (take max_len) whole),
                    left ∙ drop_all n (content s) short ∙ sym back ∙ ap (drop max_len) whole,
                  )
            ]
      ]

  -- readString ends after at most one round for each byte and one more, whatever pieces the stream
  -- gives: its result are the first `maxLen` bytes, or all where there are fewer, and the others are
  -- left.
  pub read_string_lem :
      (fuel max_len : ℕ) (s : S)
      → length (content s) < fuel
      → (s' : S) × (read_string stream fuel max_len s ≡ ok (take max_len (content s), s'))
        × (content s' ≡ drop max_len (content s))
  unfolding read_string
  read_string_lem fuel max_len s enough =
      read_string_loop_cuts fuel max_len [] (content s) s refl (omega arith) enough

  -- readExactly either gives as many bytes as it is asked for, the next ones, or fails with
  -- UnexpectedEOF, where there are fewer.
  pub read_exactly_lem :
      (size : ℕ) (s : S)
      → ((size ≤ length (content s)) × IsCut (read_exactly stream size s) (content s) size)
        ⊎ ((length (content s) < size) × (read_exactly stream size s ≡ err unexpected_eof))
  unfolding read_exactly
  read_exactly_lem size s =
      let (s', got, left) = read_lem size s in
      let taken = length-take size (content s) in
      elim (le_cases size (length (content s))) [
        | inl enough ↦ inl (enough, (s', ground (arith, got), left))
        | inr short ↦ inr (short, ground (arith, got))
      ]
