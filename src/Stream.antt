-- ===== src/Stream.antt =====
-- io/IStream.hh and IStream.cc: reading from a stream. `readNoCopy` and `peekNoCopy` are abstract
-- methods of the source, so a stream is an interface over its state, and its laws are what IStream.hh
-- documents. What a coroutine awaits is there when it goes on.
pub mod Find
pub mod Rounds
pub mod Until
pub mod Reads
mod Examples
use crouton.Common.{
  ℕ, zero, suc, ◌+◌, ◌-◌, ◌%◌, ◌^◌, ◌≤◌, min, leb, ltb, if◌then◌else◌, Bool, true, false, not,
  Option, none, some, List, [], ◌∷◌, ◌++◌, length, take, drop, is_empty, ◌≡◌,
}
use crouton.Common.Result.{
  Result, ok, err, ◌>>=◌, ◌>>◌, guard, assertion, unexpected_eof, unfinished,
}
use crouton.Strings.{find, find_from}

pub record Stream (S : Type 0) : Type 0 where
  pub read_no_copy : ℕ → S → List ℕ × S
  pub peek_no_copy : S → List ℕ

-- What IStream.hh says of the two methods, where `content` are the bytes up to the end of the file:
-- they are read in order, at most as many as are asked for and at least one except at the end;
-- those that peekNoCopy returns stay, one at least except at the end, and can be read at once.
pub record IsStream {S : Type 0} (stream : Stream S) (content : S → List ℕ) : Type 0 where
  pub read_in_order :
      (n : ℕ) (s : S)
      → content s ≡ (stream.read_no_copy n s).0 ++ content (stream.read_no_copy n s).1
  pub read_at_most : (n : ℕ) (s : S) → length (stream.read_no_copy n s).0 ≤ n
  pub read_some :
      (n : ℕ) (s : S) → 1 ≤ n → 1 ≤ length (content s) → 1 ≤ length (stream.read_no_copy n s).0
  pub peek_first :
      (s : S) → take (length (stream.peek_no_copy s)) (content s) ≡ stream.peek_no_copy s
  pub peek_some : (s : S) → 1 ≤ length (content s) → 1 ≤ length (stream.peek_no_copy s)
  pub read_peeked :
      (n : ℕ) (s : S) → n ≤ length (stream.peek_no_copy s) → n ≤ length (stream.read_no_copy n s).0

abbrev grow_size : ℕ
grow_size = 32768

-- A round of the loop of `readUntil`: its result, or what it goes on with.
pub data Round (S : Type 0) : Type 0 where
  found : List ℕ → S → Round S
  more : List ℕ → S → Round S

module _ {S : Type 0} (stream : Stream S) where
  -- The loop of `read`, with the bytes that are in the buffer.
  unfoldable pub read_loop : ℕ → List ℕ → ℕ → S → Result (List ℕ × S)
  read_loop zero got size s = err unfinished
  read_loop (suc k) got size s =
      let (bytes, s') = stream.read_no_copy (size - length got) s in
      let others = read_loop k (got ++ bytes) size s' in
      if ltb (length got) size
      then (if is_empty bytes then ok (got, s') else others)
      else ok (got, s)

  -- `read` into a buffer of this size; each round of the loop takes a byte at least.
  unfoldable pub read : ℕ → S → Result (List ℕ × S)
  unfolding read_loop
  read size s = read_loop (suc size) [] size s

  unfoldable pub read_exactly : ℕ → S → Result (List ℕ × S)
  unfolding read
  read_exactly size s = read size s >>= λ (bytes, s').
      guard (not (ltb (length bytes) size)) unexpected_eof >> ok (bytes, s')

  -- The loop of `readString`; `len` is the length of the data at its head.
  unfoldable pub read_string_loop : ℕ → ℕ → List ℕ → S → Result (List ℕ × S)
  unfolding read
  read_string_loop zero max_len text s = err unfinished
  read_string_loop (suc k) max_len text s =
      let n = min grow_size (max_len - length text) in
      let grown = read n s >>= λ (bytes, s').
      let others = read_string_loop k max_len (text ++ bytes) s' in
      if ltb (length bytes) n then ok (text ++ bytes, s') else others in
      if ltb (length text) max_len then grown else ok (text, s)

  unfoldable pub read_string : ℕ → ℕ → S → Result (List ℕ × S)
  unfolding read_string_loop
  read_string fuel max_len s = read_string_loop fuel max_len [] s

  unfoldable pub read_all : ℕ → S → Result (List ℕ × S)
  unfolding read_string
  read_all fuel s = read_string fuel (2 ^ 64 - 1) s

  -- A match in the new data alone.
  unfoldable pub round_new : List ℕ → ℕ → List ℕ → List ℕ → S → Round S
  unfolding find
  round_new end max_len text peek s = elim (find end peek) [
    | some p ↦
        let n = min (p + length end) (max_len - length text) in
        found (text ++ take n peek) (stream.read_no_copy n s).1
    | none ↦
        let n = min (length peek) (max_len - length text) in
        more (text ++ take n peek) (stream.read_no_copy n s).1
  ]

  -- A match that is split between the old and the new data.
  unfoldable pub round_split : List ℕ → ℕ → List ℕ → List ℕ → S → Round S
  unfolding find_from round_new
  round_split end max_len text peek s =
      let both = text ++ take (min (length end - 1) (length peek)) peek in
      elim (find_from end both (length text - min (length end) (length text))) [
        | some p ↦
            let n = min (p + length end) max_len in
            found (take n both) (stream.read_no_copy ((n + (2 ^ 64 - length text)) % 2 ^ 64) s).1
        | none ↦ round_new end max_len text peek s
      ]

  unfoldable pub round : List ℕ → ℕ → List ℕ → S → Round S
  unfolding round_split
  round end max_len text s =
      let peek = take (max_len - length text) (stream.peek_no_copy s) in
      if is_empty text
      then round_new end max_len text peek s
      else round_split end max_len text peek s

  unfoldable pub until_loop : ℕ → List ℕ → ℕ → List ℕ → S → Result (List ℕ × S)
  unfolding round
  until_loop zero end max_len text s = err unfinished
  until_loop (suc k) end max_len text s =
      if ltb (length text) max_len
      then elim (round end max_len text s) [
        | found text' s' ↦ ok (text', s')
        | more text' s' ↦ until_loop k end max_len text' s'
      ]
      else ok (text, s)

  unfoldable pub read_until : ℕ → List ℕ → ℕ → S → Result (List ℕ × S)
  unfolding until_loop
  read_until fuel end max_len s =
      guard (not (is_empty end)) assertion
      >> guard (leb (length end) max_len) assertion
      >> until_loop fuel end max_len [] s
