-- ===== src/Blip/Builder.antt =====
-- MessageBuilder of io/blip/MessageBuilder.cc and include/crouton/io/blip/MessageBuilder.hh. A
-- string is the list of its bytes. The text of a number, which `snprintf` makes, is a parameter.
use Prim.Native.Nat.{bit_or, bit_and}
use crouton.Common.{
  ℕ, leb, ◌==◌, if◌then◌else◌, Bool, true, false, not, ◌&&◌, List, [], ◌∷◌, ◌++◌, length, elem,
  is_empty,
}
use crouton.Common.Result.{Result, ok, ◌>>=◌, ◌>>◌, guard, assertion, properties_too_large}
use crouton.Varint.{put}
use crouton.Blip.{
  has_flag, type_mask, urgent_flag, compressed_flag, no_reply_flag, request_type, response_type,
  error_type,
}
use crouton.Blip.Incoming.{MessageIn, is_response_in, max_properties_size}

pub record MessageBuilder : Type 0 where
  pub urgent : Bool
  pub compressed : Bool
  pub noreply : Bool
  pub type : ℕ
  pub out : List ℕ
  pub properties : List ℕ
  pub wrote_properties : Bool

abbrev pub new_builder : MessageBuilder
new_builder = record {
  urgent = false;
  compressed = false;
  noreply = false;
  type = request_type;
  out = [];
  properties = [];
  wrote_properties = false;
}

unfoldable pub write_tokenized_string : List ℕ → List ℕ → Result (List ℕ)
write_tokenized_string out str = guard (not (elem 0 str)) assertion >> ok (out ++ (str ++ 0 ∷ []))

unfoldable pub add_property : List ℕ → List ℕ → MessageBuilder → Result MessageBuilder
unfolding write_tokenized_string
add_property name value b =
    guard (not b.wrote_properties) assertion
    >> write_tokenized_string b.properties name
    >>= λ named. write_tokenized_string named value >>= λ all. ok (record b { properties = all })

unfoldable pub add_properties : List (List ℕ × List ℕ) → MessageBuilder → Result MessageBuilder
unfolding add_property
add_properties [] b = ok b
add_properties ((name, value) ∷ rest) b = add_property name value b >>= add_properties rest

-- `MessageBuilder(string_view profile)`, with the text "Profile".
unfoldable pub builder_for_profile : List ℕ → List ℕ → Result MessageBuilder
unfolding add_property
builder_for_profile profile_key profile =
    if is_empty profile then ok new_builder else add_property profile_key profile new_builder

-- `MessageBuilder(MessageIn* inReplyTo)`
unfoldable pub builder_in_reply_to : MessageIn → Result MessageBuilder
unfolding is_response_in
builder_in_reply_to m =
    guard (not (is_response_in m)) assertion
    >> ok (record new_builder { type = response_type; urgent = has_flag urgent_flag m.flags })

unfoldable pub builder_flags : MessageBuilder → ℕ
builder_flags b =
    let base = bit_and b.type type_mask in
    let with_urgent = if b.urgent then bit_or base urgent_flag else base in
    let with_compressed =
      if b.compressed then bit_or with_urgent compressed_flag else with_urgent in
    if b.noreply then bit_or with_compressed no_reply_flag else with_compressed

-- `_properties.clear()` resets the stream's error state and leaves its text.
unfoldable pub finish_properties : MessageBuilder → Result MessageBuilder
finish_properties b =
    if b.wrote_properties
    then ok b
    else (guard (leb (length b.properties) max_properties_size) properties_too_large
        >> ok (record b {
          out = b.out ++ (put (length b.properties) ++ b.properties);
          wrote_properties = true;
        }))

unfoldable pub write : List ℕ → MessageBuilder → Result MessageBuilder
unfolding finish_properties
write bytes b = finish_properties b >>= λ b'. ok (record b' { out = b'.out ++ bytes })

unfoldable pub finish : MessageBuilder → Result (List ℕ × MessageBuilder)
unfolding finish_properties
finish b = finish_properties b >>= λ b'. ok (b'.out, b')

unfoldable pub reset : MessageBuilder → MessageBuilder
reset b = record b {
  urgent = false;
  compressed = false;
  noreply = false;
  out = [];
  properties = [];
  wrote_properties = false;
}

-- `makeError`, with the texts of the two property names and of the code.
unfoldable pub make_error :
    List ℕ → List ℕ → List ℕ → ℕ → List ℕ → List ℕ → MessageBuilder → Result MessageBuilder
unfolding add_property write
make_error domain_key code_key domain code code_text text b =
    guard (not (is_empty domain) && not (code == 0)) assertion
    >> add_property domain_key domain (record b { type = error_type })
    >>= λ b'. add_property code_key code_text b' >>= write text
