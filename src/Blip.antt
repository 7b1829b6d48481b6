-- ===== src/Blip.antt =====
-- io/blip/Protocol.hh, Message.hh, MessageOut.cc and the class Outbox of io/blip/BLIPIO.cc: outgoing
-- messages and the queue in which they take turns.
-- A message is the record of its fields with the address of the object; only one container holds
-- it at a time. A Future that a response is for is a number.
pub mod Codec
pub mod Builder
pub mod Properties
pub mod Outgoing
pub mod Incoming
pub mod Framing
pub mod Reassembly
pub mod Exchange
pub mod Delivery
pub mod Lookup
pub mod RoundTrip
pub mod Io
pub mod Frames
pub mod Requeue
pub mod Flow
pub mod Boxes
pub mod Icebox
pub mod Received
pub mod Pending
pub mod Untouched
pub mod Reply
pub mod Response
mod Examples
mod Runs
use Prim.Native.Nat.{bit_and}
use crouton.Common.{
  ℕ, zero, suc, ◌+◌, ◌-◌, min, ltb, leb, ◌==◌, if◌then◌else◌, Bool, true, false, not, ◌&&◌, ◌||◌,
  Option, none, some, List, [], ◌∷◌, length, get_elem?,
}
use crouton.Common.Result.{Result, ok, Error, assertion, guard, ◌>>=◌, ◌>>◌}
use crouton.Queue.{AsyncQueue, push_before, any}

-- MessageType, and the flags above its three bits.
abbrev pub request_type : ℕ
request_type = 0

abbrev pub response_type : ℕ
response_type = 1

abbrev pub error_type : ℕ
error_type = 2

abbrev pub ack_request_type : ℕ
ack_request_type = 4

abbrev pub ack_response_type : ℕ
ack_response_type = 5

abbrev pub type_mask : ℕ
type_mask = 0x07

abbrev pub compressed_flag : ℕ
compressed_flag = 0x08

abbrev pub urgent_flag : ℕ
urgent_flag = 0x10

abbrev pub no_reply_flag : ℕ
no_reply_flag = 0x20

abbrev pub more_coming_flag : ℕ
more_coming_flag = 0x40

unfoldable pub has_flag : ℕ → ℕ → Bool
has_flag f flags = not (bit_and flags f == 0)

unfoldable pub type_of : ℕ → ℕ
type_of flags = bit_and flags type_mask

pub record MessageOut : Type 0 where
  pub address : ℕ
  pub flags : ℕ
  -- 0 is `MessageNo::None`
  pub number : ℕ
  pub bytes_sent : ℕ
  pub unacked_bytes : ℕ
  pub on_response : Option ℕ
  -- `Contents`: the message's data, and what of it has not been sent
  pub payload : List ℕ
  pub unsent_payload : List ℕ
  pub uncompressed_bytes_sent : ℕ

unfoldable pub urgent : MessageOut → Bool
unfolding has_flag
urgent m = has_flag urgent_flag m.flags

unfoldable pub no_reply : MessageOut → Bool
unfolding has_flag
no_reply m = has_flag no_reply_flag m.flags

unfoldable pub compressed : MessageOut → Bool
unfolding has_flag
compressed m = has_flag compressed_flag m.flags

unfoldable pub is_response : MessageOut → Bool
unfolding type_of
is_response m = leb response_type (type_of m.flags)

unfoldable pub is_ack : MessageOut → Bool
unfolding type_of
is_ack m = type_of m.flags == ack_request_type || type_of m.flags == ack_response_type

unfoldable pub is_new : MessageOut → Bool
is_new m = m.bytes_sent == 0

abbrev pub max_unacked_bytes : ℕ
max_unacked_bytes = 128000

unfoldable pub needs_ack : MessageOut → Bool
needs_ack m = leb max_unacked_bytes m.unacked_bytes

-- `MessageOut::receivedAck`
unfoldable pub message_received_ack : ℕ → MessageOut → MessageOut
message_received_ack byte_count m =
    if leb byte_count m.bytes_sent
    then record m { unacked_bytes = min m.unacked_bytes (m.bytes_sent - byte_count) }
    else m

abbrev pub Outbox : Type 0
Outbox = AsyncQueue MessageOut Error

unfoldable pub is_message : ℕ → Bool → MessageOut → Bool
unfolding is_response
is_message number response m =
    m.number == number && (if response then is_response m else not (is_response m))

unfoldable pub find_message : (MessageOut → Bool) → List MessageOut → Option MessageOut
find_message p [] = none
find_message p (m ∷ rest) = if p m then some m else find_message p rest

-- The loop of `requeue`, entered with the iterator at an index; the result is where it leaves the
-- iterator.
unfoldable pub requeue_loop : Bool → List MessageOut → ℕ → ℕ
unfolding urgent is_new
requeue_loop new_message q zero = 0
requeue_loop new_message q (suc i) = elim (get_elem? q i) [
  | none ↦ suc i
  | some m ↦
      let further = requeue_loop new_message q i in
      if urgent m
      then if i + 1 == length q then i else i + 1
      else if new_message && is_new m
      then i
      else further
]

unfoldable pub requeue_position : MessageOut → List MessageOut → ℕ
unfolding urgent is_new requeue_loop
requeue_position m q =
    if urgent m && ltb 1 (length q) then requeue_loop (is_new m) q (length q) + 1 else length q

unfoldable pub contains : MessageOut → List MessageOut → Bool
unfolding any
contains m q = any (λ other. other.address == m.address) q

unfoldable pub requeue : MessageOut → Outbox → Result Outbox
unfolding contains requeue_position
requeue m box = do
  guard (not (contains m box.queue)) assertion
  ok (push_before (requeue_position m box.queue) m box).1
