-- ===== src/Blip/Pending.antt =====
-- pendingRequest and pendingResponse of io/blip/BLIPIO.cc: which message an incoming frame belongs
-- to.
use crouton.Common.{
  ℕ, ◌+◌, ◌%◌, ◌^◌, ◌≤◌, ◌<◌, ◌==◌, true, false, none, ◌≡◌, ◌↔◌, is_some, arith, Option-cases,
}
use crouton.Common.Result.{Error, ok, err, invalid_frame}
use crouton.Common.Assoc.{lookup, lookup-erase_key-same, lookup-erase_key-other}
use crouton.Blip.{has_flag, more_coming_flag}
use crouton.Blip.Incoming.{MessageIn}
use crouton.Blip.Io.{BlipIo, pending_request}

-- The only error for a frame of a request is InvalidFrame, and it is raised just if no more frames
-- of this request are expected and it is not the next request in number.
pub pending_request_iff :
    (n flags : ℕ) (io : BlipIo) (e : Error)
    → (pending_request n flags io ≡ err e) ↔ (
        (e ≡ invalid_frame)
        × (lookup n io.pending_requests ≡ none)
        × ((n == (io.num_requests_received + 1) % 2 ^ 64) ≡ false))
unfolding pending_request
pending_request_iff n flags io e = ground arith

-- The last frame of a request ends it: where the requests that are expected have numbers up to the
-- one received last, and that is below 2 ^ 64 - 1, any later frame with its number is refused, and
-- the other requests are expected as before.
pub pending_request_ends :
    (n flags : ℕ) (io io' : BlipIo) (m : MessageIn)
    → pending_request n flags io ≡ ok (m, io')
    → has_flag more_coming_flag flags ≡ false
    → (is_some (lookup n io.pending_requests) ≡ true → n ≤ io.num_requests_received)
    → io.num_requests_received + 1 < 2 ^ 64
    → (later k : ℕ) → (k == n) ≡ false
    → (pending_request n later io' ≡ err invalid_frame)
      × (lookup k io'.pending_requests ≡ lookup k io.pending_requests)
unfolding pending_request
pending_request_ends n flags io io' m e last known small later k differ = ground (
  arith,
  Option-cases (lookup n io.pending_requests),
  lookup-erase_key-same n io.pending_requests,
  lookup-erase_key-other k n io.pending_requests differ,
)
