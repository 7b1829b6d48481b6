-- ===== src/WebSocket/Pieces.antt =====
-- Messages that are cut into fragments.
use crouton.Common.{
  ℕ, ◌==◌, if◌then◌else◌, Bool, true, false, ◌&&◌, Option, none, some, List, [], ◌∷◌, ◌++◌,
  append_assoc, append-nil, Bool-cases, inl, inr, ◌≡◌, refl, sym, ap, suc, map, arith, ◌∙◌,
}
use crouton.WebSocket.{
  Message, Fragment, WebSocket, with_fragment, handle_fragment, handle_fragments,
}

-- The messages that fragments complete, where some of a message may have come before.
unfoldable pub completed : Option Message → List Fragment → List Message
completed cur [] = []
completed cur (f ∷ fs) =
    let m = with_fragment f cur in
    let ends = m ∷ completed none fs in
    let goes_on = completed (some m) fs in if f.fin && f.remaining_bytes == 0 then ends else goes_on

-- What they leave of a message.
unfoldable pub left_over : Option Message → List Fragment → Option Message
left_over cur [] = cur
left_over cur (f ∷ fs) =
    let ends = left_over none fs in
    let goes_on = left_over (some (with_fragment f cur)) fs in
    if f.fin && f.remaining_bytes == 0 then ends else goes_on

pub completed-append :
    (cur : Option Message) (fs gs : List Fragment)
    → completed cur (fs ++ gs) ≡ completed cur fs ++ completed (left_over cur fs) gs
unfolding completed left_over
completed-append cur [] gs = refl
completed-append cur (f ∷ fs) gs = elim (Bool-cases (f.fin && f.remaining_bytes == 0)) [
  | inl ends ↦ rw ends (ap (λ ms. with_fragment f cur ∷ ms) (completed-append none fs gs))
  | inr more ↦ rw more (completed-append (some (with_fragment f cur)) fs gs)
]

pub handle_fragments-completed :
    {P : Type 0} (fs : List Fragment) (ws : WebSocket P)
    → handle_fragments fs ws ≡ record ws {
      incoming = ws.incoming ++ completed ws.cur_message fs;
      cur_message = left_over ws.cur_message fs;
    }
unfolding handle_fragments handle_fragment completed left_over
handle_fragments-completed [] ws = rw (append-nil ws.incoming) refl
handle_fragments-completed (f ∷ fs) ws = elim (Bool-cases (f.fin && f.remaining_bytes == 0)) [
  | inl ends ↦ rw ends (
      handle_fragments-completed fs (record ws {
        incoming = ws.incoming ++ with_fragment f ws.cur_message ∷ [];
        cur_message = none;
      })
      ∙ ap (λ ms. record ws { incoming = ms; cur_message = left_over none fs })
          (append_assoc ws.incoming (with_fragment f ws.cur_message ∷ []) (completed none fs)))
  | inr more ↦ rw more (
      handle_fragments-completed fs
        (record ws { cur_message = some (with_fragment f ws.cur_message) }))
]

-- A part of a message that is not its last: the end of a frame with others after it, or what of a
-- frame a read has brought, some bytes of which are to come.
pub data Part : Type 0 where
  frame_end : List ℕ → Part
  read_end : List ℕ → ℕ → Bool → Part

unfoldable pub part_bytes : Part → List ℕ
part_bytes (frame_end bytes) = bytes
part_bytes (read_end bytes more fin) = bytes

unfoldable pub part_fragment : ℕ → Part → Fragment
part_fragment type (frame_end bytes) = record {
  bytes = bytes;
  remaining_bytes = 0;
  op_code = type;
  fin = false;
}
part_fragment type (read_end bytes more fin) = record {
  bytes = bytes;
  remaining_bytes = suc more;
  op_code = type;
  fin = fin;
}

-- A message as it comes: its type, the parts, and the last part.
pub record Cut : Type 0 where
  pub type : ℕ
  pub parts : List Part
  pub last : List ℕ

unfoldable pub all_bytes : List Part → List ℕ → List ℕ
unfolding part_bytes
all_bytes [] last = last
all_bytes (p ∷ ps) last = part_bytes p ++ all_bytes ps last

unfoldable pub whole : Cut → Message
unfolding all_bytes
whole c = record { content = all_bytes c.parts c.last; type = c.type }

unfoldable pub fragments_from : ℕ → List Part → List ℕ → List Fragment
unfolding part_fragment
fragments_from type [] last =
    record { bytes = last; remaining_bytes = 0; op_code = type; fin = true } ∷ []
fragments_from type (p ∷ ps) last = part_fragment type p ∷ fragments_from type ps last

unfoldable pub fragments_of : List Cut → List Fragment
unfolding fragments_from
fragments_of [] = []
fragments_of (c ∷ cs) = fragments_from c.type c.parts c.last ++ fragments_of cs

succ_zero : (n : ℕ) → (suc n == 0) ≡ false
succ_zero n = ground arith

-- More of a message.
longer : Message → List ℕ → Message
longer m bytes = record m { content = m.content ++ bytes }

rest_completed :
    (type : ℕ) (ps : List Part) (last : List ℕ) (m : Message)
    → (completed (some m) (fragments_from type ps last) ≡ longer m (all_bytes ps last) ∷ [])
      × (left_over (some m) (fragments_from type ps last) ≡ none)
unfolding completed left_over fragments_from part_fragment all_bytes part_bytes with_fragment longer
rest_completed type [] last m = (refl, refl)
rest_completed type (frame_end bytes ∷ ps) last m =
    rw (sym (append_assoc m.content bytes (all_bytes ps last)))
      (rest_completed type ps last (record m { content = m.content ++ bytes }))
rest_completed type (read_end bytes more true ∷ ps) last m =
    rw (succ_zero more, sym (append_assoc m.content bytes (all_bytes ps last)))
      (rest_completed type ps last (record m { content = m.content ++ bytes }))
rest_completed type (read_end bytes more false ∷ ps) last m =
    rw (sym (append_assoc m.content bytes (all_bytes ps last)))
      (rest_completed type ps last (record m { content = m.content ++ bytes }))

from_empty :
    (type : ℕ) (ps : List Part) (last : List ℕ)
    → (completed none (fragments_from type ps last)
        ≡ completed (some (record { content = []; type = type })) (fragments_from type ps last))
      × (left_over none (fragments_from type ps last)
          ≡ left_over (some (record { content = []; type = type })) (fragments_from type ps last))
unfolding completed left_over fragments_from part_fragment with_fragment
from_empty type [] last = (refl, refl)
from_empty type (frame_end bytes ∷ ps) last = (refl, refl)
from_empty type (read_end bytes more fin ∷ ps) last = (refl, refl)

cut_completed :
    (c : Cut)
    → (completed none (fragments_from c.type c.parts c.last) ≡ whole c ∷ [])
      × (left_over none (fragments_from c.type c.parts c.last) ≡ none)
unfolding whole longer
cut_completed c =
    let (all, rest) = from_empty c.type c.parts c.last in
    let (all', rest') =
      rest_completed c.type c.parts c.last (record { content = []; type = c.type }) in
    (all ∙ all', rest ∙ rest')

pub fragments_of-completed : (cs : List Cut) → completed none (fragments_of cs) ≡ map whole cs
unfolding fragments_of
fragments_of-completed [] = unfold completed in refl
fragments_of-completed (c ∷ cs) =
    completed-append none (fragments_from c.type c.parts c.last) (fragments_of cs)
    ∙ rw ((cut_completed c).0, (cut_completed c).1)
        (ap (λ ms. whole c ∷ ms) (fragments_of-completed cs))
