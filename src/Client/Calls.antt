-- ===== src/Client/Calls.antt =====
-- frontend/hooks/use-webrtc.ts: the connection of a call and the candidates of the other side, which
-- are numbers here and wait in a buffer until the other side's description is set. A call of
-- `addIceCandidate` hands a candidate over, whatever the browser makes of it.
pub mod Kept
use corcy.Prelude.{
  ℕ, Bool, true, false, not, Option, none, some, List, [], ◌∷◌, ◌++◌, if◌then◌else◌,
}

-- `pc` is the connection with the candidates handed to it; `flushing` are those that
-- `flushIceCandidates` took out of the buffer and has not handed over yet.
pub record CallState : Type 0 where
  pub pc : Option (List ℕ)
  pub remote_desc_set : Bool
  pub buffer : List ℕ
  pub flushing : List ℕ

abbrev pub idle : CallState
idle = record { pc = none; remote_desc_set = false; buffer = []; flushing = [] }

-- `pc.current?.addIceCandidate(candidate)`
abbrev pub hand_over : ℕ → Option (List ℕ) → Option (List ℕ)
hand_over candidate none = none
hand_over candidate (some handed) = some (handed ++ (candidate ∷ []))

-- `pc.current = createPeerConnection(peerId)`
unfoldable pub create_peer_connection : CallState → CallState
create_peer_connection s = record s { pc = some [] }

unfoldable pub add_ice_candidate : ℕ → CallState → CallState
add_ice_candidate candidate s =
    if not s.remote_desc_set
    then record s { buffer = s.buffer ++ (candidate ∷ []) }
    else record s { pc = hand_over candidate s.pc }

-- `remoteDescSet.current = true; iceCandidateBuffer.current.splice(0)`
unfoldable pub begin_flush : CallState → CallState
begin_flush s = record s { remote_desc_set = true; buffer = []; flushing = s.flushing ++ s.buffer }

-- One round of the loop of `flushIceCandidates`.
abbrev pub flush_rest : List ℕ → CallState → CallState
flush_rest [] s = s
flush_rest (candidate ∷ rest) s = record s { pc = hand_over candidate s.pc; flushing = rest }

unfoldable pub flush_next : CallState → CallState
flush_next s = flush_rest s.flushing s

unfoldable pub end_call : CallState → CallState
end_call s = record s { remote_desc_set = false; buffer = []; pc = none }
