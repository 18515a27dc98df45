-- ===== src/Cs2/Pump.antt =====
-- `_retransmit` and `_pump`: one turn of a connected session. Times are in milliseconds.
pub mod Turn
use okam_ha_native.Base.{
  ℕ, zero, suc, ◌+◌, ◌%◌, Bool, true, false, not, ◌&&◌, ◌||◌, List, [], ◌∷◌, ◌++◌, Option, none,
  some, ltb, leb, ◌==◌, if◌then◌else◌, String, Result, ok, err, cs2_error, cs2_timeout, assertion,
  out_of_fuel, length, take, drop, set, get_or, any,
}
use okam_ha_native.Base.Action.{Action, pure, done, raise, modify, gets, check, ◌>>=◌, ◌>>◌}
use okam_ha_native.Base.Bytes.{Bytes, equal}
use okam_ha_native.Base.Names.{hex}
use okam_ha_native.Cs2.Address.{Endpoint, same_endpoint}
use okam_ha_native.Cs2.Wire.{kind}
use okam_ha_native.Cs2.Session.{
  Cs2Session, Pending, count, count_kind, monotonic, send_clear, receive_clear, require_connected,
  close,
}
use okam_ha_native.Cs2.Data.{handle_data, handle_ack, drop_pending, data_packet}

abbrev pub retransmit_ms : ℕ
retransmit_ms = 500

abbrev pub max_retransmits : ℕ
max_retransmits = 20

abbrev pub is_entry : ℕ → ℕ → Pending → Bool
is_entry channel sequence e = e.channel == channel && e.sequence == sequence

-- `value[1] = now; value[2] = attempts + 1`, in the entry of that key
unfoldable pub mark_sent : ℕ → Pending → List Pending → List Pending
mark_sent now e [] = []
mark_sent now e (x ∷ rest) =
    (if is_entry e.channel e.sequence x
      then record x { sent_at = now; attempts = e.attempts + 1 }
      else x)
    ∷ mark_sent now e rest

-- The loop of `_retransmit`, over the entries that were there when it began.
unfoldable pub retransmit_all : ℕ → Endpoint → List Pending → Action Cs2Session Unit
unfolding mark_sent
retransmit_all now peer [] = done
retransmit_all now peer (e ∷ rest) =
    let go_on = retransmit_all now peer rest in
    if ltb now (e.sent_at + retransmit_ms)
    then go_on
    else if leb max_retransmits e.attempts
    then (do
      modify (λ s. record s { pending = drop_pending e.channel e.sequence s.pending })
      raise (cs2_error "camera did not acknowledge native P2P data"))
    else (do
      send_clear e.frame peer
      count "retransmits"
      modify (λ s. record s { pending = mark_sent now e s.pending })
      go_on)

unfoldable pub retransmit_to : Option Endpoint → Action Cs2Session Unit
unfolding retransmit_all
retransmit_to none = done
retransmit_to (some peer) = do now ← monotonic; λ s. retransmit_all now peer s.pending s

unfoldable pub retransmit : Action Cs2Session Unit
unfolding retransmit_to
retransmit s = retransmit_to s.peer s

abbrev pub alive_reply : Bytes
alive_reply = 0xf1 ∷ 0xe1 ∷ 0x00 ∷ 0x00 ∷ []

abbrev pub ready_ack : Bytes
ready_ack = 0xf1 ∷ 0x43 ∷ 0x00 ∷ 0x00 ∷ []

abbrev pub ready_reply : Bytes → Bytes
ready_reply uid = 0xf1 ∷ 0x42 ∷ 0x00 ∷ 0x14 ∷ uid

-- The ladder on `packet[:2]`.
pub dispatch : Bytes → Endpoint → Action Cs2Session Unit
dispatch p address =
    let is = λ (b : ℕ). equal (take 2 p) (kind b) in
    if is 0xe0
    then (do count "alive_requests"; send_clear alive_reply address)
    else if is 0x41
    then (do count "punch_repeats"; λ s. send_clear (ready_reply s.uid) address s)
    else if is 0x42
    then (do count "readiness_requests"; send_clear ready_ack address)
    else if is 0xd1
    then (do count "ack_packets"; handle_ack p)
    else if is 0xd0
    then (do count "data_packets"; handle_data p)
    else if is 0xf0
    then (do
      count "close_packets"
      closed ← close
      raise (cs2_error "camera closed the native P2P session"))
    else (do count "other_packets"; count_kind "other_" (hex (take 2 p)))

-- Is the source the peer, its host with another port, or someone else?
pub data Source : Type 0 where
  peer drifted other : Source

pub source_of : Option Endpoint → Endpoint → Source
source_of none address = other
source_of (some p) address =
    if same_endpoint address p then peer else if equal address.host p.host then drifted else other

pub handle_from : Source → Bytes → Endpoint → Action Cs2Session Unit
unfolding dispatch
handle_from peer p address = dispatch p address
handle_from drifted p address = do count "peer_port_drift"; dispatch p address
handle_from other p address = count "packets_from_other_source"

pub handle_received : Option (Bytes × Endpoint) → Action Cs2Session Unit
unfolding handle_from source_of
handle_received none = done
handle_received (some (p, address)) = do
  count "pump_packets"
  λ s. handle_from (source_of s.peer address) p address s

unfoldable pub pump : Action Cs2Session Unit
unfolding handle_received
pump = do retransmit; received ← receive_clear; handle_received received
