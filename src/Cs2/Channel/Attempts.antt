-- ===== src/Cs2/Channel/Attempts.antt =====
-- No packet is sent more often than `MAX_RETRANSMITS` allows.
use okam_ha_native.Base.{◌≤◌, List, All}
use okam_ha_native.Base.Action.{Action}
use okam_ha_native.Base.Bytes.{Bytes}
use okam_ha_native.Cs2.Pump.{max_retransmits}
use okam_ha_native.Cs2.Session.{Cs2Session, Pending}

abbrev pub AllBounded : List Pending → Type 0
AllBounded = All (λ (e : Pending). e.attempts ≤ max_retransmits)

-- Every pending packet was sent at most 20 times.
abbrev pub IsBounded : Cs2Session → Type 0
IsBounded s = AllBounded s.pending
