-- ===== src/P2p/Report/Raises.antt =====
-- What the stream probe raises, and what it returns.
use okam_ha_native.Base.{◌≡◌, ◌⊎◌, String, Error, Result, err, ok, p2p_error, value_error}
use okam_ha_native.Base.Bytes.{Bytes}
use okam_ha_native.Base.Text.{Text}
use okam_ha_native.Json.{Json}

-- A controlled failure: `P2PError`, or the `UnicodeEncodeError` of an input with a surrogate.
abbrev IsControlled : Error → Type 0
IsControlled e = ((m : String) × (e ≡ p2p_error m)) ⊎ (e ≡ value_error)

abbrev pub Controlled : {A : Type 0} → Result A → Type 0
Controlled (ok a) = Unit
Controlled (err e) = IsControlled e
