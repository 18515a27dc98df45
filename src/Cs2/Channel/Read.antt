-- ===== src/Cs2/Channel/Read.antt =====
-- What `read_exact` has reached when it returns.
use okam_ha_native.Base.{
  refl, ◌≡◌, ℕ, Bool, true, String, false, Error, ok, leb, Bool-cases, inl, inr,
}
use okam_ha_native.Base.Bytes.{Bytes}
use okam_ha_native.Base.Action.{continue-eq_ok, Action, continue, check}
use okam_ha_native.Cs2.Channel.{read_valid, turn, read_valid}
use okam_ha_native.Cs2.Pump.{pump}
use okam_ha_native.Cs2.Session.{Cs2Session}

-- A round that returned has received a packet and gone on.
pub turn-eq_ok :
    (deadline now : ℕ) (expired : Error) (go_on : Action Cs2Session (Unit {0})) (s t : Cs2Session)
    → turn deadline now expired go_on s ≡ (ok tt, t)
    → go_on (pump s).1 ≡ (ok tt, t)
unfolding turn
turn-eq_ok deadline now expired go_on s t h = elim (Bool-cases (leb deadline now)) [
  | inl late ↦ absurd (cc (rw late at h))
  | inr early ↦ let (u, good, rest) = continue-eq_ok (pump s) (λ _. go_on) (rw early at h) in rest
]

pub check-eq_ok :
    {A : Type 0} (b : Bool) (message : String) (k : Action Cs2Session A) (s t : Cs2Session) (a : A)
    → continue (check b message s) (λ _. k) ≡ (ok a, t)
    → (b ≡ true) × (k s ≡ (ok a, t))
check-eq_ok true message k s t a h = (refl, h)
check-eq_ok false message k s t a h = absurd (cc h)
