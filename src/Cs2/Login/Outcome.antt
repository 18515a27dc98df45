-- ===== src/Cs2/Login/Outcome.antt =====
-- What a login that succeeds has tried.
use okam_ha_native.Base.{
  ℕ, ◌+◌, true, List, [], ◌∷◌, ◌++◌, ◌≡◌, some, Option, length, get_elem?, not, all,
}
use okam_ha_native.Base.Int.{ℤ, pos}
use okam_ha_native.Base.Text.{Text}
use okam_ha_native.Cs2.Login.{Credential, CameraLogin, accepts}

-- Candidate number `index + i` was accepted, and the i before it were not.
pub record Won (index : ℕ) (tried : List (Option ℤ)) (cs : List Credential) (login : CameraLogin)
    : Type 0 where
  pub skipped : List (Option ℤ)
  pub refused : all (λ r. not (accepts r)) skipped ≡ true
  pub number : login.candidate ≡ index + length skipped
  pub credential : get_elem? cs (length skipped) ≡ some (login.user, login.password)
  pub attempts : login.attempts ≡ tried ++ (skipped ++ (some (pos 0) ∷ []))
  pub result : login.result ≡ pos 0
