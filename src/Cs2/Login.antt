-- ===== src/Cs2/Login.antt =====
-- `login_candidates` and `authenticate_camera`.
pub mod Outcome
use okam_ha_native.Base.{
  ℕ, zero, ◌+◌, ◌-◌, Bool, true, false, ◌&&◌, List, [], ◌∷◌, ◌++◌, Option, none, some, leb, min,
  if◌then◌else◌, login_rejected, any,
}
use okam_ha_native.Base.Action.{Action, pure, raise, lift, ◌>>=◌, ◌>>◌}
use okam_ha_native.Base.Bytes.{equal}
use okam_ha_native.Base.Int.{ℤ, pos}
use okam_ha_native.Base.Text.{Text, codes}
use okam_ha_native.Cs2.Session.{Cs2Session, monotonic}
use okam_ha_native.Cs2.Request.{make_cgi_request}
use okam_ha_native.Cs2.Command.{write_command, read_response}

abbrev pub login_response_command : ℕ
login_response_command = 0x6001

abbrev pub auth_candidate_ms : ℕ
auth_candidate_ms = 15000

abbrev pub Credential : Type 0
Credential = Text × Text

abbrev pub same_credential : Credential → Credential → Bool
same_credential a b = equal a.0 b.0 && equal a.1 b.1

-- `list(dict.fromkeys(…))`: the first of equal entries stays.
pub fromkeys : List Credential → List Credential → List Credential
fromkeys seen [] = seen
fromkeys seen (c ∷ cs) =
    fromkeys (if any (same_credential c) seen then seen else seen ++ (c ∷ [])) cs

unfoldable pub login_candidates : Text → List Credential
unfolding fromkeys
login_candidates device_password = fromkeys [] (
    (codes "admin", device_password)
    ∷ (codes "admin", codes "888888")
    ∷ (codes "admin", codes "")
    ∷ [])

pub record CameraLogin : Type 0 where
  pub user : Text
  pub password : Text
  pub result : ℤ
  pub candidate : ℕ
  pub attempts : List (Option ℤ)

abbrev result_of : Option (ℕ × ℤ) → Option ℤ
result_of none = none
result_of (some (command, result)) = some result

abbrev pub accepts : Option ℤ → Bool
accepts (some (pos zero)) = true
accepts _ = false

-- One candidate: the request, and the answer within its window.
pub attempt : ℕ → ℕ → ℕ → Credential → Action Cs2Session (Option ℤ)
attempt rounds fuel remaining (user, password) = do
  now ← monotonic
  request ← lift (make_cgi_request (codes "get_status.cgi?name=admin&") user password)
  write_command fuel request
  answer ←
      read_response rounds fuel (login_response_command ∷ [])
        (now + min remaining auth_candidate_ms)
  pure (result_of answer)

-- The loop, from candidate number `index`.
pub try_candidates :
    ℕ → ℕ → ℕ → ℕ → List (Option ℤ) → List Credential → Action Cs2Session CameraLogin
try_candidates rounds fuel deadline index attempts [] = raise (login_rejected attempts)
try_candidates rounds fuel deadline index attempts (c ∷ cs) =
    let go_on =
      λ (tried : List (Option ℤ)). try_candidates rounds fuel deadline (index + 1) tried cs in
    do
      now ← monotonic
      if leb deadline now then raise (login_rejected attempts) else (do
        result ← attempt rounds fuel (deadline - now) c
        let tried = attempts ++ (result ∷ [])
        if accepts result
            then pure (record {
              user = c.0;
              password = c.1;
              result = pos 0;
              candidate = index;
              attempts = tried;
            })
            else go_on tried)

unfoldable pub authenticate_camera : ℕ → ℕ → Text → ℕ → Action Cs2Session CameraLogin
unfolding try_candidates attempt
authenticate_camera rounds fuel device_password timeout = do
  now ← monotonic
  try_candidates rounds fuel (now + timeout) 0 [] (login_candidates device_password)
