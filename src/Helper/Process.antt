-- ===== src/Helper/Process.antt =====
-- The state of the helper's process, and the steps of `run` up to the login.
use okam_ha_native.Base.{ℕ, Bool, true, List, ◌++◌, Option, none, some, cs2_error, get_elem?}
use okam_ha_native.Base.Action.{Action, pure, raise, lift, gets, modify, ◌>>=◌, ◌>>◌}
use okam_ha_native.Base.Bytes.{Bytes}
use okam_ha_native.Base.Int.{ℤ, pos, negsuc}
use okam_ha_native.Base.Names.{decimal}
use okam_ha_native.Base.Text.{Text, codes}
use okam_ha_native.Cs2.Command.{write_command}
use okam_ha_native.Cs2.Login.{
  Credential, CameraLogin, login_candidates, authenticate_camera, login_response_command,
}
use okam_ha_native.Cs2.Request.{make_cgi_request}
use okam_ha_native.Cs2.Session.{Cs2Session, close}
use okam_ha_native.Base.Counters.{sorted_counters}
use okam_ha_native.Helper.Summary.{Summary}

-- The values of `mode`.
pub data Mode : Type 0 where
  connecting authenticating stream_test stream_stdout : Mode

-- The process: the session, the summary, the accepted credential, what went to standard output, and
-- what the n-th look at `_running` and the n-th write to standard output see: a signal that has
-- come, and a pipe that is broken.
pub record Process : Type 0 where
  pub session : Cs2Session
  pub summary : Summary
  pub accepted : Credential
  pub output : List Bytes
  pub looks : ℕ
  pub stopped : ℕ → Bool
  pub writes : ℕ
  pub pipe_broken : ℕ → Bool

abbrev pub on_session : {A : Type 0} → Action Cs2Session A → Action Process A
on_session m p = let (r, s) = m p.session in (r, record p { session = s })

abbrev pub report : (Summary → Summary) → Action Process Unit
report change = modify (λ p. record p { summary = change p.summary })

-- `result["disconnected"] = session.close()`, and `_finish` with the exit code that the summary has.
unfoldable pub close_with : (Summary → ℕ) → Action Process ℕ
close_with code = do
  disconnected ← on_session close
  report (λ s. record s { disconnected = disconnected })
  chosen ← gets (λ p. code p.summary)
  modify (λ p. record p {
    summary = record p.summary { counters = sorted_counters p.session.counters };
  })
  pure chosen

unfoldable pub start_path : ℕ → Text
start_path substream =
    codes "livestream.cgi?streamid=10&substream=" ++ (codes (decimal substream) ++ codes "&")

abbrev pub stop_path : Text
stop_path = codes "livestream.cgi?streamid=16&substream=0&"

-- `write_command(session, make_cgi_request(path, accepted_user, accepted_password))`
unfoldable pub send_cgi : ℕ → Text → Action Process Unit
send_cgi fuel path = do
  accepted ← gets (λ p. p.accepted)
  request ← lift (make_cgi_request path accepted.0 accepted.1)
  on_session (write_command fuel request)

abbrev pub accept : Credential → Process → Process
accept credential p = record p { accepted = credential }

abbrev pub force_number : ℕ → Summary → Summary
force_number n s = record s { login_candidate = pos n }

abbrev pub use_candidate : ℕ → Option Credential → Action Process Unit
use_candidate n none = raise (cs2_error "credential candidate is out of range")
use_candidate n (some credential) = do modify (accept credential); report (force_number n)

-- A forced candidate.
unfoldable pub force_candidate : Text → ℤ → Action Process Unit
force_candidate password (negsuc n) = use_candidate 0 none
force_candidate password (pos n) = use_candidate n (get_elem? (login_candidates password) n)

abbrev pub mark_login_sent : Summary → Summary
mark_login_sent s = record s { login_sent = true }

abbrev pub record_login : CameraLogin → Summary → Summary
record_login login s = record s {
  login_response_received = true;
  authenticated = true;
  login_command = login_response_command;
  login_result = login.result;
  login_candidate = pos login.candidate;
  login_attempts = login.attempts;
}

unfoldable pub log_in : ℕ → ℕ → Text → Action Process Unit
log_in rounds fuel password = do
  report mark_login_sent
  login ← on_session (authenticate_camera rounds fuel password 45000)
  modify (accept (login.user, login.password))
  report (record_login login)
