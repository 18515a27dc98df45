-- ===== src/Helper/Run.antt =====
-- `run`: one stage of the probe, over the CS2 client.
pub mod Stays
pub mod Codes
pub mod Exits
use okam_ha_native.Base.{
  ℕ, zero, suc, ◌+◌, Bool, true, false, not, ◌&&◌, ◌||◌, List, [], ◌∷◌, ◌++◌, Option, none, some,
  String, ltb, leb, ◌==◌, if◌then◌else◌, Error, Result, err, ok, login_rejected, assertion,
  is_cs2_error, is_some, any, length, get_elem?,
}
use okam_ha_native.Base.Action.{
  Action, pure, raise, lift, gets, modify, check, done, continue, ◌>>=◌, ◌>>◌,
}
use okam_ha_native.Base.Bytes.{Bytes}
use okam_ha_native.Base.Int.{ℤ, pos, negsuc}
use okam_ha_native.Base.Names.{decimal}
use okam_ha_native.Base.Text.{Text, codes}
use okam_ha_native.Cs2.Command.{write_command, read_command_result}
use okam_ha_native.Cs2.Connect.{Binding, connect}
use okam_ha_native.Cs2.Create.{new_session}
use okam_ha_native.Cs2.Login.{
  Credential, CameraLogin, login_candidates, authenticate_camera, login_response_command,
}
use okam_ha_native.Cs2.Request.{make_cgi_request}
use okam_ha_native.Cs2.Session.{Cs2Session, World, close}
use okam_ha_native.Cs2.Video.{read_video_frame, inspect_h264}
use okam_ha_native.Base.Counters.{sorted_counters}
use okam_ha_native.Helper.Summary.{Summary, default_summary}
use okam_ha_native.Helper.Process.{
  Mode, connecting, authenticating, stream_test, stream_stdout, Process, on_session, report,
  close_with, stop_path, send_cgi, log_in, force_candidate,
}
use okam_ha_native.Helper.Stream.{stream, mark_stop_sent}

abbrev pub exit_ok : Summary → ℕ
exit_ok s = 0

-- `assert device_password is not None`
abbrev pub password_or_raise : Option Text → Action Process Text
password_or_raise none = raise assertion
password_or_raise (some password) = pure password

pub choose_credential : ℕ → ℕ → Text → Option ℤ → Action Process Unit
unfolding log_in force_candidate
choose_credential rounds fuel password none = log_in rounds fuel password
choose_credential rounds fuel password (some index) = force_candidate password index

-- Behind the login.
pub logged_in : ℕ → ℕ → ℕ → Mode → ℕ → Action Process ℕ
unfolding stream
logged_in frames rounds fuel authenticating substream = close_with exit_ok
logged_in frames rounds fuel mode substream = stream frames rounds fuel mode substream

-- Behind `connect`.
pub connected_stage : ℕ → ℕ → ℕ → Mode → Option Text → Option ℤ → ℕ → Action Process ℕ
unfolding choose_credential logged_in
connected_stage frames rounds fuel connecting password index substream = close_with exit_ok
connected_stage frames rounds fuel mode password index substream = do
  given ← password_or_raise password
  choose_credential rounds fuel given index
  logged_in frames rounds fuel mode substream

abbrev pub record_connected : String → Summary → Summary
record_connected path s = record s { connected = true; connect_state = pos 3; connect_path = path }

-- The body of the `try`.
pub body : ℕ → ℕ → ℕ → Binding → Option Text → Mode → Option Text → Option ℤ → ℕ → Action Process ℕ
unfolding connected_stage
body frames rounds fuel binding route mode password index substream = do
  on_session (connect fuel binding route 55000)
  path ← gets (λ p. p.session.connect_path)
  report (record_connected path)
  connected_stage frames rounds fuel mode password index substream

-- `CameraLoginRejected` is evidence, too.
abbrev pub record_rejection : Error → Summary → Summary
record_rejection (login_rejected attempts) s = record s {
  login_attempts = attempts;
  login_response_received = any is_some attempts;
}
record_rejection _ s = s

-- `except CS2Error: pass`
abbrev pub forgiven : Result (Unit {0}) × Process → Result (Unit {0}) × Process
forgiven (ok a, p) = (ok a, p)
forgiven (err e, p) = if is_cs2_error e then (ok tt, p) else (err e, p)

pub stop_again : ℕ → Action Process Unit
stop_again fuel p =
    if p.summary.stream_start_sent && not p.summary.stream_stop_sent
    then forgiven ((do send_cgi fuel stop_path; report mark_stop_sent) p)
    else (ok tt, p)

abbrev pub failure_code : Summary → ℕ
failure_code s = if not s.connected then 4 else if not s.authenticated then 5 else 6

-- The `except CS2Error` of `run`.
pub recover : ℕ → Error → Action Process ℕ
unfolding stop_again
recover fuel e = do report (record_rejection e); stop_again fuel; close_with failure_code

pub settle : ℕ → Result ℕ × Process → Result ℕ × Process
unfolding recover
settle fuel (ok code, p) = (ok code, p)
settle fuel (err e, p) = if is_cs2_error e then recover fuel e p else (err e, p)

abbrev pub or_empty : Option Text → Text
or_empty none = []
or_empty (some t) = t

-- `stopped` and `pipe_broken` are the signals and the pipe that the run meets.
abbrev pub fresh_process : Cs2Session → Option Text → (ℕ → Bool) → (ℕ → Bool) → Process
fresh_process session password stopped pipe_broken = record {
  session = session;
  summary = default_summary;
  accepted = (codes "admin", or_empty password);
  output = [];
  looks = 0;
  stopped = stopped;
  writes = 0;
  pipe_broken = pipe_broken;
}

unfoldable pub run_process :
    ℕ → ℕ → ℕ → Binding → Option Text → Mode → Option Text → Option ℤ → ℕ → Action Process ℕ
unfolding body settle
run_process frames rounds fuel binding route mode password index substream p =
    settle fuel (body frames rounds fuel binding route mode password index substream p)
