-- ===== src/Helper/Run/Exits.antt =====
-- Every way out of `run`: the session is closed, and the exit code says how far the run came.
use okam_ha_native.Base.{
  ℕ, true, false, not, ◌&&◌, ◌≡◌, inl, inr, refl, Option, none, some, Bool-cases, Error, Result,
  err, ok, is_cs2_error,
}
use okam_ha_native.Base.Action.{Action, continue, ◌>>=◌, ◌>>◌}
use okam_ha_native.Base.Int.{ℤ}
use okam_ha_native.Base.Text.{Text}
use okam_ha_native.Cs2.Connect.{Binding, connect}
use okam_ha_native.Helper.Process.{
  Mode, connecting, authenticating, stream_test, stream_stdout, Process, on_session, report,
  close_with, send_cgi, stop_path,
}
use okam_ha_native.Helper.Run.{
  exit_ok, password_or_raise, choose_credential, logged_in, connected_stage, body, record_rejection,
  forgiven, stop_again, failure_code, recover, settle, run_process,
}
use okam_ha_native.Helper.Stream.{start_stream, stream_loop, stream, stream_code, mark_stop_sent}
use okam_ha_native.Helper.Summary.{Summary}
use okam_ha_native.Helper.Run.Stays.{
  Connected, Stays, Stays-report, Stays-send_cgi, Stays-log_in, Stays-force_candidate,
  Stays-start_stream, Stays-stream_loop,
}
use okam_ha_native.Helper.Run.Codes.{
  Ends, Exits, FitsCode, close_with-Exits, failure-FitsCode, exit_ok-FitsCode, stream_code-FitsCode,
}

Exits-Ends : (r : Result ℕ × Process) → Exits r → Ends r
Exits-Ends (ok code, p) h = h
Exits-Ends (err e, p) h = tt

-- From a connected process on, the action ends at an exit.
record Reaches (m : Action Process ℕ) : Type 0 where
  pub reaches : (p : Process) → Connected p → Ends (m p)

module _ {A : Type 0} where
  continue-Ends :
      (r : Result A × Process) (k : A → Action Process ℕ)
      → ((a : A) → Ends (k a r.1))
      → Ends (continue r k)
  continue-Ends (ok a, p) k h = h a
  continue-Ends (err e, p) k h = tt

  Reaches-bind :
      (m : Action Process A) (k : A → Action Process ℕ)
      → Stays m
      → ((a : A) → Reaches (k a))
      → Reaches (m >>= k)
  Reaches-bind m k first next = record {
    reaches = λ p h. continue-Ends (m p) k (λ a. (next a).reaches (m p).1 (first.stays p h));
  }

closing-Reaches :
    (code : Summary → ℕ)
    → ((s : Summary) → s.connected ≡ true → FitsCode code s)
    → Reaches (close_with code)
closing-Reaches code fits = record {
  reaches = λ p h. Exits-Ends (close_with code p) (close_with-Exits code p (fits p.summary h));
}

stream-Reaches :
    (frames rounds fuel : ℕ) (mode : Mode) (substream : ℕ)
    → Reaches (stream frames rounds fuel mode substream)
unfolding stream
stream-Reaches frames rounds fuel mode substream =
    Reaches-bind (start_stream rounds fuel substream) _ (Stays-start_stream rounds fuel substream)
      (λ u. Reaches-bind (stream_loop frames fuel mode) _ (Stays-stream_loop frames fuel mode) (λ u.
        Reaches-bind (send_cgi fuel stop_path) _ (Stays-send_cgi fuel stop_path) (λ u.
          Reaches-bind (report mark_stop_sent) (λ u. close_with stream_code)
            (Stays-report mark_stop_sent (λ s. refl))
            (λ u. closing-Reaches stream_code stream_code-FitsCode))))

logged_in-Reaches :
    (frames rounds fuel : ℕ) (mode : Mode) (substream : ℕ)
    → Reaches (logged_in frames rounds fuel mode substream)
unfolding logged_in
logged_in-Reaches frames rounds fuel authenticating substream =
    closing-Reaches exit_ok exit_ok-FitsCode
logged_in-Reaches frames rounds fuel connecting substream =
    stream-Reaches frames rounds fuel connecting substream
logged_in-Reaches frames rounds fuel stream_test substream =
    stream-Reaches frames rounds fuel stream_test substream
logged_in-Reaches frames rounds fuel stream_stdout substream =
    stream-Reaches frames rounds fuel stream_stdout substream

Stays-choose_credential :
    (rounds fuel : ℕ) (password : Text) (index : Option ℤ)
    → Stays (choose_credential rounds fuel password index)
unfolding choose_credential
Stays-choose_credential rounds fuel password none = Stays-log_in rounds fuel password
Stays-choose_credential rounds fuel password (some index) = Stays-force_candidate password index

Stays-password_or_raise : (password : Option Text) → Stays (password_or_raise password)
Stays-password_or_raise none = record { stays = λ p h. h }
Stays-password_or_raise (some password) = record { stays = λ p h. h }

-- Behind the connection, in a mode that logs in.
login-Reaches :
    (frames rounds fuel : ℕ) (mode : Mode) (password : Option Text) (index : Option ℤ)
    (substream : ℕ)
    → Reaches (
        password_or_raise password >>= (λ given.
          choose_credential rounds fuel given index >> logged_in frames rounds fuel mode substream))
login-Reaches frames rounds fuel mode password index substream =
    Reaches-bind (password_or_raise password) _ (Stays-password_or_raise password) (λ given.
      Reaches-bind (choose_credential rounds fuel given index) _
        (Stays-choose_credential rounds fuel given index)
        (λ u. logged_in-Reaches frames rounds fuel mode substream))

connected_stage-Reaches :
    (frames rounds fuel : ℕ) (mode : Mode) (password : Option Text) (index : Option ℤ)
    (substream : ℕ)
    → Reaches (connected_stage frames rounds fuel mode password index substream)
unfolding connected_stage
connected_stage-Reaches frames rounds fuel connecting password index substream =
    closing-Reaches exit_ok exit_ok-FitsCode
connected_stage-Reaches frames rounds fuel authenticating password index substream =
    login-Reaches frames rounds fuel authenticating password index substream
connected_stage-Reaches frames rounds fuel stream_test password index substream =
    login-Reaches frames rounds fuel stream_test password index substream
connected_stage-Reaches frames rounds fuel stream_stdout password index substream =
    login-Reaches frames rounds fuel stream_stdout password index substream

body-Ends :
    (frames rounds fuel : ℕ) (binding : Binding) (route : Option Text) (mode : Mode)
    (password : Option Text) (index : Option ℤ) (substream : ℕ) (p : Process)
    → Ends (body frames rounds fuel binding route mode password index substream p)
unfolding body
body-Ends frames rounds fuel binding route mode password index substream p =
    continue-Ends (on_session (connect fuel binding route 55000) p) _ (λ u.
      (connected_stage-Reaches frames rounds fuel mode password index substream).reaches _ refl)

-- A step returns, or raises an error that is no `CS2Error`.
abbrev Foreign : Result (Unit {0}) × Process → Type 0
Foreign (ok a, q) = Unit
Foreign (err e, q) = is_cs2_error e ≡ false

forgiven-Foreign : (r : Result (Unit {0}) × Process) → Foreign (forgiven r)
forgiven-Foreign (ok a, q) = tt
forgiven-Foreign (err e, q) = elim (Bool-cases (is_cs2_error e)) [
  | inl cs2 ↦ rw cs2 tt
  | inr other ↦ rw other other
]

stop_again-Foreign : (fuel : ℕ) (p : Process) → Foreign (stop_again fuel p)
unfolding stop_again
stop_again-Foreign fuel p =
    elim (Bool-cases (p.summary.stream_start_sent && not p.summary.stream_stop_sent)) [
      | inl again ↦ rw again (forgiven-Foreign _)
      | inr quiet ↦ rw quiet tt
    ]

continue-Exits :
    (r : Result (Unit {0}) × Process) (k : Unit {0} → Action Process ℕ)
    → Foreign r
    → ((u : Unit {0}) (p : Process) → Exits (k u p))
    → Exits (continue r k)
continue-Exits (ok a, q) k h next = next a q
continue-Exits (err e, q) k h next = h

recover-Exits : (fuel : ℕ) (e : Error) (p : Process) → Exits (recover fuel e p)
unfolding recover
recover-Exits fuel e p =
    let q = (report (record_rejection e) p).1 in
    continue-Exits (stop_again fuel q) _ (stop_again-Foreign fuel q)
      (λ u r. close_with-Exits failure_code r (failure-FitsCode r.summary))

settle-Exits : (fuel : ℕ) (r : Result ℕ × Process) → Ends r → Exits (settle fuel r)
unfolding settle
settle-Exits fuel (ok code, p) h = h
settle-Exits fuel (err e, p) h = elim (Bool-cases (is_cs2_error e)) [
  | inl cs2 ↦ rw cs2 (recover-Exits fuel e p)
  | inr other ↦ rw other other
]

-- However a run of the helper goes, if it returns an exit code, the session is closed and the code is
-- 0, 4, 5 or 6: 0 only with a connected session, 4 only without one, and 5 only with a connected
-- session that is not authenticated. If it raises an error, that is no `CS2Error`.
pub run_process-Exits :
    (frames rounds fuel : ℕ) (binding : Binding) (route : Option Text) (mode : Mode)
    (password : Option Text) (index : Option ℤ) (substream : ℕ) (p : Process)
    → Exits (run_process frames rounds fuel binding route mode password index substream p)
unfolding run_process
run_process-Exits frames rounds fuel binding route mode password index substream p =
    settle-Exits fuel (body frames rounds fuel binding route mode password index substream p)
      (body-Ends frames rounds fuel binding route mode password index substream p)
