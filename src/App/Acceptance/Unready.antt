-- ===== src/App/Acceptance/Unready.antt =====
-- An acceptance run does not say that the camera is ready.
use okam_ha_native.Base.{
  ℕ, zero, suc, ◌+◌, Bool, true, false, List, [], ◌∷◌, ◌≡◌, refl, Option, none, some, String,
}
use okam_ha_native.Base.Action.{done}
use okam_ha_native.Base.Int.{ℤ, negsuc}
use okam_ha_native.Account.{AccountDevice}
use okam_ha_native.App.{OptionsFile, load_options, set_status}
use okam_ha_native.App.Acceptance.{
  no_session, enabled_status, enabled_in, test_of, Test, connect_test, auth_test, stream_test,
  snapshot_test, Attempts, Woken, woken_by, record_login, record_stream, judged, judge_connect,
  judge_login, judge_stream, judge_snapshot, probe, attempt, attempts_from, run_test, run_enabled,
  run_p2p_acceptance, require_credentials, Environment,
}
use okam_ha_native.App.Acceptance.Values.{
  stream_passed, login_status, granted_status, stream_status, waking_status, woken_status, count_of,
  connect_values, login_values, stream_values, snapshot_values,
}
use okam_ha_native.Json.{Json, Members, get}
use okam_ha_native.P2p.Field.{select_camera_password}
use okam_ha_native.P2p.Results.{AuthenticationResult, StreamProbeResult}
use okam_ha_native.App.Keeps.{
  Keeps, leaves, set_status-Keeps, bind-Keeps, lift-Keeps, if-Keeps, pure-Keeps, raise-Keeps,
}

pub record_login-Keeps : (r : AuthenticationResult) → Keeps (record_login r)
unfolding record_login
record_login-Keeps r =
    bind-Keeps (set_status (login_status r)) _ (set_status-Keeps (login_status r) refl) (λ u.
      if-Keeps r.authenticated (set_status granted_status) done
        (set_status-Keeps granted_status refl) (pure-Keeps tt))

record_stream-Keeps : (r : StreamProbeResult) → Keeps (record_stream r)
unfolding record_stream
record_stream-Keeps r = set_status-Keeps (stream_status r) refl

judged-Keeps :
    (passed : Bool) (values : List (String × Json)) (state : ℤ)
    → leaves values ≡ true
    → Keeps (judged passed values state)
judged-Keeps true values state h =
    bind-Keeps (set_status values) _ (set_status-Keeps values h) (λ u. pure-Keeps (true, state))
judged-Keeps false values state h = pure-Keeps (false, state)

probe-Keeps : (test : Test) (attempts : Attempts) (n : ℕ) → Keeps (probe test attempts n)
unfolding probe judge_connect judge_login judge_stream judge_snapshot
probe-Keeps connect_test attempts n =
    lift-Keeps (attempts.connecting n) (judge_connect n)
      (λ r. judged-Keeps _ (connect_values n) _ refl)
probe-Keeps auth_test attempts n = lift-Keeps (attempts.authenticating n) (judge_login n) (λ r.
    bind-Keeps (record_login r) _ (record_login-Keeps r)
      (λ u. judged-Keeps _ (login_values n r) _ refl))
probe-Keeps stream_test attempts n = lift-Keeps (attempts.streaming n) (judge_stream n) (λ r.
    bind-Keeps (record_login r.login) _ (record_login-Keeps r.login) (λ u.
      bind-Keeps (record_stream r) _ (record_stream-Keeps r)
        (λ t. judged-Keeps (stream_passed r) (stream_values n) r.login.connect_state refl)))
probe-Keeps snapshot_test attempts n = lift-Keeps (attempts.snapshot n) (judge_snapshot n) (λ r.
    bind-Keeps (record_login r.stream.login) _ (record_login-Keeps r.stream.login) (λ u.
      bind-Keeps (record_stream r.stream) _ (record_stream-Keeps r.stream) (λ t.
        judged-Keeps (stream_passed r.stream) (snapshot_values n r) r.stream.login.connect_state
          refl)))

attempt-Keeps :
    (test : Test) (attempts : Attempts) (n : ℕ) (woken : Woken)
    → Keeps (attempt test attempts n woken)
unfolding attempt
attempt-Keeps test attempts n (requested, servers) =
    bind-Keeps (set_status (waking_status n)) _ (set_status-Keeps (waking_status n) refl) (λ u.
      bind-Keeps (set_status (woken_status requested servers)) _
        (set_status-Keeps (woken_status requested servers) refl) (λ t. probe-Keeps test attempts n))

attempts_from-Keeps :
    (test : Test) (attempts : Attempts) (left n : ℕ) (woken : Woken) (last : ℤ)
    → Keeps (attempts_from test attempts left n woken last)
unfolding attempts_from
attempts_from-Keeps test attempts zero n woken last =
    bind-Keeps (set_status (count_of "connect_state" last ∷ [])) _
      (set_status-Keeps (count_of "connect_state" last ∷ []) refl) (λ u. raise-Keeps no_session)
attempts_from-Keeps test attempts (suc left) n woken last =
    let woken' = woken_by (attempts.wake n) woken in
    bind-Keeps (attempt test attempts n woken') _ (attempt-Keeps test attempts n woken') (λ tried.
      if-Keeps tried.0 done _ (pure-Keeps tt)
        (attempts_from-Keeps test attempts left (n + 1) woken' tried.1))

pub require_credentials-Keeps : (b : Bool) → Keeps (require_credentials b)
require_credentials-Keeps true = pure-Keeps tt
require_credentials-Keeps false = raise-Keeps _

run_enabled-Keeps :
    (env : Environment) (device : AccountDevice) (options : Members) (test : Option Test)
    → Keeps (run_enabled env device options test)
unfolding run_enabled run_test
run_enabled-Keeps env device options none = pure-Keeps tt
run_enabled-Keeps env device options (some test) =
    lift-Keeps
      (select_camera_password (some device.device_password) (get "camera_password" options)) _
      (λ camera_password.
        bind-Keeps (require_credentials env.has_credentials) _
          (require_credentials-Keeps env.has_credentials)
          (λ u. lift-Keeps (env.resolve_client_id device.uid) _ (λ client_id.
            lift-Keeps (env.get_service_parameter client_id) _ (λ service_parameter.
              attempts_from-Keeps test (env.attempts client_id service_parameter camera_password) 3
                1 (false, 0) (negsuc 0)))))

pub run_p2p_acceptance-Keeps :
    (env : Environment) (file : OptionsFile) (device : AccountDevice)
    → Keeps (run_p2p_acceptance env file device)
unfolding run_p2p_acceptance
run_p2p_acceptance-Keeps env file device = lift-Keeps (load_options file) _ (λ options.
    bind-Keeps (set_status (enabled_status (enabled_in options))) _
      (set_status-Keeps (enabled_status (enabled_in options)) refl)
      (λ u. run_enabled-Keeps env device options (test_of (enabled_in options))))
