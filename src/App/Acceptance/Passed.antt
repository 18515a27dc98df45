-- ===== src/App/Acceptance/Passed.antt =====
-- The acceptance run passes with the first attempt that passes, and fails when all three have failed.
use okam_ha_native.Base.{
  ℕ, zero, suc, ◌+◌, ◌<◌, Bool, true, false, List, ◌≡◌, refl, subst, ◌∙◌, Bool-cases, inl, inr,
  String, if◌then◌else◌, Result, err, ok, arith,
}
use okam_ha_native.Base.Action.{Action, lift, done, continue, ◌>>=◌, ◌>>◌}
use okam_ha_native.Base.Int.{ℤ}
use okam_ha_native.App.{App}
use okam_ha_native.App.Acceptance.{
  Test, connect_test, auth_test, stream_test, snapshot_test, Attempts, Woken, woken_by, judged,
  record_login, record_stream, judge_connect, judge_login, judge_stream, judge_snapshot, probe,
  attempt, no_session, attempts_from,
}
use okam_ha_native.App.Acceptance.Values.{
  connect_passed, login_passed, stream_passed, connect_values, login_values, stream_values,
  snapshot_values,
}
use okam_ha_native.Json.{Json}
use okam_ha_native.P2p.Results.{
  ConnectResult, AuthenticationResult, StreamProbeResult, SnapshotProbeResult,
}

abbrev pub mapped : {A : Type 0} → (A → Bool) → Result A → Result Bool
mapped f (ok a) = ok (f a)
mapped f (err e) = err e

-- Whether the test of an attempt passes, or what its probe raises.
abbrev pub verdict : Test → Attempts → ℕ → Result Bool
verdict connect_test a n = mapped connect_passed (a.connecting n)
verdict auth_test a n = mapped login_passed (a.authenticating n)
verdict stream_test a n = mapped stream_passed (a.streaming n)
verdict snapshot_test a n = mapped (λ r. stream_passed r.stream) (a.snapshot n)

-- What all attempts together come to.
abbrev pub overall : Test → Attempts → ℕ → ℕ → Result (Unit {0})
overall test a zero n = err no_session
overall test a (suc left) n = elim (verdict test a n) [
  | err e ↦ err e
  | ok passed ↦ let rest = overall test a left (n + 1) in if passed then ok tt else rest
]

-- The result of a step that tells whether its test passed.
abbrev pub told : Result (Bool × ℤ) × App → Result Bool
told (ok tried, s) = ok tried.0
told (err e, s) = err e

judged-told :
    (passed : Bool) (values : List (String × Json)) (state : ℤ) (s : App)
    → told (judged passed values state s) ≡ ok passed
judged-told true values state s = refl
judged-told false values state s = refl

pub record_login-returns : (r : AuthenticationResult) (s : App) → (record_login r s).0 ≡ ok tt
unfolding record_login
record_login-returns r s = elim (Bool-cases r.authenticated) [
  | inl granted ↦ rw granted refl
  | inr denied ↦ rw denied refl
]

continue-told :
    (r : Result (Unit {0}) × App) (k : Unit {0} → Action App (Bool × ℤ)) (b : Bool)
    → r.0 ≡ ok tt
    → ((s : App) → told (k tt s) ≡ ok b)
    → told (continue r k) ≡ ok b
continue-told (ok u, s) k b h next = next s
continue-told (err e, s) k b h next = absurd (cc h)

judge_stream-told :
    (n : ℕ) (r : StreamProbeResult) (s : App) → told (judge_stream n r s) ≡ ok (stream_passed r)
unfolding judge_stream record_stream
judge_stream-told n r s =
    continue-told (record_login r.login s)
      (λ u. record_stream r >> judged (stream_passed r) (stream_values n) r.login.connect_state)
      (stream_passed r) (record_login-returns r.login s)
      (λ t.
        judged-told (stream_passed r) (stream_values n) r.login.connect_state (record_stream r t).1)

judge_snapshot-told :
    (n : ℕ) (r : SnapshotProbeResult) (s : App)
    → told (judge_snapshot n r s) ≡ ok (stream_passed r.stream)
unfolding judge_snapshot record_stream
judge_snapshot-told n r s =
    continue-told (record_login r.stream.login s)
      (λ u.
        record_stream r.stream
        >> judged (stream_passed r.stream) (snapshot_values n r) r.stream.login.connect_state)
      (stream_passed r.stream) (record_login-returns r.stream.login s)
      (λ t.
        judged-told (stream_passed r.stream) (snapshot_values n r) r.stream.login.connect_state
          (record_stream r.stream t).1)

judge_login-told :
    (n : ℕ) (r : AuthenticationResult) (s : App) → told (judge_login n r s) ≡ ok (login_passed r)
unfolding judge_login
judge_login-told n r s =
    continue-told (record_login r s)
      (λ u. judged (login_passed r) (login_values n r) r.connect_state) (login_passed r)
      (record_login-returns r s)
      (λ t. judged-told (login_passed r) (login_values n r) r.connect_state t)

judge_connect-told :
    (n : ℕ) (r : ConnectResult) (s : App) → told (judge_connect n r s) ≡ ok (connect_passed r)
unfolding judge_connect
judge_connect-told n r s = judged-told (connect_passed r) (connect_values n) r.connect_state s

-- A probe and what is made of its result.
lift-told :
    {A : Type 0} (r : Result A) (judge : A → Action App (Bool × ℤ)) (passes : A → Bool) (s : App)
    → ((a : A) → told (judge a s) ≡ ok (passes a))
    → told ((lift r >>= judge) s) ≡ mapped passes r
lift-told (ok a) judge passes s h = h a
lift-told (err e) judge passes s h = refl

pub probe-verdict :
    (test : Test) (a : Attempts) (n : ℕ) (s : App) → told (probe test a n s) ≡ verdict test a n
unfolding probe
probe-verdict connect_test a n s =
    lift-told (a.connecting n) (judge_connect n) connect_passed s (λ r. judge_connect-told n r s)
probe-verdict auth_test a n s =
    lift-told (a.authenticating n) (judge_login n) login_passed s (λ r. judge_login-told n r s)
probe-verdict stream_test a n s =
    lift-told (a.streaming n) (judge_stream n) stream_passed s (λ r. judge_stream-told n r s)
probe-verdict snapshot_test a n s =
    lift-told (a.snapshot n) (judge_snapshot n) (λ r. stream_passed r.stream) s
      (λ r. judge_snapshot-told n r s)

pub attempt-verdict :
    (test : Test) (a : Attempts) (n : ℕ) (woken : Woken) (s : App)
    → told (attempt test a n woken s) ≡ verdict test a n
unfolding attempt
attempt-verdict test a n (requested, servers) s = probe-verdict test a n _

-- One attempt, and the next ones.
continue-overall :
    (r : Result (Bool × ℤ) × App) (v : Result Bool) (k : ℤ → Action App (Unit {0}))
    (rest : Result (Unit {0}))
    → told r ≡ v
    → ((state : ℤ) (s : App) → (k state s).0 ≡ rest)
    → (continue r (λ tried. if tried.0 then done else k tried.1)).0
      ≡ elim v [ err e ↦ err e | ok passed ↦ if passed then ok tt else rest ]
continue-overall (ok (true, state), s) v k rest h next = rw⁻¹ h refl
continue-overall (ok (false, state), s) v k rest h next = rw⁻¹ h (next state s)
continue-overall (err e, s) v k rest h next = rw⁻¹ h refl

-- The attempts come to what the verdicts of their tests come to: the run returns with the first
-- attempt whose test passes, raises what the first failing probe raises, and raises a `P2PError` when
-- the last test has not passed.
pub attempts_from-overall :
    (test : Test) (a : Attempts) (left n : ℕ) (woken : Woken) (last : ℤ) (s : App)
    → (attempts_from test a left n woken last s).0 ≡ overall test a left n
unfolding attempts_from
attempts_from-overall test a zero n woken last s = refl
attempts_from-overall test a (suc left) n woken last s =
    let woken' = woken_by (a.wake n) woken in
    continue-overall (attempt test a n woken' s) (verdict test a n)
      (λ state. attempts_from test a left (n + 1) woken' state) (overall test a left (n + 1))
      (attempt-verdict test a n woken' s)
      (λ state t. attempts_from-overall test a left (n + 1) woken' state t)

overall_passes :
    (test : Test) (a : Attempts) (left n k : ℕ)
    → k < left
    → ((j : ℕ) → j < k → verdict test a (n + j) ≡ ok false)
    → verdict test a (n + k) ≡ ok true
    → overall test a left n ≡ ok tt
overall_passes test a zero n k h failed passed = absurd (omega arith)
overall_passes test a (suc left) n zero h failed passed =
    let same : n + 0 ≡ n = omega arith in
    let here : verdict test a n ≡ ok true = subst (λ m. verdict test a m ≡ ok true) same passed in
    rw (here, overall) refl
overall_passes test a (suc left) n (suc k) h failed passed =
    let same : n + 0 ≡ n = omega arith in
    let here : verdict test a n ≡ ok false =
      subst (λ m. verdict test a m ≡ ok false) same (failed 0 (omega arith)) in
    let shift = λ (j : ℕ). add_suc n j in
    rw (here, overall)
      (overall_passes test a left (n + 1) k (omega arith)
        (λ j l. subst (λ m. verdict test a m ≡ ok false) (shift j) (failed (suc j) (omega arith)))
        (subst (λ m. verdict test a m ≡ ok true) (shift k) passed))
  where
    add_suc : (n j : ℕ) → n + suc j ≡ n + 1 + j
    add_suc n j = omega arith

-- If the test of one of the attempts passes, and the ones before it have failed without an exception,
-- the run returns.
pub attempts_from_returns :
    (test : Test) (a : Attempts) (left n k : ℕ) (woken : Woken) (last : ℤ) (s : App)
    → k < left
    → ((j : ℕ) → j < k → verdict test a (n + j) ≡ ok false)
    → verdict test a (n + k) ≡ ok true
    → (attempts_from test a left n woken last s).0 ≡ ok tt
attempts_from_returns test a left n k woken last s h failed passed =
    attempts_from-overall test a left n woken last s
    ∙ overall_passes test a left n k h failed passed
