-- ===== src/App/Acceptance/Marked.antt =====
-- What the status says after an acceptance run that has passed.
use okam_ha_native.Base.{
  ℕ, zero, suc, ◌+◌, ◌<◌, Bool, true, false, List, [], ◌∷◌, ◌≡◌, sym, ◌∙◌, subst, All, arith,
  String, some, Result, err, ok, if◌then◌else◌,
}
use okam_ha_native.Base.Action.{Action, lift, done, continue, ◌>>=◌}
use okam_ha_native.Base.Int.{ℤ, pos}
use okam_ha_native.App.{App}
use okam_ha_native.App.Acceptance.{
  Test, connect_test, auth_test, stream_test, snapshot_test, Attempts, Woken, woken_by, judged,
  record_login, record_stream, judge_connect, judge_login, judge_stream, judge_snapshot, probe,
  attempt, attempts_from,
}
use okam_ha_native.App.Acceptance.Values.{
  connect_passed, login_passed, stream_passed, connect_values, login_values, stream_values,
  snapshot_values,
}
use okam_ha_native.App.Acceptance.Passed.{verdict, told, attempt-verdict, attempts_from_returns}
use okam_ha_native.Json.{Json, boolean, number, Members, get, update, get-put}
use okam_ha_native.P2p.Results.{AuthenticationResult, SnapshotProbeResult}

-- The flags that say that a test has passed.
abbrev pub passed_flags : Test → List String
passed_flags connect_test = "p2p_ready" ∷ []
passed_flags auth_test = "p2p_ready" ∷ "camera_authenticated" ∷ []
passed_flags stream_test = "h264_ready" ∷ []
passed_flags snapshot_test = "h264_ready" ∷ "snapshot_ready" ∷ []

-- The status says that the test has passed with attempt `n`.
abbrev pub Marked : Test → ℕ → Members → Type 0
Marked test n m =
    All (λ name. get name m ≡ some (boolean true)) (passed_flags test)
    × (get "connect_attempt" m ≡ some (number (pos n)))

connect_values-Marked : (n : ℕ) (m : Members) → Marked connect_test n (update (connect_values n) m)
connect_values-Marked n m = ((simp (get-put), tt), simp (get-put))

login_values-Marked :
    (n : ℕ) (r : AuthenticationResult) (m : Members)
    → Marked auth_test n (update (login_values n r) m)
login_values-Marked n r m = ((simp (get-put), (simp (get-put), tt)), simp (get-put))

stream_values-Marked : (n : ℕ) (m : Members) → Marked stream_test n (update (stream_values n) m)
stream_values-Marked n m = ((simp (get-put), tt), simp (get-put))

snapshot_values-Marked :
    (n : ℕ) (r : SnapshotProbeResult) (m : Members)
    → Marked snapshot_test n (update (snapshot_values n r) m)
snapshot_values-Marked n r m = ((simp (get-put), (simp (get-put), tt)), simp (get-put))

-- An action that leaves the status with the marks when it tells that the test has passed.
abbrev Marks : Test → ℕ → Result (Bool × ℤ) × App → Type 0
Marks test n r = told r ≡ ok true → Marked test n r.1.status

judged-Marks :
    (test : Test) (n : ℕ) (passed : Bool) (values : List (String × Json)) (state : ℤ) (s : App)
    → ((m : Members) → Marked test n (update values m))
    → Marks test n (judged passed values state s)
judged-Marks test n true values state s h told_true = h s.status
judged-Marks test n false values state s h told_true = absurd (cc told_true)

continue-Marks :
    (test : Test) (n : ℕ) (r : Result (Unit {0}) × App) (k : Unit {0} → Action App (Bool × ℤ))
    → ((s : App) → Marks test n (k tt s))
    → Marks test n (continue r k)
continue-Marks test n (ok u, s) k h = h s
continue-Marks test n (err e, s) k h = λ told_true. absurd (cc told_true)

lift-Marks :
    {A : Type 0} (test : Test) (n : ℕ) (r : Result A) (judge : A → Action App (Bool × ℤ)) (s : App)
    → ((a : A) → Marks test n (judge a s))
    → Marks test n ((lift r >>= judge) s)
lift-Marks test n (ok a) judge s h = h a
lift-Marks test n (err e) judge s h = λ told_true. absurd (cc told_true)

probe-Marks : (test : Test) (a : Attempts) (n : ℕ) (s : App) → Marks test n (probe test a n s)
unfolding probe judge_connect judge_login judge_stream judge_snapshot record_stream
probe-Marks connect_test a n s =
    lift-Marks connect_test n (a.connecting n) (judge_connect n) s (λ r.
      judged-Marks connect_test n (connect_passed r) (connect_values n) r.connect_state s
        (connect_values-Marked n))
probe-Marks auth_test a n s = lift-Marks auth_test n (a.authenticating n) (judge_login n) s (λ r.
    continue-Marks auth_test n (record_login r s) _ (λ t.
      judged-Marks auth_test n (login_passed r) (login_values n r) r.connect_state t
        (login_values-Marked n r)))
probe-Marks stream_test a n s = lift-Marks stream_test n (a.streaming n) (judge_stream n) s (λ r.
    continue-Marks stream_test n (record_login r.login s) _ (λ t.
      judged-Marks stream_test n (stream_passed r) (stream_values n) r.login.connect_state
        (record_stream r t).1 (stream_values-Marked n)))
probe-Marks snapshot_test a n s =
    lift-Marks snapshot_test n (a.snapshot n) (judge_snapshot n) s (λ r.
      continue-Marks snapshot_test n (record_login r.stream.login s) _ (λ t.
        judged-Marks snapshot_test n (stream_passed r.stream) (snapshot_values n r)
          r.stream.login.connect_state (record_stream r.stream t).1 (snapshot_values-Marked n r)))

attempt-Marks :
    (test : Test) (a : Attempts) (n : ℕ) (woken : Woken) (s : App)
    → Marks test n (attempt test a n woken s)
unfolding attempt
attempt-Marks test a n (requested, servers) s = probe-Marks test a n _

continue_passed :
    (test : Test) (n : ℕ) (r : Result (Bool × ℤ) × App) (k : ℤ → Action App (Unit {0}))
    → Marks test n r
    → told r ≡ ok true
    → Marked test n (continue r (λ tried. if tried.0 then done else k tried.1)).1.status
continue_passed test n (ok (true, state), s) k marks passed = marks passed
continue_passed test n (ok (false, state), s) k marks passed = absurd (cc passed)
continue_passed test n (err e, s) k marks passed = absurd (cc passed)

continue_failed :
    (P : App → Type 0) (r : Result (Bool × ℤ) × App) (k : ℤ → Action App (Unit {0}))
    → told r ≡ ok false
    → ((state : ℤ) (s : App) → P (k state s).1)
    → P (continue r (λ tried. if tried.0 then done else k tried.1)).1
continue_failed P (ok (false, state), s) k failed h = h state s
continue_failed P (ok (true, state), s) k failed h = absurd (cc failed)
continue_failed P (err e, s) k failed h = absurd (cc failed)

attempts_from-Marked :
    (test : Test) (a : Attempts) (left n k : ℕ) (woken : Woken) (last : ℤ) (s : App)
    → k < left
    → ((j : ℕ) → j < k → verdict test a (n + j) ≡ ok false)
    → verdict test a (n + k) ≡ ok true
    → Marked test (n + k) (attempts_from test a left n woken last s).1.status
unfolding attempts_from
attempts_from-Marked test a zero n k woken last s h failed passed = absurd (omega arith)
attempts_from-Marked test a (suc left) n zero woken last s h failed passed =
    let woken' = woken_by (a.wake n) woken in
    let tried = attempt test a n woken' s in
    let same : n + 0 ≡ n = omega arith in
    let here : verdict test a n ≡ ok true = subst (λ m. verdict test a m ≡ ok true) same passed in
    subst (λ m. Marked test m (attempts_from test a (suc left) n woken last s).1.status) (sym same)
      (continue_passed test n tried (λ state. attempts_from test a left (n + 1) woken' state)
        (attempt-Marks test a n woken' s) (attempt-verdict test a n woken' s ∙ here))
attempts_from-Marked test a (suc left) n (suc k) woken last s h failed passed =
    let woken' = woken_by (a.wake n) woken in
    let tried = attempt test a n woken' s in
    let same : n + 0 ≡ n = omega arith in
    let here : verdict test a n ≡ ok false =
      subst (λ m. verdict test a m ≡ ok false) same (failed 0 (omega arith)) in
    subst (λ m. Marked test m (attempts_from test a (suc left) n woken last s).1.status)
      (sym (add_suc n k))
      (continue_failed (λ t. Marked test (n + 1 + k) t.status) tried
        (λ state. attempts_from test a left (n + 1) woken' state)
        (attempt-verdict test a n woken' s ∙ here)
        (λ state t.
          attempts_from-Marked test a left (n + 1) k woken' state t (omega arith)
            (λ j l.
              subst (λ m. verdict test a m ≡ ok false) (add_suc n j) (failed (suc j) (omega arith)))
            (subst (λ m. verdict test a m ≡ ok true) (add_suc n k) passed)))
  where
    add_suc : (n j : ℕ) → n + suc j ≡ n + 1 + j
    add_suc n j = omega arith

-- If one of the attempts that are left passes its test, and the tests of the attempts before it have
-- failed without an exception, then the run returns, and the status says that the test has passed and
-- with which attempt.
pub attempts_from_passes :
    (test : Test) (a : Attempts) (left n k : ℕ) (woken : Woken) (last : ℤ) (s : App)
    → k < left
    → ((j : ℕ) → j < k → verdict test a (n + j) ≡ ok false)
    → verdict test a (n + k) ≡ ok true
    → ((attempts_from test a left n woken last s).0 ≡ ok tt)
      × Marked test (n + k) (attempts_from test a left n woken last s).1.status
attempts_from_passes test a left n k woken last s h failed passed = (
  attempts_from_returns test a left n k woken last s h failed passed,
  attempts_from-Marked test a left n k woken last s h failed passed,
)
