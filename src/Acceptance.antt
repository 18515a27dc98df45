-- ===== src/Acceptance.antt =====
-- src/okam_native/acceptance.py: the gates that a release report must pass.
use okam_ha_native.Base.{
  Bool, true, false, List, [], ◌∷◌, ◌≡◌, ◌↔◌, refl, ap, Option, none, some, String, if◌then◌else◌,
  All, Bool-cases, inl, inr,
}
use okam_ha_native.Json.{
  Json, null, boolean, number, real, string, array, object, Members, get, is_true,
}

abbrev pub required_gates : List String
required_gates =
    "enumerate_one_shared_camera" ∷ "wake_physical_camera" ∷ "connect_physical_camera"
    ∷ "authenticate_camera" ∷ "receive_h264" ∷ "decode_stream" ∷ "create_snapshot"
    ∷ "idle_disconnect" ∷ "clean_shutdown" ∷ "runs_on_aarch64" ∷ "runs_on_amd64" ∷ "no_wine"
    ∷ "no_webviewer" ∷ "no_xvfb" ∷ []

-- The gates that fail, in their order.
pub failures_of : Members → List String → List String
failures_of gates [] = []
failures_of gates (name ∷ names) =
    let rest = failures_of gates names in if is_true (get name gates) then rest else name ∷ rest

abbrev passed : List String → Bool
passed [] = true
passed (name ∷ names) = false

evaluate_gates : Option Json → Bool × List String
unfolding failures_of
evaluate_gates (some (object gates)) =
    let failures = failures_of gates required_gates in (passed failures, failures)
evaluate_gates _ = (false, "missing gates object" ∷ [])

unfoldable pub evaluate : Members → Bool × List String
unfolding evaluate_gates
evaluate report = evaluate_gates (get "gates" report)

-- Every gate of the list is there, and true.
abbrev pub AllTrue : Members → List String → Type 0
AllTrue gates = All (λ name. get name gates ≡ some (boolean true))

is_true-eq : (v : Option Json) → is_true v ≡ true → v ≡ some (boolean true)
is_true-eq none h = absurd (cc h)
is_true-eq (some null) h = absurd (cc h)
is_true-eq (some (boolean true)) h = refl
is_true-eq (some (boolean false)) h = absurd (cc h)
is_true-eq (some (number n)) h = absurd (cc h)
is_true-eq (some (real s)) h = absurd (cc h)
is_true-eq (some (string s)) h = absurd (cc h)
is_true-eq (some (array l)) h = absurd (cc h)
is_true-eq (some (object m)) h = absurd (cc h)

passes-AllTrue :
    (gates : Members) (names : List String)
    → passed (failures_of gates names) ≡ true
    → AllTrue gates names
unfolding failures_of
passes-AllTrue gates [] h = tt
passes-AllTrue gates (name ∷ names) h = elim (Bool-cases (is_true (get name gates))) [
  | inl holds ↦ (is_true-eq (get name gates) holds, passes-AllTrue gates names (rw holds at h))
  | inr fails ↦ absurd (cc (rw fails at h))
]

AllTrue-passes :
    (gates : Members) (names : List String) → AllTrue gates names → failures_of gates names ≡ []
unfolding failures_of
AllTrue-passes gates [] h = refl
AllTrue-passes gates (name ∷ names) h = rw h.0 (AllTrue-passes gates names h.1)

gates-AllTrue :
    (v : Option Json)
    → (evaluate_gates v).0 ≡ true
    → (gates : Members) × (v ≡ some (object gates)) × AllTrue gates required_gates
unfolding evaluate_gates
gates-AllTrue none h = absurd (cc h)
gates-AllTrue (some null) h = absurd (cc h)
gates-AllTrue (some (boolean b)) h = absurd (cc h)
gates-AllTrue (some (number n)) h = absurd (cc h)
gates-AllTrue (some (real s)) h = absurd (cc h)
gates-AllTrue (some (string s)) h = absurd (cc h)
gates-AllTrue (some (array l)) h = absurd (cc h)
gates-AllTrue (some (object gates)) h = (gates, refl, passes-AllTrue gates required_gates h)

AllTrue-gates :
    (gates : Members) (v : Option Json)
    → v ≡ some (object gates)
    → AllTrue gates required_gates
    → (evaluate_gates v).0 ≡ true
unfolding evaluate_gates
AllTrue-gates gates v found all_true =
    rw found (ap passed (AllTrue-passes gates required_gates all_true))

-- A report passes exactly when its "gates" are an object in which every required gate is there and
-- true.
pub evaluate_exact :
    (report : Members)
    → ((evaluate report).0 ≡ true) ↔ (
        (gates : Members) × (get "gates" report ≡ some (object gates))
        × AllTrue gates required_gates)
unfolding evaluate
evaluate_exact report = (
  gates-AllTrue (get "gates" report),
  λ (gates, found, all_true). AllTrue-gates gates (get "gates" report) found all_true,
)
