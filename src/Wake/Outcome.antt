-- ===== src/Wake/Outcome.antt =====
-- When `wake_camera` says that the camera was asked to wake up.
use okam_ha_native.Base.{
  ℕ, suc, ◌<◌, ◌≤◌, Bool, true, false, ◌||◌, List, [], ◌∷◌, ◌++◌, ◌≡◌, refl, ap, Option, none, some,
  ltb, ◌==◌, if◌then◌else◌, ok, length, arith, any,
}
use okam_ha_native.Base.Text.{Text}
use okam_ha_native.Wake.{gathered, wake_camera}

abbrev pub Outcome : Type 0
Outcome = Option (Bool × List Text)

-- The server has answered, and has taken the request.
abbrev pub answered : Outcome → Bool
answered none = false
answered (some o) = true

abbrev pub sent : Outcome → Bool
sent none = false
sent (some (taken, states)) = taken

abbrev pub count : (Outcome → Bool) → List Outcome → ℕ
count p [] = 0
count p (o ∷ os) = let rest = count p os in if p o then suc rest else rest

abbrev pub all_states : List Outcome → List Text
all_states [] = []
all_states (none ∷ os) = all_states os
all_states (some (taken, states) ∷ os) = states ++ all_states os

gathered-count : (os : List Outcome) → (gathered os).responsive_servers ≡ count answered os
unfolding gathered
gathered-count [] = refl
gathered-count (none ∷ os) = gathered-count os
gathered-count (some o ∷ os) = omega (arith, gathered-count os)

gathered-any : (os : List Outcome) → (gathered os).requested ≡ any sent os
unfolding gathered
gathered-any [] = refl
gathered-any (none ∷ os) = gathered-any os
gathered-any (some (taken, states) ∷ os) = ap (λ b. taken || b) (gathered-any os)

gathered-states : (os : List Outcome) → (gathered os).states ≡ all_states os
unfolding gathered
gathered-states [] = refl
gathered-states (none ∷ os) = gathered-states os
gathered-states (some (taken, states) ∷ os) = ap (λ t. states ++ t) (gathered-states os)

sent-answered : (os : List Outcome) → any sent os ≡ true → 0 < count answered os
sent-answered [] h = absurd (cc h)
sent-answered (none ∷ os) h = sent-answered os h
sent-answered (some o ∷ os) h = omega arith

-- If the identifier has 1 to 256 characters and some server took the request, the result is that it
-- was requested, with the states of all servers in their order and the number of servers that
-- answered, whatever the other servers did.
pub wake_camera_requested :
    (did : Text) (os : List Outcome)
    → 0 < length did
    → length did ≤ 256
    → any sent os ≡ true
    → wake_camera did os
      ≡ ok (record {
        requested = true;
        states = all_states os;
        responsive_servers = count answered os;
      })
unfolding wake_camera
wake_camera_requested did os h k taken =
    let some_answer = sent-answered os taken in
    let good : (length did == 0 || ltb 256 (length did)) ≡ false = ground arith in
    let reached : (count answered os == 0) ≡ false = ground arith in
    rw (good, gathered-count os, gathered-any os, gathered-states os, reached, taken) refl
