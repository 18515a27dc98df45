-- ===== src/Helper/Run/Codes.antt =====
-- What an exit code says, and that `_finish` is an exit.
use okam_ha_native.Base.{
  ℕ, Bool, true, false, not, ◌&&◌, [], ◌∷◌, ◌≡◌, inl, inr, refl, Bool-cases, arith, if◌then◌else◌,
  Result, err, ok, is_cs2_error, any, ◌==◌,
}
use okam_ha_native.Cs2.Session.{Cs2Session, close}
use okam_ha_native.Helper.Process.{Process, close_with}
use okam_ha_native.Helper.Run.{exit_ok, failure_code}
use okam_ha_native.Helper.Stream.{stream_code}
use okam_ha_native.Helper.Summary.{Summary}

-- What an exit code says of the two flags `connected` and `authenticated`.
pub record Says (code : ℕ) (connected authenticated : Bool) : Type 0 where
  pub success : code ≡ 0 → connected ≡ true
  pub not_connected : code ≡ 4 → connected ≡ false
  pub not_authenticated : code ≡ 5 → (connected ≡ true) × (authenticated ≡ false)
  pub known : any (λ c. c == code) (0 ∷ 4 ∷ 5 ∷ 6 ∷ []) ≡ true

pub record IsExit (code : ℕ) (p : Process) : Type 0 where
  pub closed : p.session.closed ≡ true
  pub says : Says code p.summary.connected p.summary.authenticated

-- Of a step that may raise: if it has returned, the process is at an exit.
abbrev pub Ends : Result ℕ × Process → Type 0
Ends (ok code, p) = IsExit code p
Ends (err e, p) = Unit

close-closed : (s : Cs2Session) → (close s).1.closed ≡ true
unfolding close
close-closed s = ground arith

-- `close_with` returns, and leaves an exit.
abbrev pub Exits : Result ℕ × Process → Type 0
Exits (ok code, p) = IsExit code p
Exits (err e, p) = is_cs2_error e ≡ false

module _ (code : Summary → ℕ) where
  pub FitsCode : Summary → Type 0
  FitsCode s = (d : Bool) → Says (code (record s { disconnected = d })) s.connected s.authenticated

  pub close_with-Exits : (p : Process) → FitsCode p.summary → Exits (close_with code p)
  unfolding close_with FitsCode close
  close_with-Exits p fits = elim (Bool-cases p.session.closed) [
    | inl closed ↦ rw closed (record { closed = refl; says = fits true })
    | inr open_yet ↦ rw open_yet (record { closed = refl; says = fits _ })
  ]

zero-Says : (a : Bool) → Says 0 true a
zero-Says a = record {
  success = λ h. refl;
  not_connected = λ h. absurd (cc h);
  not_authenticated = λ h. absurd (cc h);
  known = refl;
}

failure-Says : (c a : Bool) → Says (if not c then 4 else if not a then 5 else 6) c a
failure-Says false a = record {
  success = λ h. absurd (cc h);
  not_connected = λ h. refl;
  not_authenticated = λ h. absurd (cc h);
  known = refl;
}
failure-Says true false = record {
  success = λ h. refl;
  not_connected = λ h. absurd (cc h);
  not_authenticated = λ h. (refl, refl);
  known = refl;
}
failure-Says true true = record {
  success = λ h. refl;
  not_connected = λ h. absurd (cc h);
  not_authenticated = λ h. absurd (cc h);
  known = refl;
}

stream-Says : (a b : Bool) → Says (if b then 0 else 6) true a
stream-Says a true = zero-Says a
stream-Says a false = record {
  success = λ h. refl;
  not_connected = λ h. absurd (cc h);
  not_authenticated = λ h. absurd (cc h);
  known = refl;
}

pub failure-FitsCode : (s : Summary) → FitsCode failure_code s
unfolding FitsCode
failure-FitsCode s d = failure-Says s.connected s.authenticated

pub exit_ok-FitsCode : (s : Summary) → s.connected ≡ true → FitsCode exit_ok s
unfolding FitsCode
exit_ok-FitsCode s h d = rw h (zero-Says s.authenticated)

pub stream_code-FitsCode : (s : Summary) → s.connected ≡ true → FitsCode stream_code s
unfolding FitsCode
stream_code-FitsCode s h d =
    rw h (stream-Says s.authenticated (s.h264_received && s.stream_stop_sent))
