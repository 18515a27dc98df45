-- ===== src/Cs2/Session/Counting.antt =====
-- The counters of a session, and `close`.
use okam_ha_native.Base.{
  ℕ, true, false, [], ◌∷◌, ◌≡◌, ◌∙◌, ap, arith, String, if◌then◌else◌, Bool-cases, inl, inr, ok,
}
use okam_ha_native.Cs2.Session.{Cs2Session, Counters, close, connected}
use text.Mathlib.Text.{◌==◌ as str_eq}

-- `counters.get(name, 0)`
unfoldable pub value_of : String → Counters → ℕ
value_of name [] = 0
value_of name ((k, v) ∷ m) = if str_eq k name then v else value_of name m

close_again : (s : Cs2Session) → s.closed ≡ true → close s ≡ (ok true, s)
unfolding close
close_again s closed = rw closed

close-closed : (s : Cs2Session) → (close s).1.closed ≡ true
unfolding close
close-closed s = elim (Bool-cases s.closed) [
  | inl closed ↦ ap (λ r. r.1.closed) (close_again s closed) ∙ closed
  | inr open_yet ↦ rw open_yet
]

-- `close` leaves a session that is closed for good: a second call changes nothing and says that
-- it is closed.
close_lem :
    (s : Cs2Session)
    → (connected (close s).1 ≡ false)
      × ((close s).1.closed ≡ true)
      × (close (close s).1 ≡ (ok true, (close s).1))
close_lem s =
    let closed = close-closed s in (ground (arith, closed), closed, close_again (close s).1 closed)
