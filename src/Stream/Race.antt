-- ===== src/Stream/Race.antt =====
-- `_pump` of a process that has ended, when the next process was started before it could clean up.
use okam_ha_native.Base.{
  ap, ◌∙◌, ◌==◌, ℕ, Bool, true, false, List, [], ◌∷◌, ◌++◌, ◌≡◌, ◌≢◌, refl, arith, Option, none,
  some, ok, if◌then◌else◌,
}
use okam_ha_native.Base.Bytes.{Bytes}
use okam_ha_native.Base.Int.{ℤ}
use okam_ha_native.Json.{Json}
use okam_ha_native.Stream.{
  parse_summary_locked, subscribed, needs_start, Stream, Viewer, runs, start_locked, subscribe,
  acquire, on_exit, is_empty,
}

has_last : (viewers : List Viewer) (v : Viewer) → is_empty (viewers ++ (v ∷ [])) ≡ false
has_last [] v = refl
has_last (w ∷ viewers) v = refl

if-true : {A : Type 0} (b : Bool) (x y : A) → b ≡ true → (if b then x else y) ≡ x
if-true true x y h = refl
if-true false x y h = absurd (cc h)

if-false : {A : Type 0} (b : Bool) (x y : A) → b ≡ false → (if b then x else y) ≡ y
if-false true x y h = absurd (cc h)
if-false false x y h = refl

abbrev idle : Stream → Stream
idle s = record s { idle_timer = false }

acquire-started :
    (exited : ℕ → Bool) (p q id : ℕ) (s : Stream)
    → s.closed ≡ false
    → s.process ≡ some p
    → exited p ≡ true
    → acquire exited (runs q) id s ≡ subscribed id (start_locked (runs q) (idle s))
unfolding acquire
acquire-started exited p q id s open_yet old gone =
    let need : needs_start exited s.process ≡ true = rw old gone in
    if-false s.closed _ _ open_yet
    ∙ ap (subscribed id) (
        if-true (needs_start exited s.process) (start_locked (runs q) (idle s)) (ok tt, idle s)
          need)

-- A viewer that comes when process `p` has exited and process `q` is started for it loses its stream
-- when the thread of `p` cleans up afterwards: all viewers are dropped, although `q` runs on.
pub on_exit_stale :
    (exited : ℕ → Bool) (loads : Bytes → Option Json) (p q id : ℕ) (returncode : ℤ) (s : Stream)
    → s.closed ≡ false
    → s.process ≡ some p
    → exited p ≡ true
    → q ≢ p
    → (is_empty (acquire exited (runs q) id s).1.subscribers ≡ false)
      × ((on_exit loads p returncode (acquire exited (runs q) id s).1).subscribers ≡ [])
      × ((on_exit loads p returncode (acquire exited (runs q) id s).1).process ≡ some q)
unfolding on_exit parse_summary_locked start_locked subscribed subscribe
on_exit_stale exited loads p q id returncode s open_yet old gone new =
    rw (acquire-started exited p q id s open_yet old gone)
      (has_last s.subscribers _, refl, if-false (q == p) none (some q) (ground (arith, new)))
