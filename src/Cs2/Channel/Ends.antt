-- ===== src/Cs2/Channel/Ends.antt =====
-- The loops of `read_exact` and `write` end.
use okam_ha_native.Base.{
  ℕ, zero, suc, ◌+◌, ◌≤◌, ◌<◌, Bool, true, String, false, ◌&&◌, List, ◌≢◌, arith, Error, Result, ok,
  err, out_of_fuel, length, ltb, leb, Bool-cases, inl, inr,
}
use okam_ha_native.Base.Action.{Action, continue, check}
use okam_ha_native.Cs2.Channel.{
  turn, await_acks, await_bytes, any_pending, read_expired, acks_expired, buffer_of, take_bytes,
  read_exact, read_valid, max_frame_bytes,
}
use okam_ha_native.Cs2.Pump.{pump}
use okam_ha_native.Cs2.Pump.Turn.{Tame-pump}
use okam_ha_native.Cs2.Session.{Cs2Session, monotonic, connected}

-- The clock has reached `deadline` when it is read for the `limit`-th time, and stays past it.
abbrev pub Expires : ℕ → ℕ → Cs2Session → Type 0
Expires deadline limit s = (n : ℕ) → limit ≤ n → deadline ≤ s.world.clock n

pub then_ends :
    {A B : Type 0} (r : Result A × Cs2Session) (k : Action Cs2Session B)
    → r.0 ≢ err out_of_fuel
    → (k r.1).0 ≢ err out_of_fuel
    → (continue r (λ _. k)).0 ≢ err out_of_fuel
then_ends (ok a, t) k p q = q
then_ends (err e, t) k p q = λ same. p (ground (arith, same))

after_clock : Cs2Session → Cs2Session
after_clock s = (monotonic s).1

-- A round of either loop ends if the rounds after it do.
turn_ends :
    (deadline limit fuel : ℕ) (expired : Error) (go_on : Action Cs2Session (Unit {0}))
    (s : Cs2Session)
    → expired ≢ out_of_fuel
    → Expires deadline limit s
    → limit < suc fuel + s.world.clock_calls
    → ((t : Cs2Session)
        → Expires deadline limit t
        → 0 < fuel
        → limit < fuel + t.world.clock_calls
        → (go_on t).0 ≢ err out_of_fuel)
    → (turn deadline (s.world.clock s.world.clock_calls) expired go_on (monotonic s).1).0
      ≢ err out_of_fuel
unfolding turn
turn_ends deadline limit fuel expired go_on s other e enough rest =
    elim (Bool-cases (leb deadline (s.world.clock s.world.clock_calls))) [
      | inl late ↦ rw late (λ q. other (ground (arith, q)))
      | inr early ↦
          let o = Tame-pump.onward (monotonic s).1 in
          let t = (pump (monotonic s).1).1 in
          let later : s.world.clock_calls < limit = ground (arith, e s.world.clock_calls, early) in
          rw early (
            then_ends (pump (monotonic s).1) go_on (Tame-pump.ends (monotonic s).1) (
              rest t (λ n h. rw o.same_clock (e n h)) (omega (arith, later))
                (omega (arith, o.later, enough))))
    ]

-- `fuel` rounds are enough when the clock expires before they are over.
await_bytes_ends :
    (fuel deadline channel size limit : ℕ) (s : Cs2Session)
    → Expires deadline limit s
    → 0 < fuel
    → limit < fuel + s.world.clock_calls
    → (await_bytes fuel deadline channel size s).0 ≢ err out_of_fuel
unfolding await_bytes
await_bytes_ends zero deadline channel size limit s e some_fuel enough = absurd (omega arith)
await_bytes_ends (suc fuel) deadline channel size limit s e some_fuel enough =
    elim (Bool-cases (ltb (length (buffer_of channel s)) size)) [
      | inl short ↦ rw short (
          turn_ends deadline limit fuel read_expired (await_bytes fuel deadline channel size) s
            (λ q. cc q) e enough
            (λ t e' f n. await_bytes_ends fuel deadline channel size limit t e' f n))
      | inr long ↦ rw long (λ q. cc q)
    ]

pub await_acks_ends :
    (fuel deadline channel : ℕ) (sequences : List ℕ) (limit : ℕ) (s : Cs2Session)
    → Expires deadline limit s
    → 0 < fuel
    → limit < fuel + s.world.clock_calls
    → (await_acks fuel deadline channel sequences s).0 ≢ err out_of_fuel
unfolding await_acks
await_acks_ends zero deadline channel sequences limit s e some_fuel enough = absurd (omega arith)
await_acks_ends (suc fuel) deadline channel sequences limit s e some_fuel enough =
    elim (Bool-cases (any_pending channel sequences s.pending)) [
      | inl waits ↦ rw waits (
          turn_ends deadline limit fuel acks_expired (await_acks fuel deadline channel sequences) s
            (λ q. cc q) e enough
            (λ t e' f n. await_acks_ends fuel deadline channel sequences limit t e' f n))
      | inr acked ↦ rw acked (λ q. cc q)
    ]

abbrev pub not_connected : String
not_connected = "native P2P session is not connected"

abbrev pub bad_read : String
bad_read = "P2P read request is invalid"

pub check_ends :
    {A : Type 0} (b : Bool) (message : String) (k : Action Cs2Session A) (s : Cs2Session)
    → (k s).0 ≢ err out_of_fuel
    → (continue (check b message s) (λ _. k)).0 ≢ err out_of_fuel
check_ends true message k s h = h
check_ends false message k s h = λ q. cc q

-- While the clock is read `limit` times, `timeout` passes.
abbrev pub Advances : ℕ → ℕ → Cs2Session → Type 0
Advances timeout limit s = (m n : ℕ) → m + limit ≤ n → s.world.clock m + timeout ≤ s.world.clock n

read_valid_ends :
    (fuel channel size timeout limit : ℕ) (s : Cs2Session)
    → Advances timeout limit s
    → 0 < fuel
    → limit ≤ fuel
    → (read_valid fuel channel size timeout s).0 ≢ err out_of_fuel
unfolding read_valid take_bytes
read_valid_ends fuel channel size timeout limit s e some_fuel enough =
    let start = s.world.clock_calls in
    then_ends (await_bytes fuel (s.world.clock start + timeout) channel size (monotonic s).1)
      (take_bytes channel size)
      (await_bytes_ends fuel (s.world.clock start + timeout) channel size (start + limit)
        (monotonic s).1 (λ n h. e start n h) some_fuel (omega (arith, enough)))
      (λ q. cc q)

-- `read_exact` returns or raises, and its loop does not run on: when the clock advances by the
-- timeout within `limit` readings, as many rounds are enough.
pub read_exact_ends :
    (fuel channel size timeout limit : ℕ) (s : Cs2Session)
    → Advances timeout limit s
    → 0 < fuel
    → limit ≤ fuel
    → (read_exact fuel channel size timeout s).0 ≢ err out_of_fuel
unfolding read_exact
read_exact_ends fuel channel size timeout limit s e some_fuel enough =
    let valid = read_valid fuel channel size timeout in
    let inside =
      λ (t : Cs2Session). ltb channel (length t.channel_buffers) && leb size max_frame_bytes in
    check_ends (connected s) not_connected
      (λ t. continue (check (inside t) bad_read t) (λ _. valid)) s
      (check_ends (inside s) bad_read valid s
        (read_valid_ends fuel channel size timeout limit s e some_fuel enough))
