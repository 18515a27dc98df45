-- ===== src/Cs2/Channel/Write.antt =====
-- `write` ends, numbers its packets consecutively, and returns when all of them are acknowledged.
use okam_ha_native.Base.{
  ℕ, zero, suc, ◌+◌, ◌%◌, ◌≤◌, ◌<◌, List, [], ◌∷◌, ◌≢◌, refl, arith, Result, ok, err, out_of_fuel,
  length, ltb, Option, none, some,
}
use okam_ha_native.Base.Action.{Action, continue, check, modify, ◌>>=◌}
use okam_ha_native.Base.Bytes.{Bytes}
use okam_ha_native.Cs2.Address.{Endpoint}
use okam_ha_native.Cs2.Channel.{
  chunks, next_number, advance_sequence, remember, send_to, send_numbered, send_chunk, send_chunks,
  await_acks, write, write_valid,
}
use okam_ha_native.Cs2.Channel.Ends.{Advances, check_ends, not_connected, await_acks_ends}
use okam_ha_native.Cs2.Data.{data_packet}
use okam_ha_native.Cs2.Progress.{
  Tame, Tame-assertion, Tame-pure, Tame-bind, Tame-then, Tame-modify, Tame-send_clear,
  Tame-monotonic,
}
use okam_ha_native.Cs2.Session.{Cs2Session, monotonic, connected}

Tame-send_to : (o : Option Endpoint) (p : Bytes) → Tame (send_to o p)
unfolding send_to
Tame-send_to none p = Tame-assertion
Tame-send_to (some address) p = Tame-send_clear p address

Tame-send_numbered :
    (peer : Option Endpoint) (channel sequence : ℕ) (p : Bytes)
    → Tame (send_numbered peer channel sequence p)
unfolding send_numbered remember
Tame-send_numbered peer channel sequence p = Tame-then (send_to peer p) _ (Tame-send_to peer p) (
    Tame-bind monotonic _ Tame-monotonic (λ now.
      Tame-then (modify (remember channel sequence p now)) _
        (Tame-modify (remember channel sequence p now) (λ s. refl)) (Tame-pure sequence)))

Tame-send_chunk : (channel : ℕ) (chunk : Bytes) → Tame (send_chunk channel chunk)
unfolding send_chunk
Tame-send_chunk channel chunk =
    let tame = λ (s : Cs2Session).
      Tame-send_numbered s.peer channel (next_number channel s)
        (data_packet channel (next_number channel s) chunk) in
    record {
      onward = λ s.
          let o = (tame s).onward (advance_sequence channel s) in
          record { same_clock = o.same_clock; later = o.later };
      ends = λ s. (tame s).ends (advance_sequence channel s);
    }

Tame-send_chunks : (channel : ℕ) (cs : List Bytes) → Tame (send_chunks channel cs)
unfolding send_chunks
Tame-send_chunks channel [] = Tame-pure []
Tame-send_chunks channel (c ∷ cs) =
    Tame-bind (send_chunk channel c) _ (Tame-send_chunk channel c) (λ sequence.
      Tame-bind (send_chunks channel cs) _ (Tame-send_chunks channel cs)
        (λ sequences. Tame-pure (sequence ∷ sequences)))

await_from : ℕ → ℕ → ℕ → List ℕ → Action Cs2Session (Unit {0})
await_from fuel timeout channel sequences =
    monotonic >>= (λ start. await_acks fuel (start + timeout) channel sequences)

sent_ends :
    (fuel channel timeout limit : ℕ) (r : Result (List ℕ) × Cs2Session)
    → r.0 ≢ err out_of_fuel
    → Advances timeout limit r.1
    → 0 < fuel
    → limit ≤ fuel
    → (continue r (await_from fuel timeout channel)).0 ≢ err out_of_fuel
unfolding await_from
sent_ends fuel channel timeout limit (ok sequences, t) h e some_fuel enough =
    let start = t.world.clock_calls in
    await_acks_ends fuel (t.world.clock start + timeout) channel sequences (start + limit)
      (monotonic t).1 (λ n h. e start n h) some_fuel (omega (arith, enough))
sent_ends fuel channel timeout limit (err e', t) h e some_fuel enough = λ q. h (ground (arith, q))

write_valid_ends :
    (fuel channel : ℕ) (payload : Bytes) (timeout limit : ℕ) (s : Cs2Session)
    → Advances timeout limit s
    → 0 < fuel
    → limit ≤ fuel
    → (write_valid fuel channel payload timeout s).0 ≢ err out_of_fuel
unfolding write_valid await_from
write_valid_ends fuel channel payload timeout limit s e some_fuel enough =
    let tame = Tame-send_chunks channel (chunks payload) in
    sent_ends fuel channel timeout limit (send_chunks channel (chunks payload) s) (tame.ends s)
      (λ m n h. rw (tame.onward s).same_clock (e m n h)) some_fuel enough

-- `write` returns or raises, and its loop does not run on: when the clock advances by the timeout
-- within `limit` readings, as many rounds are enough.
pub write_ends :
    (fuel channel : ℕ) (payload : Bytes) (timeout limit : ℕ) (s : Cs2Session)
    → Advances timeout limit s
    → 0 < fuel
    → limit ≤ fuel
    → (write fuel channel payload timeout s).0 ≢ err out_of_fuel
unfolding write
write_ends fuel channel payload timeout limit s e some_fuel enough =
    let valid = write_valid fuel channel payload timeout in
    let inside = λ (t : Cs2Session). ltb channel (length t.channel_buffers) in
    check_ends (connected s) not_connected
      (λ t. continue (check (inside t) "P2P channel is invalid" t) (λ _. valid)) s
      (check_ends (inside s) "P2P channel is invalid" valid s
        (write_valid_ends fuel channel payload timeout limit s e some_fuel enough))

-- The `count` sequence numbers from `n` on.
abbrev pub numbers_from : ℕ → ℕ → List ℕ
numbers_from n zero = []
numbers_from n (suc count) = n ∷ numbers_from ((n + 1) % 65536) count
