-- ===== src/Cs2/Data/Accept.antt =====
-- One payload on one channel: `accept` keeps the order, whatever number within the window comes.
use okam_ha_native.Base.{
  ℕ, suc, ◌+◌, ◌-◌, ◌%◌, ◌≤◌, ◌<◌, true, false, [], ◌∷◌, ◌++◌, ◌≡◌, sym, ◌∙◌, none, arith, ◌==◌,
  if◌then◌else◌, length, append_assoc, Bool-cases, inl, inr, length-append,
}
use okam_ha_native.Base.Bytes.{Bytes}
use okam_ha_native.Cs2.Data.{Inbound, lookup, keeps, accept}
use okam_ha_native.Cs2.Data.Drain.{lookup-append}
use okam_ha_native.Cs2.Data.Order.{Follows, InOrder, InWindow, early-suc, drain-InOrder}

-- What `keeps` tests, as facts.
kept_facts :
    (seq : ℕ) (c : Inbound)
    → keeps seq c ≡ true
    → (lookup seq c.waiting ≡ none)
      × (length c.waiting < 64)
      × (0 < (seq + 65536 - c.expected) % 65536)
      × ((seq + 65536 - c.expected) % 65536 < 0x8000)
unfolding keeps
kept_facts seq c h = ground arith

module _ (chunk : ℕ → Bytes) where
  -- The payload that is due joins the buffer.
  next-Follows :
      {taken : Bytes} {n : ℕ} {c : Inbound}
      → InOrder chunk taken n c
      → Follows chunk taken
          (suc n)
          (record c { buffer = c.buffer ++ chunk n; expected = (c.expected + 1) % 65536 })
  next-Follows {taken} {n} {c} o = record {
    next_number = omega (arith, o.follows.next_number);
    text = sym (append_assoc taken c.buffer (chunk n)) ∙ rw o.follows.text;
    early = λ seq b found.
        early-suc chunk (o.follows.early seq b found)
          (λ (e : seq ≡ n % 65536). cc (found, o.missing, e, o.follows.next_number));
  }

  -- An early payload is kept under its number.
  kept_early :
      {taken : Bytes} {n : ℕ} {c : Inbound} (i : ℕ)
      → InOrder chunk taken n c
      → n < i
      → i < n + 0x8000
      → lookup (i % 65536) c.waiting ≡ none
      → length c.waiting < 64
      → InOrder chunk taken n (record c { waiting = c.waiting ++ ((i % 65536, chunk i) ∷ []) })
  kept_early {taken} {n} {c} i o after near free room = record {
    follows = record {
      next_number = o.follows.next_number;
      text = o.follows.text;
      early = λ seq b found.
          let split = lookup-append seq (i % 65536) (chunk i) c.waiting free in
          elim (Bool-cases (i % 65536 == seq)) [
            | inl same ↦ record {
              index = i;
              after = omega arith;
              near = near;
              number = ground (arith, same);
              payload = ground (arith, split, same);
            }
            | inr other ↦ o.follows.early seq b (ground (arith, split, other))
          ];
    };
    missing = ground (
      arith,
      lookup-append c.expected (i % 65536) (chunk i) c.waiting,
      o.follows.next_number,
      o.missing,
    );
    few = omega (arith, length-append {0} c.waiting ((i % 65536, chunk i) ∷ []));
  }

  not_due :
      {taken : Bytes} {n : ℕ} {c : Inbound} (i : ℕ)
      → InOrder chunk taken n c
      → InWindow n i
      → (i % 65536 == c.expected) ≡ false
      → (m : ℕ) × (n ≤ m)
        × (m ≤ n + 65)
        × InOrder chunk taken m (
            if keeps (i % 65536) c
            then record c { waiting = c.waiting ++ ((i % 65536, chunk i) ∷ []) }
            else c)
  not_due {taken} {n} {c} i o w later = elim (Bool-cases (keeps (i % 65536) c)) [
    | inl kept ↦
        let (free, room, ahead, near) = kept_facts (i % 65536) c kept in
        let after : n < i = omega (arith, ahead, near, o.follows.next_number) in
        (n, omega arith, omega arith, rw kept (kept_early i o after w.0 free room))
    | inr dropped ↦ (n, omega arith, omega arith, rw dropped o)
  ]

  -- A payload within the window keeps the order, and `m` payloads are out behind it.
  pub accept-InOrder :
      {taken : Bytes} {n : ℕ} {c : Inbound} (i : ℕ)
      → InOrder chunk taken n c
      → InWindow n i
      → (m : ℕ) × (n ≤ m) × (m ≤ n + 65) × InOrder chunk taken m (accept (i % 65536) (chunk i) c)
  unfolding accept
  accept-InOrder {taken} {n} {c} i o w = elim (Bool-cases (i % 65536 == c.expected)) [
    | inl now ↦
        let same : i ≡ n = ground (arith, o.follows.next_number) in
        let (m, from, to, rest) =
          drain-InOrder chunk (length c.waiting) (omega arith) o.few (next-Follows o) in
        (m, omega (arith, from), omega (arith, to, o.few), rw (now, same) rest)
    | inr later ↦ rw later (not_due i o w later)
  ]
