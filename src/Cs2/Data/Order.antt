-- ===== src/Cs2/Data/Order.antt =====
-- Reliable delivery on one channel: whatever the network does to the packets of the peer, the reader
-- gets their payloads once each and in order.
use okam_ha_native.Base.{
  ℕ, zero, suc, ◌+◌, ◌%◌, ◌≤◌, ◌<◌, [], ◌++◌, ◌≡◌, ◌≢◌, sym, ap, ◌∙◌, none, some, arith, length,
  append_assoc, Option-cases, inl, inr,
}
use okam_ha_native.Base.Bytes.{Bytes}
use okam_ha_native.Cs2.Data.{Inbound, lookup, drain}
use okam_ha_native.Cs2.Data.Drain.{
  lookup-remove-some, length-remove, next_round, drain_stops, drain_goes,
}

-- The number of payload `i` may come while `n` are out: it is one of the next 32768, or of the
-- 32768 before those.
abbrev pub InWindow : ℕ → ℕ → Type 0
InWindow n i = (i < n + 0x8000) × (n ≤ i + 0x8000)

-- `chunk i` is the i-th payload that the peer sends on the channel, under the number i mod 65536.
module _ (chunk : ℕ → Bytes) where
  -- The first `n` payloads, one behind the other.
  abbrev pub delivered : ℕ → Bytes
  delivered zero = []
  delivered (suc n) = delivered n ++ chunk n

  -- An early payload is one of the next 32768, under its own number.
  pub record IsEarly (n seq : ℕ) (b : Bytes) : Type 0 where
    pub index : ℕ
    pub after : n ≤ index
    pub near : index < n + 0x8000
    pub number : seq ≡ index % 65536
    pub payload : b ≡ chunk index

  -- `n` payloads have come out in order. What was read from the buffer before is `taken`.
  pub record Follows (taken : Bytes) (n : ℕ) (c : Inbound) : Type 0 where
    pub next_number : c.expected ≡ n % 65536
    pub text : taken ++ c.buffer ≡ delivered n
    pub early : (seq : ℕ) (b : Bytes) → lookup seq c.waiting ≡ some b → IsEarly n seq b

  -- At rest the next payload is not among the early ones, and those are 64 at most.
  pub record InOrder (taken : Bytes) (n : ℕ) (c : Inbound) : Type 0 where
    pub follows : Follows taken n c
    pub missing : lookup c.expected c.waiting ≡ none
    pub few : length c.waiting ≤ 64

  early_index : {n seq : ℕ} {b : Bytes} → IsEarly n seq b → seq ≡ n % 65536 → b ≡ chunk n
  early_index {n} e h = let same : e.index ≡ n = omega arith in e.payload ∙ ap chunk same

  pub early-suc :
      {n seq : ℕ} {b : Bytes} → IsEarly n seq b → seq ≢ n % 65536 → IsEarly (suc n) seq b
  early-suc {n} e h = record {
    index = e.index;
    after = omega arith;
    near = omega arith;
    number = e.number;
    payload = e.payload;
  }

  next_round-Follows :
      {taken : Bytes} {n : ℕ} {c : Inbound} (b : Bytes)
      → Follows taken n c
      → lookup c.expected c.waiting ≡ some b
      → Follows taken (suc n) (next_round b c)
  next_round-Follows {taken} {n} {c} b f h = record {
    next_number = omega (arith, f.next_number);
    text =
        sym (append_assoc taken c.buffer b)
        ∙ rw (f.text, early_index (f.early c.expected b h) f.next_number);
    early = λ seq v found.
        let (other, there) = lookup-remove-some c.expected seq c.waiting found in
        early-suc (f.early seq v there) (λ e. other (e ∙ sym f.next_number));
  }

  at_rest :
      (fuel : ℕ) {taken : Bytes} {n : ℕ} {c : Inbound}
      → length c.waiting ≤ 64
      → Follows taken n c
      → lookup c.expected c.waiting ≡ none
      → (m : ℕ) × (n ≤ m) × (m ≤ n + length c.waiting) × InOrder taken m (drain fuel c)
  at_rest fuel {n = n} {c = c} few f gone = (
    n,
    omega arith,
    omega arith,
    rw (drain_stops fuel c gone) (record { follows = f; missing = gone; few = few }),
  )

  -- The loop ends with the next payload missing, whatever was early.
  pub drain-InOrder :
      (fuel : ℕ) {taken : Bytes} {n : ℕ} {c : Inbound}
      → length c.waiting ≤ fuel
      → length c.waiting ≤ 64
      → Follows taken n c
      → (m : ℕ) × (n ≤ m) × (m ≤ n + length c.waiting) × InOrder taken m (drain fuel c)
  drain-InOrder zero {c = c} enough few f = elim (Option-cases (lookup c.expected c.waiting)) [
    | inl gone ↦ at_rest zero few f gone
    | inr (b, found) ↦ absurd (omega (arith, length-remove c.expected c.waiting b found))
  ]
  drain-InOrder (suc fuel) {c = c} enough few f =
      elim (Option-cases (lookup c.expected c.waiting)) [
        | inl gone ↦ at_rest (suc fuel) few f gone
        | inr (b, found) ↦
            let less = length-remove c.expected c.waiting b found in
            let (m, from, to, rest) =
              drain-InOrder fuel (omega (arith, less)) (omega (arith, less))
                (next_round-Follows b f found) in
            (m, omega (arith, from), omega (arith, to, less), rw (drain_goes fuel c b found) rest)
      ]
