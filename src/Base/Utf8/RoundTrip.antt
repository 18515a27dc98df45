-- ===== src/Base/Utf8/RoundTrip.antt =====
-- What UTF-8 writes is read back.
use okam_ha_native.Base.Bytes.{Bytes}
use okam_ha_native.Base.Tests.{Bool-cases, ltb→lt, ltb→le, ltb}
use okam_ha_native.Base.Text.{Text}
use Prim.Native.Nat.{ℕ, suc, ◌+◌, ◌*◌, ◌/◌, ◌%◌, ◌<◌, ◌≤◌}
use mathlib.Core.Path.{◌≡◌, refl, ap, subst, ◌∙◌}
use mathlib.Core.Logic.{inl, inr}
use mathlib.Core.Bool.{true}
use mathlib.Core.List.{[], ◌∷◌, ◌++◌}
use mathlib.Core.Option.{Option, none, some}
use native.Mathlib.Omega.{arith}
use okam_ha_native.Base.Utf8.{
  is_scalar, tail_byte, encode_point, cons_point, utf8_encode, Reading, boundary, inside, lead,
  step, prepend, decode_from, utf8_decode,
}

-- One tail byte that is not the last, and the last.
step_tail :
    (left bits least n : ℕ)
    → step (inside (suc left) bits least) (tail_byte n)
      ≡ some ([], inside left (bits * 64 + n % 64) least)
unfolding step
step_tail left bits least n = ground arith

step_last :
    (bits least n : ℕ)
    → least ≤ bits * 64 + n % 64
    → is_scalar (bits * 64 + n % 64) ≡ true
    → step (inside 0 bits least) (tail_byte n) ≡ some ((bits * 64 + n % 64) ∷ [], boundary)
unfolding step
step_last bits least n k h = ground arith

decode-step :
    (r next : Reading) (b : ℕ) (s out : Bytes)
    → step r b ≡ some (out, next)
    → decode_from r (b ∷ s) ≡ prepend out (decode_from next s)
unfolding decode_from
decode-step boundary next b s out h = rw (h, decode_from) refl
decode-step (inside left bits least) next b s out h = rw (h, decode_from) refl

prepend_none : (r : Option Text) → prepend [] r ≡ r
prepend_none none = refl
prepend_none (some cs) = refl

decode_tail :
    (left bits least n : ℕ) (s : Bytes)
    → decode_from (inside (suc left) bits least) (tail_byte n ∷ s)
      ≡ decode_from (inside left (bits * 64 + n % 64) least) s
decode_tail left bits least n s =
    decode-step _ _ _ s [] (step_tail left bits least n) ∙ prepend_none _

decode_last :
    (bits least n c : ℕ) (s : Bytes)
    → c ≡ bits * 64 + n % 64
    → least ≤ c
    → is_scalar c ≡ true
    → decode_from (inside 0 bits least) (tail_byte n ∷ s)
      ≡ prepend (c ∷ []) (decode_from boundary s)
decode_last bits least n c s e k h =
    decode-step _ _ _ s (c ∷ []) (rw e (step_last bits least n (rw e at k) (rw e at h)))

decode_lead :
    (b left bits least : ℕ) (s : Bytes)
    → lead b ≡ some ([], inside left bits least)
    → decode_from boundary (b ∷ s) ≡ decode_from (inside left bits least) s
unfolding step
decode_lead b left bits least s h = decode-step boundary _ b s [] h ∙ prepend_none _

two-lem :
    (c : ℕ) (s : Bytes)
    → is_scalar c ≡ true
    → 0x80 ≤ c
    → c < 0x800
    → decode_from boundary ((0xc0 + c / 64) ∷ tail_byte c ∷ s)
      ≡ prepend (c ∷ []) (decode_from boundary s)
unfolding lead
two-lem c s h k l =
    decode_lead (0xc0 + c / 64) 0 (c / 64) 0x80 _ (ground arith)
    ∙ decode_last (c / 64) 0x80 c c s (omega arith) k h

three-lem :
    (c : ℕ) (s : Bytes)
    → is_scalar c ≡ true
    → 0x800 ≤ c
    → c < 0x10000
    → decode_from boundary ((0xe0 + c / 4096) ∷ tail_byte (c / 64) ∷ tail_byte c ∷ s)
      ≡ prepend (c ∷ []) (decode_from boundary s)
unfolding lead
three-lem c s h k l =
    decode_lead (0xe0 + c / 4096) 1 (c / 4096) 0x800 _ (ground arith)
    ∙ (decode_tail 0 (c / 4096) 0x800 (c / 64) _ ∙ decode_last _ 0x800 c c s (omega arith) k h)

is_scalar-lt : (c : ℕ) → is_scalar c ≡ true → c < 0x110000
is_scalar-lt c h = ground arith

four-lem :
    (c : ℕ) (s : Bytes)
    → is_scalar c ≡ true
    → 0x10000 ≤ c
    → decode_from boundary
        ((0xf0 + c / 262144) ∷ tail_byte (c / 4096) ∷ tail_byte (c / 64) ∷ tail_byte c ∷ s)
      ≡ prepend (c ∷ []) (decode_from boundary s)
unfolding lead
four-lem c s h k =
    let bound = is_scalar-lt c h in
    decode_lead (0xf0 + c / 262144) 2 (c / 262144) 0x10000 _ (ground arith)
    ∙ (decode_tail 1 (c / 262144) 0x10000 (c / 4096) _
        ∙ (decode_tail 0 _ 0x10000 (c / 64) _ ∙ decode_last _ 0x10000 c c s (omega arith) k h))

decode-encode_point :
    (c : ℕ) (s : Bytes)
    → is_scalar c ≡ true
    → decode_from boundary (encode_point c ++ s) ≡ prepend (c ∷ []) (decode_from boundary s)
unfolding encode_point step
decode-encode_point c s h = elim (Bool-cases (ltb c 0x80)) [
  | inl one ↦ rw one (decode-step boundary boundary c s (c ∷ []) (rw one refl))
  | inr ge_one ↦ elim (Bool-cases (ltb c 0x800)) [
    | inl two ↦ rw (ge_one, two) (two-lem c s h (ltb→le c 0x80 ge_one) (ltb→lt c 0x800 two))
    | inr ge_two ↦ elim (Bool-cases (ltb c 0x10000)) [
      | inl three ↦
          rw (ge_one, ge_two, three)
            (three-lem c s h (ltb→le c 0x800 ge_two) (ltb→lt c 0x10000 three))
      | inr four ↦ rw (ge_one, ge_two, four) (four-lem c s h (ltb→le c 0x10000 four))
    ]
  ]
]

cons_point-some :
    (p b : Bytes) (r : Option Bytes)
    → cons_point p r ≡ some b
    → (q : Bytes) × (r ≡ some q) × (p ++ q ≡ b)
cons_point-some p b none h = absurd (cc h)
cons_point-some p b (some q) h = (q, refl, cc h)

encoded-cons :
    (c : ℕ) (cs : Text) (b : Bytes)
    → utf8_encode (c ∷ cs) ≡ some b
    → (q : Bytes) × (is_scalar c ≡ true) × (utf8_encode cs ≡ some q) × (encode_point c ++ q ≡ b)
unfolding utf8_encode
encoded-cons c cs b h = elim (Bool-cases (is_scalar c)) [
  | inr bad ↦ absurd (cc (rw bad at h))
  | inl good ↦
      let (q, rest, whole) = cons_point-some (encode_point c) b (utf8_encode cs) (rw good at h) in
      (q, good, rest, whole)
]

encoded-nil : (b : Bytes) → utf8_encode [] ≡ some b → [] ≡ b
unfolding utf8_encode
encoded-nil b h = cc h

-- What was encoded is read back.
pub decode-encode : (t : Text) (b : Bytes) → utf8_encode t ≡ some b → utf8_decode b ≡ some t
unfolding utf8_decode
decode-encode [] b h = subst (λ x. decode_from boundary x ≡ some []) (encoded-nil b h) refl
decode-encode (c ∷ cs) b h =
    let (q, good, rest, whole) = encoded-cons c cs b h in
    subst (λ x. decode_from boundary x ≡ some (c ∷ cs)) whole
      (decode-encode_point c q good ∙ ap (prepend (c ∷ [])) (decode-encode cs q rest))
