-- ===== src/Cs2/Data/Ack.antt =====
-- Acknowledgements: `_handle_ack` forgets the pending packets that are named, and no others.
use okam_ha_native.Base.{
  ℕ, ◌+◌, ◌*◌, ◌%◌, ◌/◌, ◌≤◌, ◌<◌, Bool, true, not, ◌&&◌, List, [], ◌∷◌, ◌++◌, ◌≡◌, refl, ◌∙◌,
  arith, ◌==◌, length, any, All, ok,
}
use okam_ha_native.Base.Bytes.{Bytes, big2, from_big-big2}
use okam_ha_native.Cs2.Data.{is_pending, drop_pending, acknowledge, ack_is_valid, handle_ack}
use okam_ha_native.Cs2.Session.{Cs2Session, Pending}

-- The numbers of an acknowledgement on the wire, two bytes each.
abbrev pub number_bytes : List ℕ → Bytes
number_bytes [] = []
number_bytes (n ∷ ns) = n / 256 % 256 ∷ n % 256 ∷ number_bytes ns

-- An acknowledgement of `numbers`, with a header as `_handle_ack` reads it.
unfoldable pub ack_of : ℕ → List ℕ → Bytes
ack_of channel numbers =
    0xf1
    ∷ 0xd1
    ∷ (big2 (4 + length numbers * 2)
        ++ (0xd1 ∷ channel ∷ (big2 (length numbers) ++ number_bytes numbers)))

abbrev pub member : ℕ → List ℕ → Bool
member n ns = any (λ k. k == n) ns

is_pending-drop_pending :
    (channel sequence i j : ℕ) (pending : List Pending)
    → is_pending i j (drop_pending channel sequence pending)
      ≡ (is_pending i j pending && not (channel == i && sequence == j))
unfolding is_pending drop_pending
is_pending-drop_pending channel sequence i j [] = refl
is_pending-drop_pending channel sequence i j (e ∷ rest) =
    ground (arith, is_pending-drop_pending channel sequence i j rest)

is_pending-acknowledge :
    (channel i j : ℕ) (numbers : List ℕ) (pending : List Pending)
    → All (λ n. n < 65536) numbers
    → is_pending i j (acknowledge channel (length numbers) (number_bytes numbers) pending)
      ≡ (is_pending i j pending && not (channel == i && member j numbers))
unfolding acknowledge
is_pending-acknowledge channel i j [] pending h = ground arith
is_pending-acknowledge channel i j (n ∷ ns) pending h = rw (from_big-big2 n h.0) (
    is_pending-acknowledge channel i j ns (drop_pending channel n pending) h.1
    ∙ ground (arith, is_pending-drop_pending channel n i j pending))

length-number_bytes : (numbers : List ℕ) → length (number_bytes numbers) ≡ length numbers * 2
length-number_bytes [] = refl
length-number_bytes (n ∷ ns) = omega (arith, length-number_bytes ns)

ack_of-valid :
    (channel : ℕ) (numbers : List ℕ)
    → channel < 8
    → length numbers ≤ 512
    → ack_is_valid (0xd1 ∷ channel ∷ (big2 (length numbers) ++ number_bytes numbers)) ≡ true
unfolding ack_is_valid
ack_of-valid channel numbers h k =
    ground (arith, from_big-big2 (length numbers) (omega arith), length-number_bytes numbers)

-- An acknowledgement of up to 512 numbers on one of the eight channels is accepted, and a packet is
-- pending afterwards exactly if it was before and is not one of those that are named.
pub handle_ack_exact :
    (s : Cs2Session) (channel : ℕ) (numbers : List ℕ)
    → channel < 8
    → length numbers ≤ 512
    → All (λ n. n < 65536) numbers
    → ((handle_ack (ack_of channel numbers) s).0 ≡ ok tt)
      × ((i j : ℕ)
          → is_pending i j (handle_ack (ack_of channel numbers) s).1.pending
            ≡ (is_pending i j s.pending && not (channel == i && member j numbers)))
unfolding handle_ack ack_of
handle_ack_exact s channel numbers h k w = rw (ack_of-valid channel numbers h k) (
  refl,
  λ i j.
      rw (from_big-big2 (length numbers) (omega arith))
        (is_pending-acknowledge channel i j numbers s.pending w),
)
