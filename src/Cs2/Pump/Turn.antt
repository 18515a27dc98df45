-- ===== src/Cs2/Pump/Turn.antt =====
-- One turn of the session lets the clock go on, and ends.
use okam_ha_native.Base.{
  ℕ, Bool, false, List, [], ◌∷◌, refl, arith, Option, none, some, Bool-cases, inl, inr, err,
  assertion, String, take,
}
use okam_ha_native.Base.Action.{Action}
use okam_ha_native.Base.Bytes.{Bytes, equal}
use okam_ha_native.Base.Names.{hex}
use okam_ha_native.Cs2.Wire.{kind}
use okam_ha_native.Cs2.Address.{Endpoint}
use okam_ha_native.Cs2.Data.{drop_pending, handle_data, handle_ack, send_to_peer}
use okam_ha_native.Cs2.Progress.{
  Onward, Tame, Tame-state, Tame-modify, Tame-send_clear, Tame-then, Tame-bind, Tame-if, Tame-raise,
  Tame-pure, Tame-monotonic, Tame-assertion, Tame-receive_clear, Onward-refl, Onward-trans,
}
use okam_ha_native.Cs2.Pump.{
  alive_reply, ready_ack, ready_reply, mark_sent, retransmit_all, retransmit_to, retransmit,
  dispatch, Source, peer, drifted, other, handle_from, source_of, handle_received, pump,
}
use okam_ha_native.Cs2.Session.{
  Cs2Session, Pending, count, count_by, count_kind, send_clear, close_all, close, notified,
}

pub Tame-count : (n : ℕ) (name : String) → Tame (count_by n name)
Tame-count n name = Tame-modify _ (λ s. refl)

pub Tame-count_kind : (prefix name : String) → Tame (count_kind prefix name)
Tame-count_kind prefix name = Tame-modify _ (λ s. refl)

close_all-Onward :
    (targets : List Endpoint) (sent : Bool) (s : Cs2Session) → Onward s (close_all targets sent s).1
unfolding close_all
close_all-Onward [] sent s = Onward-refl s
close_all-Onward (e ∷ es) sent s =
    Onward-trans ((Tame-send_clear _ e).onward s) (close_all-Onward es _ _)

pub Tame-close : Tame close
unfolding close
Tame-close = record {
  onward = λ s. elim (Bool-cases s.closed) [
    | inl closed ↦ simp closed (Onward-refl s)
    | inr open_yet ↦
        let o = close_all-Onward (notified s) false s in
        simp open_yet (record { same_clock = o.same_clock; later = o.later })
  ];
  ends = λ s e. ground (arith, e);
}

Tame-send_to :
    (o : Option Endpoint) (p : Bytes)
    → Tame {A = Unit {0}} (λ t. elim o [ none ↦ (err assertion, t) | some e ↦ send_clear p e t ])
Tame-send_to none p = Tame-assertion
Tame-send_to (some e) p = Tame-send_clear p e

Tame-send_to_peer : (p : Bytes) → Tame (send_to_peer p)
Tame-send_to_peer p = record {
  onward = λ s. (Tame-send_to s.peer p).onward s;
  ends = λ s. (Tame-send_to s.peer p).ends s;
}

Tame-handle_data : (p : Bytes) → Tame (handle_data p)
unfolding handle_data
Tame-handle_data p =
    Tame-if _ _ _
      (Tame-then _ _ (Tame-count _ _) (
        Tame-then _ _ (Tame-count _ _)
          (Tame-then _ _ (Tame-send_to_peer _) (Tame-modify _ (λ s. refl)))))
      (Tame-count _ _)

Tame-handle_ack : (p : Bytes) → Tame (handle_ack p)
unfolding handle_ack
Tame-handle_ack p = Tame-if _ _ _ (Tame-modify _ (λ s. refl)) (Tame-pure tt)

Tame-dispatch : (p : Bytes) (address : Endpoint) → Tame (dispatch p address)
unfolding dispatch
Tame-dispatch p address =
    let counted = λ (name : String) (m : Action Cs2Session (Unit {0})) (tame : Tame m).
      Tame-then (count name) m (Tame-count 1 name) tame in
    let is = λ (b : ℕ). equal (take 2 p) (kind b) in
    Tame-if (is 0xe0) _ _ (counted "alive_requests" _ (Tame-send_clear alive_reply address)) (
      Tame-if (is 0x41) _ _
        (counted "punch_repeats" (λ s. send_clear (ready_reply s.uid) address s)
          (Tame-state (λ s. send_clear (ready_reply s.uid) address)
            (λ s. Tame-send_clear (ready_reply s.uid) address)))
        (Tame-if (is 0x42) _ _ (counted "readiness_requests" _ (Tame-send_clear ready_ack address))
          (Tame-if (is 0xd1) _ _ (counted "ack_packets" _ (Tame-handle_ack p)) (
            Tame-if (is 0xd0) _ _ (counted "data_packets" _ (Tame-handle_data p)) (
              Tame-if (is 0xf0) _ _
                (counted "close_packets" _ (
                  Tame-bind close _ Tame-close
                    (λ b. Tame-raise "camera closed the native P2P session")))
                (counted "other_packets" _ (Tame-count_kind "other_" (hex (take 2 p)))))))))

Tame-handle_from :
    (source : Source) (p : Bytes) (address : Endpoint) → Tame (handle_from source p address)
unfolding handle_from
Tame-handle_from peer p address = Tame-dispatch p address
Tame-handle_from drifted p address = Tame-then _ _ (Tame-count _ _) (Tame-dispatch p address)
Tame-handle_from other p address = Tame-count _ _

Tame-retransmit_all :
    (now : ℕ) (e : Endpoint) (entries : List Pending) → Tame (retransmit_all now e entries)
unfolding retransmit_all
Tame-retransmit_all now e [] = Tame-pure tt
Tame-retransmit_all now e (x ∷ rest) =
    let go_on = Tame-retransmit_all now e rest in
    Tame-if _ _ _ go_on (
      Tame-if _ _ _
        (Tame-then _ _
          (Tame-modify (λ s. record s { pending = drop_pending x.channel x.sequence s.pending })
            (λ s. refl))
          (Tame-raise _))
        (Tame-then _ _ (Tame-send_clear x.frame e) (
          Tame-then _ _ (Tame-count 1 "retransmits") (
            Tame-then _ _
              (Tame-modify (λ s. record s { pending = mark_sent now x s.pending }) (λ s. refl))
              go_on))))

Tame-retransmit_to : (o : Option Endpoint) → Tame (retransmit_to o)
unfolding retransmit_to
Tame-retransmit_to none = Tame-pure tt
Tame-retransmit_to (some e) =
    Tame-bind _ _ Tame-monotonic (λ now. Tame-state _ (λ s. Tame-retransmit_all now e s.pending))

Tame-handle_received : (r : Option (Bytes × Endpoint)) → Tame (handle_received r)
unfolding handle_received
Tame-handle_received none = Tame-pure tt
Tame-handle_received (some (p, address)) =
    Tame-then _ _ (Tame-count _ _)
      (Tame-state _ (λ s. Tame-handle_from (source_of s.peer address) p address))

pub Tame-pump : Tame pump
unfolding pump retransmit
Tame-pump =
    Tame-then _ _ (Tame-state _ (λ s. Tame-retransmit_to s.peer))
      (Tame-bind _ _ Tame-receive_clear Tame-handle_received)
