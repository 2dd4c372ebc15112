-- ===== src/Lane/Receiver.antt =====
-- The receiving end of a channel, where the sending end is a `Lane` that all senders share. `received`
-- lists what was taken out, `pending` what is in the channel.
use hazshield_ingest.Prelude.{
  ◌≡◌, ◌∙◌, sym, ap, Bool, true, false, Option, none, some, List, [], ◌∷◌, ◌++◌, append_assoc,
  if◌then◌else◌, append_cancel_left,
}
use hazshield_ingest.Lane.Interface.{Lane}

pub record Receiver {A : Type 0} (l : Lane A) : Type 0 where
  pub received : l.Chan → List A
  pub pending : l.Chan → List A
  -- `recv` when it would return a message; `none` when it would wait, or return `None` for a
  -- channel that is closed
  pub recv : l.Chan → Option (A × l.Chan)
  pub accepted-split : (c : l.Chan) → l.accepted c ≡ received c ++ pending c
  pub received-send : (c : l.Chan) (a : A) → received (l.send c a).1 ≡ received c
  pub received-try_send : (c : l.Chan) (a : A) → received (l.try_send c a).1 ≡ received c
  -- messages come out in the order in which they went in
  pub recv_some :
      (c : l.Chan) (a : A) (c' : l.Chan)
      → recv c ≡ some (a, c')
      → (received c' ≡ received c ++ (a ∷ [])) × (pending c ≡ a ∷ pending c')
  pub recv_none : (c : l.Chan) → recv c ≡ none → pending c ≡ []

module _ {A : Type 0} {l : Lane A} (r : Receiver l) where
  -- The messages of a channel that has taken one more, or that has refused it.
  pending-offer :
      (c c' : l.Chan) (a : A) (taken : Bool)
      → l.accepted c' ≡ (if taken then l.accepted c ++ (a ∷ []) else l.accepted c)
      → r.received c' ≡ r.received c
      → r.pending c' ≡ (if taken then r.pending c ++ (a ∷ []) else r.pending c)
  pending-offer c c' a true law same = append_cancel_left (r.received c) _ _ (
      ap (λ t. t ++ r.pending c') (sym same)
      ∙ sym (r.accepted-split c')
      ∙ law
      ∙ ap (λ t. t ++ (a ∷ [])) (r.accepted-split c)
      ∙ append_assoc (r.received c) (r.pending c) (a ∷ []))
  pending-offer c c' a false law same = append_cancel_left (r.received c) _ _ (
      ap (λ t. t ++ r.pending c') (sym same) ∙ sym (r.accepted-split c') ∙ law ∙ r.accepted-split c)

  pub pending-send :
      (c : l.Chan) (a : A)
      → r.pending (l.send c a).1 ≡ (if (l.send c a).0 then r.pending c ++ (a ∷ []) else r.pending c)
  pending-send c a = pending-offer c _ a _ (l.accepted-send c a) (r.received-send c a)

  pub pending-try_send :
      (c : l.Chan) (a : A)
      → r.pending (l.try_send c a).1
        ≡ (if (l.try_send c a).0 then r.pending c ++ (a ∷ []) else r.pending c)
  pending-try_send c a = pending-offer c _ a _ (l.accepted-try_send c a) (r.received-try_send c a)
