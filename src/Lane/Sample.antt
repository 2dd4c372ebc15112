-- ===== src/Lane/Sample.antt =====
-- A channel on which the theorems are run: it takes messages while it is open and has room.
use hazshield_ingest.Prelude.{
  ℕ, ◌+◌, ◌-◌, ◌≡◌, refl, sym, Bool, true, false, ◌&&◌, Option, none, some, List, [], ◌∷◌, ◌++◌,
  append_assoc, ltb, if◌then◌else◌, arith, Bool-cases, inl, inr,
}
use hazshield_ingest.Lane.Interface.{Lane}
use hazshield_ingest.Lane.Receiver.{Receiver}

pub record Queue (A : Type 0) : Type 0 where
  pub open_end : Bool
  pub room : ℕ
  pub received : List A
  pub pending : List A

module _ (A : Type 0) where
  abbrev offer : Queue A → A → Bool × Queue A
  offer q a =
      if q.open_end && ltb 0 q.room
      then (true, record q { room = q.room - 1; pending = q.pending ++ (a ∷ []) })
      else (false, q)

  pub accepted-offer :
      (q : Queue A) (a : A)
      → (offer q a).1.received ++ (offer q a).1.pending
        ≡ (if (offer q a).0 then (q.received ++ q.pending) ++ (a ∷ []) else q.received ++ q.pending)
  accepted-offer q a = elim (Bool-cases (q.open_end && ltb 0 q.room)) [
    | inl fits ↦ rw fits (sym (append_assoc q.received q.pending (a ∷ [])))
    | inr full ↦ rw full refl
  ]

  pub received-offer : (q : Queue A) (a : A) → (offer q a).1.received ≡ q.received
  received-offer q a = ground arith

  abbrev take_out : Queue A → List A → Option (A × Queue A)
  take_out q [] = none
  take_out q (a ∷ rest) =
      some (a, record q { room = q.room + 1; received = q.received ++ (a ∷ []); pending = rest })

  pub take_out-some :
      (q : Queue A) (msgs : List A) (a : A) (q' : Queue A)
      → take_out q msgs ≡ some (a, q')
      → (q'.received ≡ q.received ++ (a ∷ [])) × (msgs ≡ a ∷ q'.pending)
  take_out-some q [] a q' h = cc
  take_out-some q (b ∷ rest) a q' h = ground (arith, h)

  pub take_out-none : (q : Queue A) (msgs : List A) → take_out q msgs ≡ none → msgs ≡ []
  take_out-none q [] h = refl
  take_out-none q (a ∷ rest) h = cc

abbrev pub bounded : (A : Type 0) → Lane A
bounded A = record {
  Chan = Queue A;
  capacity = λ q. q.room;
  send = offer A;
  try_send = offer A;
  accepted = λ q. q.received ++ q.pending;
  accepted-send = accepted-offer A;
  accepted-try_send = accepted-offer A;
}

abbrev pub bounded_rx : (A : Type 0) → Receiver (bounded A)
bounded_rx A = record {
  received = λ q. q.received;
  pending = λ q. q.pending;
  recv = λ q. take_out A q q.pending;
  accepted-split = λ q. refl;
  received-send = received-offer A;
  received-try_send = received-offer A;
  recv_some = λ q a q' h. take_out-some A q q.pending a q' h;
  recv_none = λ q h. take_out-none A q q.pending h;
}
