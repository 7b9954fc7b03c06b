-- ===== src/Fdc/Queues/Setup.antt =====
-- A configuration that is accepted: each verifier is reached through its own queue.
use tee_relay_client.Base.{
  true, false, List, [], ◌∷◌, length, Bytes, bytes_eq, nat_eq, ◌≡◌, ◌≢◌, inl, inr, ◌∙◌, Result, ok,
  Result-cases, arith,
}
use tee_relay_client.Base.Dict.{Dict, lookup, insert, lookup-insert, is_some}
use tee_relay_client.Fdc.Handler.{Responder}
use tee_relay_client.Fdc.Queues.{VerifierConfig, identifier_of, handler_loop, queue_loop}

module _ (hash : Bytes → Result Bytes) where
  -- What one round of `NewFDCHandler` found out about its verifier.
  pub record Round (seen : Dict Bytes Bytes) (verifiers : Dict Bytes Responder) (name : Bytes)
      (v : VerifierConfig) (rest : List (Bytes × VerifierConfig)) (out : Dict Bytes Responder)
      : Type 0 where
    pub identifier : Bytes
    pub identified : identifier_of hash v ≡ ok identifier
    pub unseen : is_some (lookup identifier seen) ≡ false
    pub named : (length v.att_type ≢ 0) × (length v.source_id ≢ 0)
    pub checked : v.server_check ≡ ok tt
    pub went_on :
        handler_loop hash (insert identifier name seen) (insert identifier v.server verifiers) rest
        ≡ ok out

  pub handler_loop-Round :
      (seen : Dict Bytes Bytes) (verifiers : Dict Bytes Responder) (name : Bytes)
      (v : VerifierConfig) (rest : List (Bytes × VerifierConfig)) (out : Dict Bytes Responder)
      → handler_loop hash seen verifiers ((name, v) ∷ rest) ≡ ok out
      → Round seen verifiers name v rest out
  unfolding handler_loop
  handler_loop-Round seen verifiers name v rest out h = elim (Result-cases (identifier_of hash v)) [
    | inl (id, e) ↦ elim (Result-cases v.server_check) [
      | inl (tt, checked) ↦ record {
        identifier = id;
        identified = e;
        unseen = ground arith;
        named = (ground arith, ground arith);
        checked = checked;
        went_on = ground arith;
      }
      | inr bad ↦ absurd (ground arith)
    ]
    | inr bad ↦ absurd (ground arith)
  ]

  -- No verifier of the list has the identifier.
  abbrev pub Absent : Bytes → List (Bytes × VerifierConfig) → Type 0
  Absent id [] = Unit
  Absent id ((name, v) ∷ rest) = (identifier_of hash v ≢ ok id) × Absent id rest

  pub handler_loop-Absent :
      (rest : List (Bytes × VerifierConfig)) (seen : Dict Bytes Bytes)
      (verifiers : Dict Bytes Responder) (out : Dict Bytes Responder) (id : Bytes)
      → handler_loop hash seen verifiers rest ≡ ok out
      → is_some (lookup id seen) ≡ true
      → Absent id rest
  handler_loop-Absent [] seen verifiers out id h s = tt
  handler_loop-Absent ((name, v) ∷ rest) seen verifiers out id h s =
      let r = handler_loop-Round seen verifiers name v rest out h in
      (
        λ e. ground (arith, r.identified, r.unseen),
        handler_loop-Absent rest _ _ out id r.went_on
            (ground (arith, lookup-insert id r.identifier name seen)),
      )

  pub handler_loop-kept :
      (rest : List (Bytes × VerifierConfig)) (seen : Dict Bytes Bytes)
      (verifiers : Dict Bytes Responder) (out : Dict Bytes Responder) (id : Bytes)
      → handler_loop hash seen verifiers rest ≡ ok out
      → Absent id rest
      → lookup id out ≡ lookup id verifiers
  unfolding handler_loop
  handler_loop-kept [] seen verifiers out id h a = ground arith
  handler_loop-kept ((name, v) ∷ rest) seen verifiers out id h (a, as') =
      let r = handler_loop-Round seen verifiers name v rest out h in
      handler_loop-kept rest _ _ out id r.went_on as'
      ∙ ground (arith, lookup-insert id r.identifier v.server verifiers, r.identified)

  pub queue_loop-kept :
      {Q : Type 0} (queues : Dict Bytes Q) (rest : List (Bytes × VerifierConfig))
      (names out : Dict Bytes Bytes) (id : Bytes)
      → queue_loop hash queues names rest ≡ ok out
      → Absent id rest
      → lookup id out ≡ lookup id names
  unfolding queue_loop
  queue_loop-kept queues [] names out id h a = ground arith
  queue_loop-kept queues ((name, v) ∷ rest) names out id h (a, as') =
      elim (Result-cases (identifier_of hash v)) [
        | inl (i, e) ↦
            queue_loop-kept queues rest (insert i v.queue_name names) out id (ground arith) as'
            ∙ ground (arith, lookup-insert id i v.queue_name names)
        | inr bad ↦ absurd (ground arith)
      ]
