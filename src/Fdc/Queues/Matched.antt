-- ===== src/Fdc/Queues/Matched.antt =====
-- Which entry of the configuration the verifier of a request comes from.
use mathlib.Core.List.{append-nil}
use tee_relay_client.Base.{
  ℕ, zero, suc, List, [], ◌∷◌, ◌++◌, length, take, drop, replicate, get_elem?, copy, Bytes,
  bytes_eq, some, ◌≡◌, ◌⊎◌, inl, inr, refl, ap, ◌∙◌, sym, Result, ok, Result-cases, arith,
}
use tee_relay_client.Base.Dict.{Dict, lookup, insert, lookup-insert}
use tee_relay_client.Instruction.{World}
use tee_relay_client.Processor.{Env, Processor}
use tee_relay_client.Fdc.Verifier.{Request}
use tee_relay_client.Fdc.Handler.{Responder, FdcLib, att_type_and_source_id}
use tee_relay_client.Fdc.Handler.Laws.{Selected}
use tee_relay_client.Fdc.Queues.{
  VerifierConfig, Fdc, FdcConfig, join_att_type_and_source_id, identifier_of, handler_loop, new_fdc,
}
use tee_relay_client.Fdc.Queues.Setup.{handler_loop-Round}
use tee_relay_client.Fdc.Queues.Served.{new_fdc_loops}

take_all : {A : Type 0} (n : ℕ) (l : List A) → length l ≡ n → take n l ≡ l
take_all zero [] h = refl
take_all zero (x ∷ l) h = absurd (omega arith)
take_all (suc n) [] h = absurd (omega arith)
take_all (suc n) (x ∷ l) h = ap (λ r. x ∷ r) (take_all n l (omega arith))

drop_all : {A : Type 0} (n : ℕ) (l : List A) → length l ≡ n → drop n l ≡ []
drop_all zero [] h = refl
drop_all zero (x ∷ l) h = absurd (omega arith)
drop_all (suc n) [] h = absurd (omega arith)
drop_all (suc n) (x ∷ l) h = drop_all n l (omega arith)

-- A copy over the whole of the destination.
pub copy_whole : (dst src : Bytes) → length src ≡ length dst → copy dst src ≡ src
copy_whole dst src h =
    rw (take_all (length dst) src h, drop_all (length src) dst (sym h)) (append-nil src)

append_inj :
    {A : Type 0} (a b c d : List A) → length a ≡ length c → a ++ b ≡ c ++ d → (a ≡ c) × (b ≡ d)
append_inj [] b [] d h e = (refl, e)
append_inj [] b (y ∷ c) d h e = absurd (omega arith)
append_inj (x ∷ a) b [] d h e = absurd (omega arith)
append_inj (x ∷ a) b (y ∷ c) d h e =
    let both = append_inj a b c d (omega arith) cc in (ground (arith, both), both.1)

-- The identifier of a request's header, and the one of two hashes.
abbrev joined : Bytes → Bytes → Bytes
joined a b = copy (replicate 32 0) a ++ copy (replicate 32 0) b

joined_inj :
    (a b c d : Bytes)
    → length a ≡ 32
    → length b ≡ 32
    → length c ≡ 32
    → length d ≡ 32
    → joined a b ≡ joined c d
    → (a ≡ c) × (b ≡ d)
joined_inj a b c d ha hb hc hd e =
    append_inj a b c d (omega arith) (sym (whole a b ha hb) ∙ e ∙ whole c d hc hd)
  where
    whole : (x y : Bytes) → length x ≡ 32 → length y ≡ 32 → joined x y ≡ x ++ y
    whole x y hx hy = rw (copy_whole (replicate 32 0) x hx, copy_whole (replicate 32 0) y hy) refl

module _ (hash : Bytes → Result Bytes) where
  -- An entry of the configuration with the identifier, and its server.
  abbrev Configured : Bytes → Responder → List (Bytes × VerifierConfig) → Type 0
  Configured id r rest =
      (i : ℕ) × (name : Bytes) × (v : VerifierConfig) × (get_elem? rest i ≡ some (name, v))
      × (identifier_of hash v ≡ ok id)
      × (v.server ≡ r)

  handler_loop-Configured :
      (rest : List (Bytes × VerifierConfig)) (seen : Dict Bytes Bytes)
      (verifiers out : Dict Bytes Responder) (id : Bytes) (r : Responder)
      → handler_loop hash seen verifiers rest ≡ ok out
      → lookup id out ≡ some r
      → (lookup id verifiers ≡ some r) ⊎ Configured id r rest
  unfolding handler_loop
  handler_loop-Configured [] seen verifiers out id r h l = inl (ground arith)
  handler_loop-Configured ((name, v) ∷ rest) seen verifiers out id r h l =
      let d = handler_loop-Round hash seen verifiers name v rest out h in
      elim (handler_loop-Configured rest _ _ out id r d.went_on l) [
        | inr (i, n, u, at', e, q) ↦ inr (suc i, n, u, at', e, q)
        | inl now ↦ elim (inserted id d.identifier v.server verifiers r now) [
          | inl (same, q) ↦ inr (0, name, v, refl, d.identified ∙ ap ok (sym same), q)
          | inr before ↦ inl before
        ]
      ]
    where
      inserted :
          (j k : Bytes) (x : Responder) (dict : Dict Bytes Responder) (y : Responder)
          → lookup j (insert k x dict) ≡ some y
          → ((j ≡ k) × (x ≡ y)) ⊎ (lookup j dict ≡ some y)
      inserted j k x dict y e = ground (arith, lookup-insert j k x dict)

  -- The hash of a string, and each of the fields of a request's header, have 32 bytes.
  pub record Sized (request : Request) : Type 0 where
    pub hashes : (s h : Bytes) → hash s ≡ ok h → length h ≡ 32
    pub attestation_type : length request.attestation_type ≡ 32
    pub source_id : length request.source_id ≡ 32

  -- The verifier's entry in the configuration, which names the request's type and source.
  pub record Matches (verifiers : List (Bytes × VerifierConfig)) (request : Request)
      (responder : Responder) : Type 0 where
    pub place : ℕ
    pub name : Bytes
    pub config : VerifierConfig
    pub listed : get_elem? verifiers place ≡ some (name, config)
    pub same_type : hash config.att_type ≡ ok request.attestation_type
    pub same_source : hash config.source_id ≡ ok request.source_id
    pub served : config.server ≡ responder

  identifier_of-joined :
      (v : VerifierConfig) (id : Bytes)
      → identifier_of hash v ≡ ok id
      → (a : Bytes) × (b : Bytes) × (hash v.att_type ≡ ok a)
        × (hash v.source_id ≡ ok b)
        × (id ≡ joined a b)
  unfolding join_att_type_and_source_id
  identifier_of-joined v id h = elim (Result-cases (hash v.att_type)) [
    | inl (a, e) ↦ elim (Result-cases (hash v.source_id)) [
      | inl (b, k) ↦ (a, b, e, k, ground arith)
      | inr bad ↦ absurd (ground arith)
    ]
    | inr bad ↦ absurd (ground arith)
  ]

  Configured-Matches :
      (verifiers : List (Bytes × VerifierConfig)) (request : Request) (responder : Responder)
      → Sized request
      → Configured (att_type_and_source_id request) responder verifiers
      → Matches verifiers request responder
  unfolding att_type_and_source_id
  Configured-Matches verifiers request responder z (i, name, v, at', e, q) =
      let (a, b, ea, eb, same) = identifier_of-joined v _ e in
      let (ta, tb) =
        joined_inj request.attestation_type request.source_id a b z.attestation_type z.source_id
          (z.hashes v.att_type a ea) (z.hashes v.source_id b eb) same in
      record {
        place = i;
        name = name;
        config = v;
        listed = at';
        same_type = rw ta ea;
        same_source = rw tb eb;
        served = q;
      }

  module _ {P Q : Type 0} (new_queue : P → Bytes → Q) where
    -- With hashes of 32 bytes, and a request whose header's fields have 32 bytes: the verifier
    -- that `Handle` finds in what `NewFDC` made is the server of an entry of the configuration
    -- whose type and source have the request's type and source as their hashes.
    pub new_fdc-Matches :
        (cfg : FdcConfig P) (base : Processor) (f : Fdc Q) (env : Env) (lib : FdcLib) (w : World)
        (s : Selected env lib f.handler w)
        → new_fdc new_queue hash (some cfg) base ≡ ok f
        → Sized s.request
        → Matches cfg.verifiers s.request s.verifier
    unfolding lookup
    new_fdc-Matches cfg base f env lib w s h z =
        let (k, _) = new_fdc_loops hash new_queue cfg base f h in
        elim (handler_loop-Configured cfg.verifiers [] [] _ _ s.verifier k s.listed) [
          | inl e ↦ absurd (ground arith)
          | inr c ↦ Configured-Matches cfg.verifiers s.request s.verifier z c
        ]
