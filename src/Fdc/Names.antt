-- ===== src/Fdc/Names.antt =====
-- internal/router/processors/fdc_handler.go: an identifier as text for errors and logs, and back to
-- its two halves.
use tee_relay_client.Base.{
  ℕ, zero, suc, ◌≤◌, Bool, false, ◌||◌, ltb, [], ◌∷◌, ◌++◌, length, take, drop, Bytes, replicate,
  if◌then◌else◌, ◌≡◌, inl, inr, refl, ap, Bool-cases, arith,
}
use tee_relay_client.Fdc.Verifier.{Request}
use tee_relay_client.Fdc.Handler.{att_type_and_source_id}
use tee_relay_client.Fdc.Queues.Matched.{copy_whole}

-- The loop's test: a byte that is not printable ASCII.
unfoldable pub has_unprintable : Bytes → Bool
has_unprintable [] = false
has_unprintable (b ∷ s) = let rest = has_unprintable s in ltb b 32 || ltb 126 b || rest

-- go-flare-common's `CommonHashToString`, which trims the zero bytes at the end, and go-ethereum's
-- `Hash.Hex`. `BytesToHash` keeps the 32 bytes of a half.
module _ (common_hash_to_string hex : Bytes → Bytes) where
  unfoldable pub ats_half : Bytes → Bytes
  ats_half half = let s = common_hash_to_string half in if has_unprintable s then hex half else s

  unfoldable pub ats_strings : Bytes → Bytes × Bytes
  unfolding ats_half
  ats_strings ats = (ats_half (take 32 ats), ats_half (drop 32 ats))

-- Every byte is a printable ASCII character.
abbrev pub Printable : Bytes → Type 0
Printable [] = Unit
Printable (b ∷ s) = (32 ≤ b) × (b ≤ 126) × Printable s

has_unprintable_lem : (s : Bytes) → has_unprintable s ≡ false → Printable s
unfolding has_unprintable
has_unprintable_lem [] h = tt
has_unprintable_lem (b ∷ s) h = ground (arith, has_unprintable_lem s)

take-append : (a b : Bytes) (n : ℕ) → length a ≡ n → take n (a ++ b) ≡ a
take-append [] b zero h = refl
take-append [] b (suc n) h = absurd (omega arith)
take-append (x ∷ a) b zero h = absurd (omega arith)
take-append (x ∷ a) b (suc n) h = ap (λ r. x ∷ r) (take-append a b n (omega arith))

drop-append : (a b : Bytes) (n : ℕ) → length a ≡ n → drop n (a ++ b) ≡ b
drop-append [] b zero h = refl
drop-append [] b (suc n) h = absurd (omega arith)
drop-append (x ∷ a) b zero h = absurd (omega arith)
drop-append (x ∷ a) b (suc n) h = drop-append a b n (omega arith)

module _ (common_hash_to_string hex : Bytes → Bytes) where
  ats_half-Printable :
      (half : Bytes)
      → ((s : Bytes) → Printable (hex s))
      → Printable (ats_half common_hash_to_string hex half)
  unfolding ats_half
  ats_half-Printable half h = elim (Bool-cases (has_unprintable (common_hash_to_string half))) [
    | inl b ↦ rw b (h half)
    | inr b ↦ rw b (has_unprintable_lem (common_hash_to_string half) b)
  ]

  -- Where `Hex` writes printable characters: the texts of an identifier, whatever bytes an
  -- instruction put into it, are printable ASCII.
  pub ats_strings-Printable :
      (ats : Bytes)
      → ((s : Bytes) → Printable (hex s))
      → let (att_type, source_id) = ats_strings common_hash_to_string hex ats in
        Printable att_type × Printable source_id
  unfolding ats_strings
  ats_strings-Printable ats h =
      (ats_half-Printable (take 32 ats) h, ats_half-Printable (drop 32 ats) h)

  -- For a request whose header's fields have 32 bytes, `atsStrings` takes the identifier that
  -- `AttTypeAndSourceID` built apart again: the texts are those of the request's attestation type
  -- and of its source.
  pub ats_strings-att_type_and_source_id :
      (request : Request)
      → length request.attestation_type ≡ 32
      → length request.source_id ≡ 32
      → ats_strings common_hash_to_string hex (att_type_and_source_id request) ≡ (
        ats_half common_hash_to_string hex request.attestation_type,
        ats_half common_hash_to_string hex request.source_id,
      )
  unfolding ats_strings att_type_and_source_id
  ats_strings-att_type_and_source_id request h k =
      rw
        (
          copy_whole (replicate 32 0) request.attestation_type h,
          copy_whole (replicate 32 0) request.source_id k,
          take-append request.attestation_type request.source_id 32 h,
          drop-append request.attestation_type request.source_id 32 h,
        )
        refl
