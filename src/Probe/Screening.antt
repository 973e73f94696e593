-- ===== src/Probe/Screening.antt =====
-- The loop of `validate_probes`, and what it says of the batches of a submission.
use saimiris_gateway.Prelude.{
  ℕ, suc, ◌+◌, ◌<◌, ◌≤◌, String, Option, List, [], ◌∷◌, ◌≡◌, refl, ap, subst, ◌∙◌, inl, inr, ◌↔◌,
  arith, Result, ok, Result-cases, All, length,
}
use saimiris_gateway.Json.{Value}
use saimiris_gateway.Net.{IpAddr}
use saimiris_gateway.Probe.Wire.{Message}
use saimiris_gateway.Probe.{ProbeError, to_capnp, message_of, deserialize_json_to_capnp}
use saimiris_gateway.Probe.Validation.{validate_json_probe, validate_from, validate_probes}
use saimiris_gateway.Probe.Reading.{deserialize_json_to_capnp-from_json}
use saimiris_gateway.Probe.Acceptance.{validate_json_probe_iff}
use saimiris_gateway.Probe.Batch.{returned, deserialize_probes_batch, avg_probe_size}
use saimiris_gateway.Probe.Packing.{Packs}
use saimiris_gateway.Probe.Batching.{serialize_all, deserialize_probes_batch-Packs}

module _ (ip_from_str : String → Option IpAddr) where
  abbrev AllValid : List Value → Type 0
  AllValid = All (λ v. validate_json_probe ip_from_str v ≡ ok tt)

  validate_from_iff :
      (i : ℕ) (vs : List Value) → (validate_from ip_from_str i vs ≡ ok tt) ↔ AllValid vs
  unfolding validate_from
  validate_from_iff i [] = (λ h. tt, λ h. refl)
  validate_from_iff i (v ∷ vs) = elim (Result-cases (validate_json_probe ip_from_str v)) [
    | inr (e, k) ↦ (λ h. absurd (ground arith), λ h. absurd (ground arith))
    | inl (u, k) ↦ (
      λ h. (k, (validate_from_iff (i + 1) vs).0 (ground arith)),
      λ h. ground (arith, (validate_from_iff (i + 1) vs).1 h.1),
    )
  ]

  validate_probes_all : (vs : List Value) → validate_probes ip_from_str vs ≡ ok tt → AllValid vs
  unfolding validate_probes
  validate_probes_all [] h = tt
  validate_probes_all (v ∷ vs) h = (validate_from_iff 0 (v ∷ vs)).0 h

  module _ (write_message : Message → Result ProbeError (List ℕ))
      (encodes : (m : Message) → (bytes : List ℕ) × (write_message m ≡ ok bytes)) where
    valid_is_written :
        (v : Value)
        → validate_json_probe ip_from_str v ≡ ok tt
        → (bytes : List ℕ) × (deserialize_json_to_capnp ip_from_str write_message v ≡ ok bytes)
    unfolding to_capnp
    valid_is_written v h =
        let (p, read, _) = (validate_json_probe_iff ip_from_str v).0 h in
        elim (deserialize_json_to_capnp-from_json ip_from_str write_message v) [
          | inl e ↦ let (bytes, written) = encodes (message_of p) in (bytes, e ∙ rw read written)
          | inr (arr, _, refused, _) ↦ absurd (ground arith)
        ]

    all_written :
        (vs : List Value)
        → AllValid vs
        → (ms : List (List ℕ)) × (serialize_all ip_from_str write_message vs ≡ ok ms)
          × (length ms ≡ length vs)
    unfolding serialize_all
    all_written [] h = ([], refl, refl)
    all_written (v ∷ vs) (h, hs) =
        let (m, e) = valid_is_written v h in
        let (ms, es, count) = all_written vs hs in (m ∷ ms, rw (e, serialize_all, es), ap suc count)

    -- Probes that pass the validation of a submission are all sent on: with an encoder that writes at least a byte and does
    -- not fail and a limit of at least 64 bytes, every probe is serialized, and the batches are made
    -- without an error and cut these messages, one for each probe and in order, into groups of which one is over the limit only if
    -- it is a single message.
    pub validate_probes-Packs :
        (writes_bytes : (m : Message) (bytes : List ℕ)
          → write_message m ≡ ok bytes
          → 0 < length bytes)
        (vs : List Value) (max_batch_size : ℕ)
        → avg_probe_size ≤ max_batch_size
        → validate_probes ip_from_str vs ≡ ok tt
        → (ms bs : List (List ℕ)) × (serialize_all ip_from_str write_message vs ≡ ok ms)
          × (length ms ≡ length vs)
          × (deserialize_probes_batch ip_from_str write_message vs max_batch_size
              ≡ returned (ok bs))
          × Packs max_batch_size ms bs
    validate_probes-Packs writes_bytes vs max_batch_size enough h =
        let (ms, es, count) = all_written vs (validate_probes_all vs h) in
        elim (deserialize_probes_batch-Packs ip_from_str write_message writes_bytes vs
          max_batch_size enough) [
            | inl (x, failed, _) ↦ absurd cc
            | inr (ns, bs, same, made, packs) ↦
                let agree : ns ≡ ms = cc in
                (ms, bs, es, count, made, subst (λ l. Packs max_batch_size l bs) agree packs)
          ]
