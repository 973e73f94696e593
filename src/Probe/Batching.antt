-- ===== src/Probe/Batching.antt =====
-- The batches of `deserialize_probes_batch` against the messages of the probes.
use saimiris_gateway.Prelude.{
  ℕ, ◌≤◌, ◌<◌, String, false, Option, List, [], ◌∷◌, ◌≡◌, refl, ◌⊎◌, inl, inr, ◌↔◌, arith, Result,
  ok, err, ◌>>=◌, >>=-eq-ok, Result-cases, All, subst, length, is_empty,
}
use saimiris_gateway.Json.{Value}
use saimiris_gateway.Net.{IpAddr}
use saimiris_gateway.Probe.Wire.{Message}
use saimiris_gateway.Probe.{ProbeError, deserialize_json_to_capnp}
use saimiris_gateway.Probe.Reading.{deserialize_json_to_capnp_written}
use saimiris_gateway.Probe.Batch.{
  returned, panicked, avg_probe_size, Batches, add_probe, finish, batch_loop,
  deserialize_probes_batch,
}
use saimiris_gateway.Probe.Packing.{Bytes, Packs, pack, pack-Packs, start, start-Holds}

module _ (ip_from_str : String → Option IpAddr)
    (write_message : Message → Result ProbeError (List ℕ)) where
  -- The messages of the probes in order, or the first error.
  unfoldable pub serialize_all : List Value → Result ProbeError (List Bytes)
  serialize_all [] = ok []
  serialize_all (v ∷ vs) =
      let rest = serialize_all vs in
      elim (deserialize_json_to_capnp ip_from_str write_message v) [
        | err e ↦ err e
        | ok m ↦ rest >>= λ ms. ok (m ∷ ms)
      ]

  batch_loop-serialize_all :
      (max_batch_size : ℕ) (vs : List Value) (b : Batches)
      → batch_loop ip_from_str write_message max_batch_size vs b
        ≡ (serialize_all vs >>= λ ms. ok (finish (pack max_batch_size ms b)))
  unfolding batch_loop serialize_all pack
  batch_loop-serialize_all max_batch_size [] b = refl
  batch_loop-serialize_all max_batch_size (v ∷ vs) b =
      elim (Result-cases (deserialize_json_to_capnp ip_from_str write_message v)) [
        | inr (e, h) ↦ rw (h, batch_loop, serialize_all)
        | inl (m, h) ↦
            rw (h, batch_loop, serialize_all)
              (ground
                (arith, batch_loop-serialize_all max_batch_size vs (add_probe max_batch_size m b)))
      ]

  batches_lem :
      (vs : List Value) (max_batch_size : ℕ)
      → avg_probe_size ≤ max_batch_size
      → deserialize_probes_batch ip_from_str write_message vs max_batch_size
        ≡ returned (batch_loop ip_from_str write_message max_batch_size vs start)
  unfolding deserialize_probes_batch batch_loop
  batches_lem [] max_batch_size h = refl
  batches_lem (v ∷ vs) max_batch_size h = ground arith

  module _
      (writes_bytes : (m : Message) (bytes : Bytes)
        → write_message m ≡ ok bytes
        → 0 < length bytes) where
    serialize_all_nonempty :
        (vs : List Value) (ms : List Bytes) → serialize_all vs ≡ ok ms → All (λ m. 0 < length m) ms
    unfolding serialize_all
    serialize_all_nonempty [] [] h = tt
    serialize_all_nonempty [] (m ∷ ms) h = cc
    serialize_all_nonempty (v ∷ vs) ms h =
        elim (Result-cases (deserialize_json_to_capnp ip_from_str write_message v)) [
          | inr (e, k) ↦ absurd (ground arith)
          | inl (m, k) ↦
              let (msg, w) = deserialize_json_to_capnp_written ip_from_str write_message v m k in
              let h' : (serialize_all vs >>= λ ns. ok (m ∷ ns)) ≡ ok ms = ground arith in
              let (ns, hn, eq) = >>=-eq-ok (serialize_all vs) _ h' in
              let same : m ∷ ns ≡ ms = cc in
              subst (All (λ x. 0 < length x)) same
                (writes_bytes msg m w, serialize_all_nonempty vs ns hn)
        ]

    -- The batches of any probes at a limit of at least 64 bytes, with an encoder that writes at
    -- least a byte: the first probe that is refused
    -- ends the call with its error; otherwise the messages, whole and in order, are cut into
    -- groups, a batch to each, and a batch is over the limit only if it is one message.
    pub deserialize_probes_batch-Packs :
        (vs : List Value) (max_batch_size : ℕ)
        → avg_probe_size ≤ max_batch_size
        → ((e : ProbeError) × (serialize_all vs ≡ err e)
            × (deserialize_probes_batch ip_from_str write_message vs max_batch_size
                ≡ returned (err e)))
          ⊎ ((ms : List Bytes) × (bs : List Bytes) × (serialize_all vs ≡ ok ms)
              × (deserialize_probes_batch ip_from_str write_message vs max_batch_size
                  ≡ returned (ok bs))
              × Packs max_batch_size ms bs)
    deserialize_probes_batch-Packs vs max_batch_size h = elim (Result-cases (serialize_all vs)) [
      | inr (e, k) ↦ inl (
        e,
        k,
        rw (batches_lem vs max_batch_size h, batch_loop-serialize_all max_batch_size vs start, k),
      )
      | inl (ms, k) ↦ inr (
        ms,
        finish (pack max_batch_size ms start),
        k,
        rw (batches_lem vs max_batch_size h, batch_loop-serialize_all max_batch_size vs start, k),
        pack-Packs max_batch_size ms start [] [] [] (serialize_all_nonempty vs ms k)
            (start-Holds max_batch_size) refl,
      )
    ]

  -- A limit below 64 bytes panics on every list of probes but the empty one, and no other call
  -- panics.
  pub deserialize_probes_batch-panicked :
      (vs : List Value) (max_batch_size : ℕ)
      → (deserialize_probes_batch ip_from_str write_message vs max_batch_size ≡ panicked)
        ↔ ((is_empty vs ≡ false) × (max_batch_size < avg_probe_size))
  unfolding deserialize_probes_batch
  deserialize_probes_batch-panicked vs max_batch_size = (λ h. ground arith, λ h. ground arith)
