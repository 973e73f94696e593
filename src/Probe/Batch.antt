-- ===== src/Probe/Batch.antt =====
-- `deserialize_probes_batch` of src/probe.rs. A division by zero panics. The capacities that are
-- reserved for the vectors have no effect on the result and are left out, but for the division in
-- the first of them.
use saimiris_gateway.Prelude.{
  ℕ, ◌+◌, ◌/◌, String, ◌&&◌, not, Option, List, [], ◌∷◌, ◌++◌, ltb, ◌==◌, length, is_empty,
  if◌then◌else◌, Result, ok, err,
}
use saimiris_gateway.Json.{Value}
use saimiris_gateway.Net.{IpAddr}
use saimiris_gateway.Probe.Wire.{Message}
use saimiris_gateway.Probe.{ProbeError, deserialize_json_to_capnp}

pub data Outcome : Type 0 where
  returned : Result ProbeError (List (List ℕ)) → Outcome
  panicked : Outcome

abbrev pub avg_probe_size : ℕ
avg_probe_size = 64

pub record Batches : Type 0 where
  pub batches : List (List ℕ)
  pub current_batch : List ℕ
  pub current_batch_size : ℕ

-- A full batch is pushed and a new one started.
unfoldable pub roll : ℕ → List ℕ → Batches → Batches
roll max_batch_size serialized b =
    if not (is_empty b.current_batch)
      && ltb max_batch_size (b.current_batch_size + length serialized)
    then record {
      batches = b.batches ++ b.current_batch ∷ [];
      current_batch = [];
      current_batch_size = 0;
    }
    else b

unfoldable pub add_probe : ℕ → List ℕ → Batches → Batches
add_probe max_batch_size serialized b =
    let r = roll max_batch_size serialized b in
    record r {
      current_batch = r.current_batch ++ serialized;
      current_batch_size = r.current_batch_size + length serialized;
    }

abbrev pub finish : Batches → List (List ℕ)
finish b = if is_empty b.current_batch then b.batches else b.batches ++ b.current_batch ∷ []

module _ (ip_from_str : String → Option IpAddr)
    (write_message : Message → Result ProbeError (List ℕ)) where
  unfoldable pub batch_loop : ℕ → List Value → Batches → Result ProbeError (List (List ℕ))
  batch_loop max_batch_size [] b = ok (finish b)
  batch_loop max_batch_size (probe_json ∷ json_probes) b =
      elim (deserialize_json_to_capnp ip_from_str write_message probe_json) [
        | ok serialized ↦
            batch_loop max_batch_size json_probes (add_probe max_batch_size serialized b)
        | err e ↦ err e
      ]

  unfoldable pub deserialize_probes_batch : List Value → ℕ → Outcome
  deserialize_probes_batch json_probes max_batch_size =
      if is_empty json_probes
      then returned (ok [])
      else if max_batch_size / avg_probe_size == 0
      then panicked
      else returned (
          batch_loop max_batch_size json_probes
            (record { batches = []; current_batch = []; current_batch_size = 0 }))
