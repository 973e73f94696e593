-- ===== src/Submit/Refusals.antt =====
-- What `submit_probes` leaves behind when it does not answer with a measurement.
use saimiris_gateway.Prelude.{ℕ, String, Option, List, ◌++◌, ◌≡◌, ◌⊎◌, length, Result, ok, err, ◌≢◌}
use saimiris_gateway.Net.{IpAddr}
use saimiris_gateway.Http.{Failure, responds}
use saimiris_gateway.Agent.{AgentStore}
use saimiris_gateway.Prefix.Ipnet.{Ipnet}
use saimiris_gateway.Probe.Wire.{Message}
use saimiris_gateway.Probe.{ProbeError}
use saimiris_gateway.Probe.Batch.{returned, deserialize_probes_batch}
use saimiris_gateway.Submit.{
  SubmitProbesRequest, Reason, user_id_failed, limit_check_failed, user_id_failed,
  limit_check_failed, Database, World, H, max_batch_bytes,
}
use saimiris_gateway.Submit.Messages.{messages_from, delivered, queue_error}

module _ (ip_from_str : String → Option IpAddr)
    (write_message : Message → Result ProbeError (List ℕ)) (ipnet : Ipnet)
    (hash_user_identifier : String → String) {S : Type 0} (db : Database S)
    (deliver : ℕ → Option String) (checked assigned : ℕ → AgentStore) (measurement_id : ℕ) where
  -- An answer with a status code, after which nothing has been sent.
  abbrev pub Quiet : World S → Failure Reason → World S → Type 0
  Quiet w x w' =
      ((status : ℕ) × (reason : Reason) × (x ≡ responds status reason)) × (w'.sent ≡ w.sent)

  -- The answer of a submission whose producer has refused a batch, after which the batches before
  -- it have been sent.
  abbrev pub CutShort : SubmitProbesRequest → World S → Failure Reason → World S → Type 0
  CutShort request w x w' =
      (bs : List (List ℕ)) × (deserialize_probes_batch ip_from_str write_message request.probes
          max_batch_bytes
        ≡ returned (ok bs))
      × (x ≡ queue_error)
      × (length (delivered deliver 0 bs) ≢ length bs)
      × (w'.sent
          ≡ w.sent
            ++ messages_from measurement_id request.metadata (length bs) 0 (delivered deliver 0 bs))

  abbrev pub Refused : SubmitProbesRequest → World S → Failure Reason → World S → Type 0
  Refused request w x w' = Quiet w x w' ⊎ CutShort request w x w'

  -- A part of the handler fails only as `Refused` says.
  abbrev IsSafe : (A : Type 0) → SubmitProbesRequest → H S A → Type 0
  IsSafe A request k =
      (w w' : World S) (x : Failure Reason) → k w ≡ (err x, w') → Refused request w x w'

  -- A step of the handler sends nothing, and fails with a status code only.
  abbrev IsQuiet : (A : Type 0) → H S A → Type 0
  IsQuiet A m =
      (w w' : World S)
      → ((x : Failure Reason) → m w ≡ (err x, w') → Quiet w x w')
        × ((a : A) → m w ≡ (ok a, w') → w'.sent ≡ w.sent)
