-- ===== src/Submit/Messages.antt =====
-- The Kafka messages that the loop over the batches sends.
use saimiris_gateway.Prelude.{
  ℕ, ◌+◌, ◌-◌, String, true, false, Option, none, some, List, [], ◌∷◌, ◌++◌, ◌≡◌, refl, sym, ap,
  ◌∙◌, inl, inr, arith, ◌==◌, length, Result, ok, err, append-nil, append_assoc, Option-cases,
  if◌then◌else◌,
}
use saimiris_gateway.Http.{Failure, responds, panics, internal_server_error}
use saimiris_gateway.Submit.{
  AgentMetadata, KafkaMessage, Reason, queue_failed, World, message, track, Database, send_batches,
}
use saimiris_gateway.Prelude.Int.{ℤ}

module _ (measurement_id : ℕ) (metadata : List AgentMetadata) where
  -- The messages of the batches from the index on.
  abbrev pub messages_from : ℕ → ℕ → List (List ℕ) → List KafkaMessage
  messages_from total i [] = []
  messages_from total i (b ∷ bs) =
      message measurement_id metadata (i == total - 1) b ∷ messages_from total (i + 1) bs

  -- The messages of a whole submission: only the last says that the measurement ends.
  abbrev pub messages : List (List ℕ) → List KafkaMessage
  messages [] = []
  messages (b ∷ []) = message measurement_id metadata true b ∷ []
  messages (b ∷ c ∷ bs) = message measurement_id metadata false b ∷ messages (c ∷ bs)

  pub messages_from_lem :
      (i total : ℕ) (bs : List (List ℕ))
      → total ≡ i + length bs
      → messages_from total i bs ≡ messages bs
  messages_from_lem i total [] h = refl
  messages_from_lem i total (b ∷ []) h =
      let last : (i == total - 1) ≡ true = ground arith in rw last
  messages_from_lem i total (b ∷ c ∷ bs) h =
      let more : (i == total - 1) ≡ false = ground arith in
      let rest : messages_from total (i + 1) (c ∷ bs) ≡ messages (c ∷ bs) =
        messages_from_lem (i + 1) total (c ∷ bs) (omega arith) in
      rw (more, rest)

-- The batches from the index on that the producer takes before it first refuses one.
unfoldable pub delivered : (ℕ → Option String) → ℕ → List (List ℕ) → List (List ℕ)
delivered deliver i [] = []
delivered deliver i (b ∷ bs) = elim (deliver i) [
  | none ↦ b ∷ delivered deliver (i + 1) bs
  | some _ ↦ []
]

abbrev pub queue_error : Failure Reason
queue_error = responds internal_server_error queue_failed

module _ {S : Type 0} (deliver : ℕ → Option String) (measurement_id : ℕ)
    (metadata : List AgentMetadata) (total : ℕ) where
  -- The loop sends the messages of the batches that are taken, in order, and nothing else; it
  -- fails exactly if a batch is refused.
  pub send_batches_lem :
      (i : ℕ) (bs : List (List ℕ)) (w : World S)
      → send_batches deliver measurement_id metadata total i bs w ≡ (
        (if length (delivered deliver i bs) == length bs then ok tt else err queue_error),
        record w {
          sent = w.sent ++ messages_from measurement_id metadata total i (delivered deliver i bs);
        },
      )
  unfolding send_batches delivered
  send_batches_lem i [] w = rw append-nil
  send_batches_lem i (b ∷ bs) w = elim (Option-cases (deliver i)) [
    | inl e ↦
        rw (e, send_batches, delivered)
          (send_batches_lem (i + 1) bs _ ∙ rw append_assoc (ground arith))
    | inr (_, e) ↦ rw (e, send_batches, delivered, append-nil) (ground arith)
  ]

module _ {S : Type 0} where
  -- The messages sent after a step.
  pub sent_eq :
      (A : Type 0) (p : Result (Failure Reason) A × World S) (x : Result (Failure Reason) A)
      (w' : World S)
      → p ≡ (x, w')
      → w'.sent ≡ p.1.sent
  sent_eq A p x w' h = sym (ap (λ (q : Result (Failure Reason) A × World S). q.1.sent) h)

  -- The database after a step.
  pub database_eq :
      (A : Type 0) (p : Result (Failure Reason) A × World S) (x : Result (Failure Reason) A)
      (w' : World S)
      → p ≡ (x, w')
      → w'.database ≡ p.1.database
  database_eq A p x w' h = sym (ap (λ (q : Result (Failure Reason) A × World S). q.1.database) h)

pub track_sent :
    {S : Type 0} (db : Database S) (user_hash : String) (m : ℕ) (expected : ℤ)
    (agents : List AgentMetadata) (w : World S)
    → ((track db user_hash m expected agents w).1.sent ≡ w.sent)
      × ((track db user_hash m expected agents w).0 ≡ ok tt)
unfolding track saimiris_gateway.Http.◌>>=◌
track_sent db user_hash m expected [] w = (refl, refl)
track_sent db user_hash m expected (a ∷ agents) w =
    track_sent db user_hash m expected agents (record w {
      database = (db.create_measurement_tracking w.database user_hash m a.id expected).1;
    })

-- The database after the tracking rows of the agents.
abbrev pub rows_for : {S : Type 0} → Database S → String → ℕ → ℤ → List AgentMetadata → S → S
rows_for db user_hash m expected [] s = s
rows_for db user_hash m expected (a ∷ agents) s =
    rows_for db user_hash m expected agents
      (db.create_measurement_tracking s user_hash m a.id expected).1

pub track_database :
    {S : Type 0} (db : Database S) (user_hash : String) (m : ℕ) (expected : ℤ)
    (agents : List AgentMetadata) (w : World S)
    → (track db user_hash m expected agents w).1.database
      ≡ rows_for db user_hash m expected agents w.database
unfolding track saimiris_gateway.Http.◌>>=◌
track_database db user_hash m expected [] w = refl
track_database db user_hash m expected (a ∷ agents) w =
    track_database db user_hash m expected agents (record w {
      database = (db.create_measurement_tracking w.database user_hash m a.id expected).1;
    })

delivered_all :
    (deliver : ℕ → Option String) (i : ℕ) (bs : List (List ℕ))
    → length (delivered deliver i bs) ≡ length bs
    → delivered deliver i bs ≡ bs
unfolding delivered
delivered_all deliver i [] h = refl
delivered_all deliver i (b ∷ bs) h = elim (Option-cases (deliver i)) [
  | inl e ↦ rw (e, delivered) (ap (λ l. b ∷ l) (delivered_all deliver (i + 1) bs (ground arith)))
  | inr (_, e) ↦ absurd (ground arith)
]

-- If the loop over all batches of a submission ends well, the messages sent are one for each
-- batch, in order, with the batch as payload and a header for each agent of the request, and only
-- the last of them tells the agents that the measurement ends.
pub send_all :
    {S : Type 0} (deliver : ℕ → Option String) (measurement_id : ℕ) (metadata : List AgentMetadata)
    (bs : List (List ℕ)) (w w' : World S)
    → send_batches deliver measurement_id metadata (length bs) 0 bs w ≡ (ok tt, w')
    → w' ≡ record w { sent = w.sent ++ messages measurement_id metadata bs }
send_all deliver measurement_id metadata bs w w' h =
    let lem = send_batches_lem deliver measurement_id metadata (length bs) 0 bs w in
    let count : length (delivered deliver 0 bs) ≡ length bs = ground arith in
    let all : delivered deliver 0 bs ≡ bs = delivered_all deliver 0 bs count in
    let same = messages_from_lem measurement_id metadata 0 (length bs) bs (omega arith) in
    sym (ap (λ (p : Result (Failure Reason) (Unit {0}) × World _). p.1) h)
    ∙ ap (λ (p : Result (Failure Reason) (Unit {0}) × World _). p.1) lem
    ∙ rw (all, same)
