-- ===== src/Submit/Stored/Calls.antt =====
-- The calls of a submission (src/lib.rs, `submit_probes`) over Postgres, with each statement answered
-- and no other request in between.
use saimiris_gateway.Prelude.{
  ◌||◌, ℕ, ◌+◌, ◌*◌, String, false, List, [], ◌∷◌, ◌≡◌, refl, ap, ◌∙◌, filter-append, any, arith,
  str_eq, eq_refl, length, if◌then◌else◌, ok, Bool-cases, inl, inr,
}
use saimiris_gateway.Prelude.Int.{ℤ, as_u32}
use saimiris_gateway.Database.Usage.Quota.{owed, owed-append}
use saimiris_gateway.Database.Postgres.{Tables, SqlxError, answered}
use saimiris_gateway.Database.Postgres.Rows.{where_key, insert_measurement_tracking}
use saimiris_gateway.Database.Postgres.Totals.{allows_probes}
use saimiris_gateway.UserId.{get_or_create_user_id}
use saimiris_gateway.UserId.Untouched.{get_or_create_user_id-part}
use saimiris_gateway.UserId.Stored.{Connection, told_by, stored_get, stored_create}
use saimiris_gateway.Submit.{AgentMetadata, Database}
use saimiris_gateway.Submit.Messages.{rows_for}
use saimiris_gateway.Submit.Stored.Rows.{
  too_long, neither, too_long, neither, InWindow, Seen, distinct_agents, stored_rows, charged,
  any_key-append, one_more, insert_known, insert_new, parts, insert-parts,
}

module _ (hash_user_identifier : String → String) (random : ℕ → ℕ) (text : SqlxError → String)
    (duplicate_key : String → String) (today_start checked_at : ℕ) (new_id clock : ℕ → ℕ) where
  abbrev pub postgres_database : Database Tables
  postgres_database = record {
    get_or_create_user_id = λ t sub.
        let (r, c) =
          get_or_create_user_id (stored_get text duplicate_key clock)
            (stored_create text duplicate_key clock) (λ _ c. c) random (hash_user_identifier sub)
            (t, answered) in
        (r, c.0);
    can_user_submit_probes = λ t sub additional. (
      told_by text (
          allows_probes (λ x. x) answered answered t (hash_user_identifier sub) additional
            today_start checked_at),
      t,
    );
    create_measurement_tracking = λ t user_hash m agent_id expected.
        let n = length t.measurement_tracking in
        let (r, t') =
          insert_measurement_tracking duplicate_key answered t user_hash m agent_id expected
            (new_id n) (clock n) in
        (told_by text (stored_rows r), t');
    record_probe_usage = λ t sub m probe_count. (ok tt, t);
  }

  module _ (u v : String) (m : ℕ) (expected : ℤ) (a b : ℕ) (inside : InWindow clock a b) where
    abbrev next : String → Tables → Tables
    next agent t = (postgres_database.create_measurement_tracking t u m agent expected).1

    new_row :
        (agent : String) (t : Tables)
        → any (where_key m u agent) t.measurement_tracking ≡ false
        → too_long agent ≡ false
        → charged (next agent t) v a b
          ≡ charged t v a b + (if str_eq u v then as_u32 expected else 0)
    unfolding owed
    new_row agent t h held =
        let time = inside (length t.measurement_tracking) in
        ap (λ t'. charged t' v a b) (insert_new duplicate_key t u m agent expected _ _ h held)
        ∙ rw (filter-append, owed-append) (ground arith)

    next-Seen :
        (agent : String) (seen : List String) (t : Tables)
        → Seen m u seen t
        → any (where_key m u agent) t.measurement_tracking ≡ false
        → too_long agent ≡ false
        → Seen m u (agent ∷ seen) (next agent t)
    next-Seen agent seen t known h held x =
        ap (λ (t' : Tables). any (where_key m u x) t'.measurement_tracking)
          (insert_new duplicate_key t u m agent expected _ _ h held)
        ∙ any_key-append m u x t.measurement_tracking _
        ∙ ground (arith, known x, eq_refl u)

    pub charged-rows_for :
        (agents : List AgentMetadata) (seen : List String) (t : Tables)
        → Seen m u seen t
        → charged (rows_for postgres_database u m expected agents t) v a b
          ≡ charged t v a b
            + (if str_eq u v then distinct_agents seen agents * as_u32 expected else 0)
    unfolding distinct_agents
    charged-rows_for [] seen t known = ground arith
    charged-rows_for (x ∷ agents) seen t known =
        elim (Bool-cases (any (λ s. str_eq s x.id) seen || too_long x.id)) [
          | inl old ↦
              rw (old, distinct_agents)
                (ap (λ t'. charged (rows_for postgres_database u m expected agents t') v a b)
                    (insert_known duplicate_key t u m x.id expected _ _
                      (ap (λ k. k || too_long x.id) (known x.id) ∙ old))
                  ∙ charged-rows_for agents seen t known)
          | inr new ↦
              let (unseen, held) = neither _ _ new in
              let fresh = known x.id ∙ unseen in
              rw (new, distinct_agents)
                (charged-rows_for agents (x.id ∷ seen) (next x.id t)
                    (next-Seen x.id seen t known fresh held)
                  ∙ rw (new_row x.id t fresh held) (
                      one_more (str_eq u v) (distinct_agents (x.id ∷ seen) agents) (as_u32 expected)
                        (charged t v a b)))
        ]

  -- The search for an id leaves the tracking rows and the limits alone.
  pub id_kept :
      (sub : String) (t : Tables)
      → parts (postgres_database.get_or_create_user_id t sub).1 ≡ parts t
  id_kept sub t =
      get_or_create_user_id-part (λ (c : Connection). parts c.0)
        (stored_get text duplicate_key clock) (stored_create text duplicate_key clock) (λ _ c. c)
        random (hash_user_identifier sub)
        (λ c i.
          insert-parts duplicate_key c.1 c.0 (hash_user_identifier sub) i
            (clock (length c.0.user_id_mappings)))
        (λ _ _. refl) (t, answered)
