-- ===== src/Submit/Stored/Rows.antt =====
-- What the statements of a submission do to the tables of Postgres.
use saimiris_gateway.Prelude.{
  All, leb, ltb, length, codes, Bool-cases, inl, inr, ℕ, suc, ◌+◌, ◌*◌, ◌^◌, ◌≤◌, ◌<◌, String, Bool,
  true, false, ◌||◌, ◌==◌, List, [], ◌∷◌, ◌++◌, ◌≡◌, refl, ◌∙◌, filter, any, arith, str_eq,
  if◌then◌else◌, Result, ok, err,
}
use saimiris_gateway.Prelude.Int.{ℤ, pos}
use saimiris_gateway.Database.{MeasurementTracking}
use saimiris_gateway.Database.Usage.{in_window}
use saimiris_gateway.Database.Usage.Quota.{owed}
use saimiris_gateway.Database.Postgres.{
  Tables, LimitRow, SqlxError, Reply, timestamptz, answered, refused, lost, execute,
}
use saimiris_gateway.Database.Postgres.Ids.{explained, insert_user_id_mapping}
use saimiris_gateway.Database.Postgres.Rows.{where_key, insert_measurement_tracking}
use saimiris_gateway.Database.Postgres.Limits.{find_limit}
use saimiris_gateway.Database.Postgres.Totals.{limit_or_default, allows_probes}
use saimiris_gateway.Database.Postgres.Totals.Stats.{sum-owed}
use saimiris_gateway.UserId.Stored.{told_by}
use saimiris_gateway.Submit.{AgentMetadata}

-- The column `agent_id` does not hold the id.
abbrev pub too_long : String → Bool
too_long agent_id = ltb 255 (length (codes agent_id))

-- The agents with different ids that the column holds, but for those already seen.
unfoldable pub distinct_agents : List String → List AgentMetadata → ℕ
distinct_agents seen [] = 0
distinct_agents seen (a ∷ agents) = elim (any (λ s. str_eq s a.id) seen || too_long a.id) [
  | true ↦ distinct_agents seen agents
  | false ↦ suc (distinct_agents (a.id ∷ seen) agents)
]

abbrev pub stored_rows : Result SqlxError MeasurementTracking → Result SqlxError (Unit {0})
stored_rows (ok _) = ok tt
stored_rows (err e) = err e

-- The probes that a user's rows of the window stand for.
abbrev pub charged : Tables → String → ℕ → ℕ → ℕ
charged t user_hash start_time end_time =
    owed (filter (in_window user_hash start_time end_time) t.measurement_tracking)

-- The new rows are created in the window, by the times that Postgres keeps.
abbrev pub InWindow : (ℕ → ℕ) → ℕ → ℕ → Type 0
InWindow clock a b = (n : ℕ) → (a ≤ timestamptz (clock n)) × (timestamptz (clock n) ≤ b)

-- The rows of a measurement and its user are those of the agents seen.
abbrev pub Seen : ℕ → String → List String → Tables → Type 0
Seen m u seen t =
    (a : String) → any (where_key m u a) t.measurement_tracking ≡ any (λ s. str_eq s a) seen

pub any_key-append :
    (m : ℕ) (u a : String) (rs : List MeasurementTracking) (r : MeasurementTracking)
    → any (where_key m u a) (rs ++ r ∷ []) ≡ any (where_key m u a) rs || where_key m u a r
any_key-append m u a [] r = ground arith
any_key-append m u a (q ∷ rs) r = ground (arith, any_key-append m u a rs r)

pub one_more :
    (mine : Bool) (others charge before : ℕ)
    → before + (if mine then charge else 0) + (if mine then others * charge else 0)
      ≡ before + (if mine then suc others * charge else 0)
one_more true others charge before = omega arith
one_more false others charge before = omega arith

pub neither : (a b : Bool) → (a || b) ≡ false → (a ≡ false) × (b ≡ false)
neither true b h = absurd cc
neither false b h = (refl, h)

-- An insertion whose key is in the table or whose agent has too long an id changes nothing, and any
-- other adds its row.
module _ (duplicate_key : String → String) (t : Tables) (u : String) (m : ℕ) (agent : String)
    (expected : ℤ) (new_id now : ℕ) where
  abbrev pub tables_after : Tables
  tables_after =
      (insert_measurement_tracking duplicate_key answered t u m agent expected new_id now).1

  pub insert_known :
      (any (where_key m u agent) t.measurement_tracking || too_long agent) ≡ true → tables_after ≡ t
  unfolding insert_measurement_tracking
  insert_known h = elim (Bool-cases (too_long agent)) [
    | inl long ↦ rw (long, tables_after) refl
    | inr held ↦
        let known : any (where_key m u agent) t.measurement_tracking ≡ true = ground arith in
        rw (held, known, tables_after) refl
  ]

  pub insert_new :
      any (where_key m u agent) t.measurement_tracking ≡ false
      → too_long agent ≡ false
      → tables_after ≡ record t {
        measurement_tracking =
            t.measurement_tracking
            ++ record {
              id = new_id;
              user_hash = u;
              measurement_id = m;
              agent_id = agent;
              expected_probes = expected;
              sent_probes = pos 0;
              is_complete = false;
              cancelled = false;
              created_at = timestamptz now;
              updated_at = timestamptz now;
            }
              ∷ [];
      }
  unfolding insert_measurement_tracking
  insert_new h held = rw (held, h, tables_after) refl

pub any_key-new :
    (m : ℕ) (u a : String) (rs : List MeasurementTracking)
    → any (λ r. r.measurement_id == m) rs ≡ false
    → any (where_key m u a) rs ≡ false
any_key-new m u a [] h = refl
any_key-new m u a (r ∷ rs) h = ground (arith, any_key-new m u a rs)

-- A check that lets probes through finds room for them below the limit.
pub allowed_within :
    (text : SqlxError → String) (t : Tables) (u : String) (n a b : ℕ)
    → told_by text (allows_probes (λ x. x) answered answered t u n a b) ≡ ok true
    → charged t u (timestamptz a) (timestamptz b) + n < 2 ^ 32
    → charged t u (timestamptz a) (timestamptz b) + n ≤ limit_or_default (find_limit t u)
unfolding allows_probes
allowed_within text t u n a b h small =
    ground (
      arith,
      sum-owed (filter (in_window u (timestamptz a) (timestamptz b)) t.measurement_tracking),
    )

-- A window that ends later has no more in it, where no row is later than the first end.
pub charged_until :
    (u : String) (a b c : ℕ) (rows : List MeasurementTracking)
    → All (λ r. r.created_at ≤ b) rows
    → b ≤ c
    → owed (filter (in_window u a c) rows) ≡ owed (filter (in_window u a b) rows)
unfolding owed
charged_until u a b c [] h le = refl
charged_until u a b c (r ∷ rs) (h, hs) le =
    let late : leb r.created_at c ≡ true = ground arith in
    let early : leb r.created_at b ≡ true = ground arith in
    ground (arith, charged_until u a b c rs hs le)

-- The tracking rows and the limits.
abbrev pub parts : Tables → List MeasurementTracking × List LimitRow
parts t = (t.measurement_tracking, t.user_limits)

explained-parts : (p : Result SqlxError (Unit {0}) × Tables) → parts (explained p).1 ≡ parts p.1
explained-parts (ok u, t) = refl
explained-parts (err e, t) = refl

execute-parts :
    (reply : Reply) (t : Tables) (p : Result SqlxError (Unit {0}) × Tables)
    → parts p.1 ≡ parts t
    → parts (execute reply t p).1 ≡ parts t
execute-parts answered t p h = h
execute-parts (refused e) t p h = refl
execute-parts (lost e) t p h = h

pub insert-parts :
    (duplicate_key : String → String) (reply : Reply) (t : Tables) (u : String) (i now : ℕ)
    → parts (insert_user_id_mapping duplicate_key reply t u i now).1 ≡ parts t
unfolding insert_user_id_mapping
insert-parts duplicate_key reply t u i now =
    explained-parts _ ∙ execute-parts reply t _ (ground arith)
