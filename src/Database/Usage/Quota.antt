-- ===== src/Database/Usage/Quota.antt =====
-- The daily quota: what a user's rows add up to, and what may change it.
use saimiris_gateway.Prelude.{
  ℕ, ◌+◌, ◌%◌, ◌≤◌, ◌<◌, String, Bool, true, ◌&&◌, none, some, List, [], ◌∷◌, ◌++◌, ◌≡◌, refl, ◌↔◌,
  arith, str_eq, leb, if◌then◌else◌, Bool-cases, Option-cases, subst, eq_iff, filter-append, inl,
  inr, filter, find,
}
use saimiris_gateway.Prelude.Int.{ℤ, as_u32}
use saimiris_gateway.Database.{MeasurementTracking, UserLimit, MockStorage}
use saimiris_gateway.Database.Usage.{
  u32_mod, in_window, total_loop, get_user_limit, limit_of, get_user_stats, get_user_usage_stats,
  can_user_submit_probes, set_limit, set_user_limit,
}
use saimiris_gateway.Database.Tracking.{
  create_measurement_tracking, update_first, update_measurement_probe_count, report, of_agent,
  cancel_rows, cancel_measurement, is_open,
}

-- The probes that the rows stand for, with no bound on the sum.
unfoldable pub owed : List MeasurementTracking → ℕ
owed [] = 0
owed (t ∷ ts) = as_u32 t.expected_probes + owed ts

pub total_loop-owed :
    (n : ℕ) (ts : List MeasurementTracking)
    → n < u32_mod
    → total_loop n ts ≡ (n + owed ts) % u32_mod
unfolding total_loop owed
total_loop-owed n [] h = omega arith
total_loop-owed n (t ∷ ts) h =
    omega (arith, total_loop-owed ((n + as_u32 t.expected_probes) % u32_mod) ts (omega arith))

-- The probes that a user's rows of the window stand for.
abbrev pub used : MockStorage → String → ℕ → ℕ → ℕ
used s user_hash start_time end_time =
    owed (filter (in_window user_hash start_time end_time) s.measurement_tracking)

-- While a user's rows of the day and the new probes together stay below 2 ^ 32, a submission is
-- let through exactly if they do not pass the user's limit.
pub can_user_submit_probes_iff :
    (s : MockStorage) (user_hash : String) (additional today_start now : ℕ)
    → used s user_hash today_start now + additional < u32_mod
    → (can_user_submit_probes s user_hash additional none today_start now ≡ true)
      ↔ (used s user_hash today_start now + additional ≤ limit_of (get_user_limit s user_hash))
unfolding can_user_submit_probes get_user_usage_stats get_user_stats
can_user_submit_probes_iff s user_hash additional today_start now h =
    let total =
      total_loop-owed 0 (filter (in_window user_hash today_start now) s.measurement_tracking)
        (omega arith) in
    (λ k. ground (arith, total), λ k. ground (arith, total))

-- Rows that differ in their reports only.
abbrev SameCharge : MeasurementTracking → MeasurementTracking → Type 0
SameCharge r t =
    (r.user_hash ≡ t.user_hash)
    × (r.measurement_id ≡ t.measurement_id)
    × (r.expected_probes ≡ t.expected_probes)
    × (r.created_at ≡ t.created_at)

data SameCharges : List MeasurementTracking → List MeasurementTracking → Type 0 where
  nil : SameCharges [] []
  cons :
      {r t : MeasurementTracking} {rs ts : List MeasurementTracking}
      → SameCharge r t
      → SameCharges rs ts
      → SameCharges (r ∷ rs) (t ∷ ts)

SameCharges-refl : (ts : List MeasurementTracking) → SameCharges ts ts
SameCharges-refl [] = nil
SameCharges-refl (t ∷ ts) = cons (refl, refl, refl, refl) (SameCharges-refl ts)

owed-SameCharges :
    (u : String) (a b : ℕ) {rs ts : List MeasurementTracking}
    → SameCharges rs ts
    → owed (filter (in_window u a b) rs) ≡ owed (filter (in_window u a b) ts)
unfolding owed
owed-SameCharges u a b nil = refl
owed-SameCharges u a b (cons h k) = ground (arith, owed-SameCharges u a b k)

cancel_rows-SameCharges :
    (m : ℕ) (u : String) (now : ℕ) (ts : List MeasurementTracking)
    → SameCharges (cancel_rows m u now ts).1 ts
unfolding cancel_rows
cancel_rows-SameCharges m u now [] = nil
cancel_rows-SameCharges m u now (t ∷ ts) = elim (Bool-cases (is_open m u t)) [
  | inl e ↦ rw e (cons (refl, refl, refl, refl) (cancel_rows-SameCharges m u now ts))
  | inr e ↦ rw e (cons (refl, refl, refl, refl) (cancel_rows-SameCharges m u now ts))
]

update_first-SameCharges :
    (p : MeasurementTracking → Bool) (f : MeasurementTracking → MeasurementTracking)
    (ts : List MeasurementTracking) (r : MeasurementTracking) (rs : List MeasurementTracking)
    → ((t : MeasurementTracking) → SameCharge (f t) t)
    → update_first p f ts ≡ some (r, rs)
    → SameCharges rs ts
unfolding update_first
update_first-SameCharges p f [] r rs same h = cc
update_first-SameCharges p f (t ∷ ts) r rs same h = elim (Bool-cases (p t)) [
  | inl e ↦
      let k : f t ∷ ts ≡ rs = ground arith in
      subst (λ l. SameCharges l (t ∷ ts)) k (cons (same t) (SameCharges-refl ts))
  | inr e ↦ elim (Option-cases (update_first p f ts)) [
    | inl z ↦ absurd (ground arith)
    | inr ((r', rs'), z) ↦
        let k : t ∷ rs' ≡ rs = ground arith in
        subst (λ l. SameCharges l (t ∷ ts)) k
          (cons (refl, refl, refl, refl) (update_first-SameCharges p f ts r' rs' same z))
  ]
]

-- Neither a cancellation nor a report of an agent changes what any user has used in any window.
pub used-reports :
    (s : MockStorage) (m : ℕ) (u agent_id : String) (sent : ℤ) (done : Bool) (now : ℕ) (v : String)
    (a b : ℕ)
    → (used (cancel_measurement s m u now).1 v a b ≡ used s v a b)
      × (used (update_measurement_probe_count s m u agent_id sent done now).1 v a b ≡ used s v a b)
unfolding cancel_measurement update_measurement_probe_count
used-reports s m u agent_id sent done now v a b = (
  owed-SameCharges v a b (cancel_rows-SameCharges m u now s.measurement_tracking),
  elim (Option-cases
      (update_first (of_agent m u agent_id) (report sent done now) s.measurement_tracking)) [
        | inl z ↦ rw (z, update_measurement_probe_count)
        | inr ((r, rs), z) ↦
            rw (z, update_measurement_probe_count)
              (owed-SameCharges v a b (
                update_first-SameCharges (of_agent m u agent_id) (report sent done now)
                  s.measurement_tracking r rs (λ t. (refl, refl, refl, refl)) z))
      ],
)

pub owed-append : (rs ts : List MeasurementTracking) → owed (rs ++ ts) ≡ owed rs + owed ts
unfolding owed
owed-append [] ts = omega arith
owed-append (r ∷ rs) ts = omega (arith, owed-append rs ts)

-- A new tracking row charges its expected probes to its user, in every window that its time of
-- creation lies in, and charges nobody else.
pub used-create_measurement_tracking :
    (s : MockStorage) (u : String) (m : ℕ) (agent_id : String) (expected : ℤ) (new_id now : ℕ)
    (v : String) (a b : ℕ)
    → used (create_measurement_tracking s u m agent_id expected new_id now).1 v a b
      ≡ used s v a b + (if str_eq u v && leb a now && leb now b then as_u32 expected else 0)
unfolding create_measurement_tracking owed
used-create_measurement_tracking s u m agent_id expected new_id now v a b =
    rw (filter-append, owed-append) (ground arith)

set_limit-find :
    (u v : String) (l new_id now : ℕ) (uls : List UserLimit)
    → find (λ ul. str_eq ul.user_hash v) (set_limit u l new_id now uls).1 ≡ (
        if str_eq u v
        then some (set_limit u l new_id now uls).0
        else find (λ ul. str_eq ul.user_hash v) uls)
unfolding set_limit
set_limit-find u v l new_id now [] = ground arith
set_limit-find u v l new_id now (ul ∷ uls) = ground (
  arith,
  set_limit-find u v l new_id now uls,
  eq_iff u v,
  eq_iff ul.user_hash u,
  eq_iff ul.user_hash v,
)

set_limit_value :
    (u : String) (l new_id now : ℕ) (uls : List UserLimit)
    → (set_limit u l new_id now uls).0.probe_limit ≡ l
unfolding set_limit
set_limit_value u l new_id now [] = refl
set_limit_value u l new_id now (ul ∷ uls) = ground (arith, set_limit_value u l new_id now uls)

-- After a limit is set, the user has it and every other user the limit from before.
pub get_user_limit-set_user_limit :
    (s : MockStorage) (u v : String) (l new_id now : ℕ)
    → limit_of (get_user_limit (set_user_limit s u l new_id now).1 v)
      ≡ (if str_eq u v then l else limit_of (get_user_limit s v))
unfolding get_user_limit set_user_limit
get_user_limit-set_user_limit s u v l new_id now = ground (
  arith,
  set_limit-find u v l new_id now s.user_limits,
  set_limit_value u l new_id now s.user_limits,
)
