-- ===== src/Submit/Charging.antt =====
-- A submission over the database in memory, and what it costs.
use saimiris_gateway.Prelude.{
  ℕ, suc, ◌+◌, ◌*◌, ◌%◌, ◌^◌, ◌≤◌, ◌<◌, String, Bool, true, false, ◌&&◌, Option, none, List, [],
  ◌∷◌, ◌≡◌, refl, sym, ap, ◌∙◌, filter, arith, str_eq, leb, length, if◌then◌else◌, Result, ok,
}
use saimiris_gateway.Prelude.Int.{ℤ, as_i32, as_u32, as_u32-as_i32}
use saimiris_gateway.Net.{IpAddr}
use saimiris_gateway.Agent.{AgentStore}
use saimiris_gateway.Prefix.Ipnet.{Ipnet}
use saimiris_gateway.Probe.Wire.{Message}
use saimiris_gateway.Probe.{ProbeError}
use saimiris_gateway.Database.{MockStorage, MeasurementTracking, UserLimit, new_storage}
use saimiris_gateway.Database.Usage.{
  get_user_stats, get_user_limit, limit_of, get_user_usage_stats, in_window, can_user_submit_probes,
  record_probe_usage,
}
use saimiris_gateway.Database.Usage.Quota.{
  can_user_submit_probes_iff, owed, used, used-create_measurement_tracking,
}
use saimiris_gateway.Database.Tracking.{create_measurement_tracking}
use saimiris_gateway.Database.Mappings.{get_user_id_by_hash, create_user_id_mapping}
use saimiris_gateway.UserId.{UserIdError, get_or_create_user_id}
use saimiris_gateway.UserId.Untouched.{kept, get_or_create_user_id-kept}
use saimiris_gateway.Submit.{
  assign_agents, AgentMetadata, SubmitProbesRequest, SubmitProbesResponse, Database, World,
  submit_probes,
}
use saimiris_gateway.Submit.Messages.{rows_for}
use saimiris_gateway.Submit.Effects.{submit_probes-IsAccepted}

-- One more row, and then the others.
charge_both :
    (mine early late : Bool) (others charge before after : ℕ)
    → early ≡ true
    → late ≡ true
    → after ≡ before + (if mine && early && late then charge else 0)
    → after + (if mine then others * charge else 0)
      ≡ before + (if mine then suc others * charge else 0)
charge_both true early late others charge before after e l h =
    let k : after ≡ before + charge = ground arith in omega (arith, k)
charge_both false early late others charge before after e l h = ground arith

module _ (hash_user_identifier : String → String) (random : ℕ → ℕ)
    (today_start checked_at recorded_at : ℕ) (new_id clock : ℕ → ℕ) where
  -- No other request runs in between. `new_id` and `clock` give the id and the time of the n-th
  -- tracking row of the table.
  abbrev pub mock_database : Database MockStorage
  mock_database = record {
    get_or_create_user_id = λ s sub.
        get_or_create_user_id get_user_id_by_hash create_user_id_mapping (λ _ t. t) random
          (hash_user_identifier sub) s;
    can_user_submit_probes = λ s sub additional. (
      ok (
          can_user_submit_probes s (hash_user_identifier sub) additional none today_start
            checked_at),
      s,
    );
    create_measurement_tracking = λ s user_hash m agent_id expected.
        let n = length s.measurement_tracking in
        (
          ok tt,
          (create_measurement_tracking s user_hash m agent_id expected (new_id n) (clock n)).1,
        );
    record_probe_usage = λ s sub m probe_count.
        (ok tt, (record_probe_usage s (hash_user_identifier sub) m probe_count recorded_at).1);
  }

  -- The new rows are created in the window.
  abbrev pub InWindow : ℕ → ℕ → Type 0
  InWindow a b = (n : ℕ) → (a ≤ clock n) × (clock n ≤ b)

  used-rows_for :
      (u v : String) (m : ℕ) (expected : ℤ) (agents : List AgentMetadata) (s : MockStorage)
      (a b : ℕ)
      → InWindow a b
      → used (rows_for mock_database u m expected agents s) v a b
        ≡ used s v a b + (if str_eq u v then length agents * as_u32 expected else 0)
  used-rows_for u v m expected [] s a b h = ground arith
  used-rows_for u v m expected (x ∷ agents) s a b h =
      let n = length s.measurement_tracking in
      let next = (create_measurement_tracking s u m x.id expected (new_id n) (clock n)).1 in
      let inside = h n in
      used-rows_for u v m expected agents next a b h
      ∙ charge_both (str_eq u v) (leb a (clock n)) (leb (clock n) b) (length agents)
          (as_u32 expected) (used s v a b) (used next v a b) (ground (arith, inside))
          (ground (arith, inside))
          (used-create_measurement_tracking s u m x.id expected (new_id n) (clock n) v a b)

  id_kept :
      (sub : String) (s : MockStorage) (id : ℕ) (s' : MockStorage)
      → mock_database.get_or_create_user_id s sub ≡ (ok id, s')
      → kept s' ≡ kept s
  id_kept sub s id s' found =
      sym (ap (λ (p : Result UserIdError ℕ × MockStorage). kept p.1) found)
      ∙ get_or_create_user_id-kept random (hash_user_identifier sub) s

  rows_after :
      (sub : String) (s : MockStorage) (id : ℕ) (s' s'' : MockStorage) (n : ℕ)
      → mock_database.get_or_create_user_id s sub ≡ (ok id, s')
      → mock_database.can_user_submit_probes s' sub n ≡ (ok true, s'')
      → kept s'' ≡ kept s
  rows_after sub s id s' s'' n found allowed =
      sym (ap (λ (p : Result String Bool × MockStorage). kept p.1) allowed)
      ∙ id_kept sub s id s' found

  -- The check of the quota reads nothing else.
  same_check :
      (s t : MockStorage) (user_hash : String) (n : ℕ)
      → kept s ≡ kept t
      → can_user_submit_probes s user_hash n none today_start checked_at
        ≡ can_user_submit_probes t user_hash n none today_start checked_at
  unfolding can_user_submit_probes get_user_usage_stats get_user_stats get_user_limit
  same_check s t user_hash n h =
      ap
        (λ (k : List MeasurementTracking × List UserLimit).
          can_user_submit_probes
            (record new_storage { measurement_tracking = k.0; user_limits = k.1 }) user_hash n none
            today_start checked_at)
        h

  module _ (ip_from_str : String → Option IpAddr)
      (write_message : Message → Result ProbeError (List ℕ)) (ipnet : Ipnet)
      (deliver : ℕ → Option String) (checked assigned : ℕ → AgentStore) (measurement_id : ℕ) where
    -- On the database in memory, with no other request in between: a submission of fewer than 2 ^ 32
    -- probes that is answered with a measurement charges its user, in every window that its rows are created in, with the probes that the answer names: those of
    -- the request, once for each assigned agent. It charges nobody else.
    pub used-submit_probes :
        (sub : String) (request : SubmitProbesRequest) (r : SubmitProbesResponse)
        (w w' : World MockStorage) (v : String) (a b : ℕ)
        → InWindow a b
        → length request.probes < 2 ^ 32
        → submit_probes ip_from_str write_message ipnet hash_user_identifier mock_database deliver
            checked assigned measurement_id sub request w
          ≡ (ok r, w')
        → used w'.database v a b
          ≡ used w.database v a b + (if str_eq (hash_user_identifier sub) v then r.probes else 0)
    unfolding record_probe_usage
    used-submit_probes sub request r w w' v a b h small accepted =
        let done =
          submit_probes-IsAccepted ip_from_str write_message ipnet hash_user_identifier
            mock_database deliver checked assigned measurement_id sub request r w w' accepted in
        let small_charge = as_u32-as_i32 (length request.probes) small in
        let same_rows : used done.after_limit v a b ≡ used w.database v a b =
          ap
            (λ (k : List MeasurementTracking × List UserLimit). owed (filter (in_window v a b) k.0))
            (rows_after sub w.database done.user_id done.after_id done.after_limit
              (length request.probes % 2 ^ 32) done.identified done.within_limit) in
        let agents = assign_agents assigned 0 request.metadata in
        let total : length agents * as_u32 (as_i32 (length request.probes)) ≡ r.probes =
          rw (small_charge, done.probes, done.agents) (omega arith) in
        ap (λ s. used s v a b) done.stored
        ∙ used-rows_for (hash_user_identifier sub) v measurement_id (as_i32 (length request.probes))
            agents done.after_limit a b h
        ∙ rw (same_rows, total) refl

    -- While a user's rows of the day and the probes of the request stay below 2 ^ 32 together, a
    -- submission that is answered with a measurement has no more probes than the user's limit leaves
    -- for that day.
    pub submit_probes-limit_of :
        (sub : String) (request : SubmitProbesRequest) (r : SubmitProbesResponse)
        (w w' : World MockStorage)
        → used w.database (hash_user_identifier sub) today_start checked_at + length request.probes
          < 2 ^ 32
        → submit_probes ip_from_str write_message ipnet hash_user_identifier mock_database deliver
            checked assigned measurement_id sub request w
          ≡ (ok r, w')
        → used w.database (hash_user_identifier sub) today_start checked_at + length request.probes
          ≤ limit_of (get_user_limit w.database (hash_user_identifier sub))
    submit_probes-limit_of sub request r w w' small accepted =
        let user_hash = hash_user_identifier sub in
        let n = length request.probes in
        let done =
          submit_probes-IsAccepted ip_from_str write_message ipnet hash_user_identifier
            mock_database deliver checked assigned measurement_id sub request r w w' accepted in
        let fits : n % 2 ^ 32 ≡ n = omega (arith, small) in
        let passes : can_user_submit_probes done.after_id user_hash (n % 2 ^ 32) none today_start
              checked_at
            ≡ true =
          cc in
        (can_user_submit_probes_iff w.database user_hash n today_start checked_at small).0 (
          same_check w.database done.after_id user_hash n
            (sym (id_kept sub w.database done.user_id done.after_id done.identified))
          ∙ ap (λ m. can_user_submit_probes done.after_id user_hash m none today_start checked_at)
              (sym fits)
          ∙ passes)
