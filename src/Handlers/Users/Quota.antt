-- ===== src/Handlers/Users/Quota.antt =====
-- What a user is told about the quota, over the database in memory.
use saimiris_gateway.Prelude.{
  ℕ, ◌+◌, ◌%◌, String, none, sym, ◌∙◌, ◌≡◌, refl, leb, Result, ok, err, Result-cases, inl, inr,
}
use saimiris_gateway.Http.{Failure, responds, internal_server_error}
use saimiris_gateway.Database.{MockStorage, UserUsageStats}
use saimiris_gateway.Database.Usage.{get_user_usage_stats, can_user_submit_probes, u32_mod}
use saimiris_gateway.UserId.{UserIdError}
use saimiris_gateway.Handlers.Users.{UserInfo, info_of, get_user_info}

module _ (get_or_create_user_id : MockStorage → String → Result UserIdError ℕ × MockStorage)
    (hash_user_identifier : String → String) (others : MockStorage → MockStorage)
    (today_start now : ℕ) where
  abbrev pub usage_today : MockStorage → String → Result String UserUsageStats
  usage_today s sub =
      ok (get_user_usage_stats s (hash_user_identifier sub) none none today_start now)

  abbrev answer :
      String → Result UserIdError ℕ → MockStorage → Result (Failure String) UserInfo × MockStorage
  answer sub (ok user_id) t = (
    ok (
        info_of user_id
          (get_user_usage_stats (others t) (hash_user_identifier sub) none none today_start now)),
    others t,
  )
  answer sub (err e) t =
      (err (responds internal_server_error "Failed to process user identification"), t)

  answer_lem :
      (sub : String) (s : MockStorage)
      → get_user_info get_or_create_user_id usage_today others sub s
        ≡ answer sub (get_or_create_user_id s sub).0 (get_or_create_user_id s sub).1
  unfolding get_user_info
  answer_lem sub s = elim (Result-cases (get_or_create_user_id s sub).0) [
    | inl (i, e) ↦ rw (e, get_user_info) refl
    | inr (x, e) ↦ rw (e, get_user_info) refl
  ]

  told :
      (sub : String) (r : Result UserIdError ℕ) (t s' : MockStorage) (info : UserInfo)
      → answer sub r t ≡ (ok info, s')
      → let stats = get_user_usage_stats s' (hash_user_identifier sub) none none today_start now in
        (info.used ≡ stats.total_probes) × (info.limit ≡ stats.limit)
  told sub (ok i) t s' info h = let same : others t ≡ s' = cc in rw (sym same) (cc, cc)
  told sub (err e) t s' info h = absurd cc

  -- Where `get_user_info` answers, a submission of so many probes at that time passes the check of
  -- the quota exactly if the use and the probes, added in 32 bits, are within the limit that the
  -- answer names.
  pub get_user_info-can_user_submit_probes :
      (sub : String) (s s' : MockStorage) (info : UserInfo) (n : ℕ)
      → get_user_info get_or_create_user_id usage_today others sub s ≡ (ok info, s')
      → can_user_submit_probes s' (hash_user_identifier sub) n none today_start now
        ≡ leb ((info.used + n) % u32_mod) info.limit
  unfolding get_user_info can_user_submit_probes get_user_usage_stats
  get_user_info-can_user_submit_probes sub s s' info n h =
      let (used, limit) =
        told sub (get_or_create_user_id s sub).0 (get_or_create_user_id s sub).1 s' info
          (sym (answer_lem sub s) ∙ h) in
      rw (used, limit) refl
