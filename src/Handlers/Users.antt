-- ===== src/Handlers/Users.antt =====
-- src/lib.rs: `get_user_info`. The search for the user's id and the usage statistics of the database
-- are parameters; other requests may run between the two.
pub mod Quota
use saimiris_gateway.Prelude.{ℕ, String, Option, Result, ok, err}
use saimiris_gateway.Http.{Failure, responds, Handler, internal_server_error}
use saimiris_gateway.Database.{UserUsageStats}
use saimiris_gateway.UserId.{UserIdError}

pub record UserInfo : Type 0 where
  pub user_id : ℕ
  pub submission_count : ℕ
  pub last_submitted : Option ℕ
  pub used : ℕ
  pub limit : ℕ

abbrev pub info_of : ℕ → UserUsageStats → UserInfo
info_of user_id stats = record {
  user_id = user_id;
  submission_count = stats.submission_count;
  last_submitted = stats.last_submitted;
  used = stats.total_probes;
  limit = stats.limit;
}

module _ {S : Type 0} (get_or_create_user_id : S → String → Result UserIdError ℕ × S)
    (get_user_usage_stats : S → String → Result String UserUsageStats) (others : S → S) where
  unfoldable pub get_user_info : String → Handler S String UserInfo
  get_user_info sub s =
      let (found, s') = get_or_create_user_id s sub in
      elim found [
        | err _ ↦ (err (responds internal_server_error "Failed to process user identification"), s')
        | ok user_id ↦ elim (get_user_usage_stats (others s') sub) [
          | ok stats ↦ (ok (info_of user_id stats), others s')
          | err _ ↦ (
            err (responds internal_server_error "Failed to retrieve user information"),
            others s',
          )
        ]
      ]
