-- ===== src/Examples/Users.antt =====
-- User ids and their prefixes at concrete inputs.
use saimiris_gateway.Prelude.{
  ok, ℕ, ◌+◌, ◌-◌, ◌*◌, ◌/◌, ◌%◌, ◌^◌, true, ◌≡◌, refl, ◌↔◌, arith, ok, inr,
}
use saimiris_gateway.Prelude.Map.{lookup}
use saimiris_gateway.UserId.Reached.{get_or_create_user_id_reached}
use saimiris_gateway.Prefix.{validate_user_ipv6, calculate_user_prefix, calculate_user_prefix_addr}
use saimiris_gateway.Prefix.Ownership.{
  validate_user_ipv6_iff, Describes, calculate_user_prefix-validate,
}
use saimiris_gateway.UserId.{get_or_create_user_id}
use saimiris_gateway.Database.Mappings.{get_user_id_by_hash, create_user_id_mapping}
use saimiris_gateway.Database.Mappings.Uniqueness.{IsUnique, create_user_id_mapping-IsUnique}
use saimiris_gateway.Examples.Parameters.{documentation_net, ipnet, storage}

abbrev user_ip : ℕ
user_ip = documentation_net + 2000000 * 2 ^ 64 + 1

accepted : validate_user_ipv6 ipnet user_ip "2001:db8::/32" 2000000 ≡ true
unfolding validate_user_ipv6 calculate_user_prefix_addr
accepted = refl

validate_user_ipv6_iff_example :
    (validate_user_ipv6 ipnet user_ip "2001:db8::/32" 2000000 ≡ true) ↔ (
      (user_ip / 2 ^ (128 - 32) ≡ documentation_net / 2 ^ (128 - 32))
      × (user_ip / 2 ^ (96 - 32) % 2 ^ 32 ≡ 2000000))
validate_user_ipv6_iff_example =
    validate_user_ipv6_iff ipnet user_ip "2001:db8::/32" 2000000 (documentation_net, 32) refl
      (omega arith) (omega arith)

calculate_user_prefix-validate_example :
    Describes ipnet "2001:db8::/32" 2000000 (calculate_user_prefix ipnet "2001:db8::/32" 2000000)
calculate_user_prefix-validate_example =
    calculate_user_prefix-validate ipnet "2001:db8::/32" 2000000

new_storage-IsUnique : IsUnique storage
unfolding lookup
new_storage-IsUnique h k i e l = absurd cc

create_user_id_mapping-IsUnique_example :
    IsUnique (create_user_id_mapping storage "0012d687aa" 2000000).1
create_user_id_mapping-IsUnique_example =
    create_user_id_mapping-IsUnique storage "0012d687aa" 2000000 new_storage-IsUnique

-- The first candidate is free.
get_or_create_user_id_reached_example :
    (i : ℕ) × ((get_or_create_user_id get_user_id_by_hash create_user_id_mapping
        (λ _ t. t)
        (λ n. 3000000 + n)
        "0012d687aa"
        storage).0
      ≡ ok i)
get_or_create_user_id_reached_example =
    get_or_create_user_id_reached (λ n. 3000000 + n) "0012d687aa" storage 0 (omega arith) (inr refl)
