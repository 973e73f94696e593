-- ===== src/Prefix/Ownership.antt =====
-- Which addresses a user owns under an agent's prefix.
use native.Mathlib.Nat.{div-div-eq-div-mul, one-le-pow, mul-div_cancel}
use saimiris_gateway.Prelude.{
  Option, none, some, ℕ, zero, suc, ◌+◌, ◌-◌, ◌*◌, ◌/◌, ◌%◌, ◌^◌, ◌≤◌, ◌<◌, String, true, false,
  none, some, ◌≡◌, sym, ap, ◌∙◌, ◌↔◌, ◌⊎◌, inl, inr, ltb, arith, Option-cases, Bool-cases,
}
use Prim.Native.Nat.{bit_or}
use native.Mathlib.Nat.{pow-suc}
use saimiris_gateway.Prefix.Ipnet.{Ipnet}
use saimiris_gateway.Prefix.BitOr.{bit_or-shifted}
use saimiris_gateway.Prefix.{
  user_addr, calculate_user_prefix_addr, validate_user_ipv6, calculate_user_prefix,
}

pow-add : (a b : ℕ) → 2 ^ (a + b) ≡ 2 ^ a * 2 ^ b
pow-add zero b = let e : 0 + b ≡ b = omega arith in rw e (omega arith)
pow-add (suc a) b =
    let e : suc a + b ≡ suc (a + b) = omega arith in
    rw e (omega (arith, pow-suc 2 (a + b), pow-add a b, ap (λ (t : ℕ). t * 2 ^ b) (pow-suc 2 a)))

mul-lt-mul : (a b c : ℕ) → a < b → 0 < c → a * c < b * c
mul-lt-mul a b c h k = grind arith

-- A user id put behind a network address.
or_user_id :
    (net q m k user_id : ℕ)
    → net ≡ q * 2 ^ m
    → m ≡ 32 + k
    → user_id < 2 ^ 32
    → bit_or net (user_id * 2 ^ k) ≡ (q * 2 ^ 32 + user_id) * 2 ^ k
or_user_id net q m k user_id e w fits =
    let room : user_id * 2 ^ k < 2 ^ (32 + k) =
      rw (pow-add 32 k) (mul-lt-mul user_id (2 ^ 32) (2 ^ k) fits (one-le-pow k 2 (omega arith))) in
    rw (e, w)
      (bit_or-shifted (32 + k) q (user_id * 2 ^ k) room
        ∙ omega (arith, ap (λ (t : ℕ). q * t) (pow-add 32 k)))

module _ (ipnet : Ipnet) where
  open ipnet use {
    Ipv6Net, parse, addr, prefix_len, network, new, contains, network_lem, new_lem, contains_iff,
  }

  -- The user's address block: the agent's leading bits, the user id, then zeros.
  user_addr_lem :
      (n : Ipv6Net) (user_id : ℕ)
      → prefix_len n ≤ 96
      → user_id < 2 ^ 32
      → user_addr ipnet n user_id
        ≡ (addr n / 2 ^ (128 - prefix_len n) * 2 ^ 32 + user_id) * 2 ^ (96 - prefix_len n)
  user_addr_lem n user_id short fits =
      let e : 128 - prefix_len n - 32 ≡ 96 - prefix_len n = omega arith in
      rw e (
        or_user_id (network n) (addr n / 2 ^ (128 - prefix_len n)) (128 - prefix_len n)
          (96 - prefix_len n) user_id (network_lem n (omega arith)) (omega arith) fits)

  -- Without a usable prefix there is no block; with one, the block has the length of the agent's
  -- prefix and 32 bits more.
  calculate_cases :
      (p : String) (user_id : ℕ)
      → ((calculate_user_prefix ipnet p user_id ≡ none)
          × ((ip : ℕ) → validate_user_ipv6 ipnet ip p user_id ≡ false))
        ⊎ ((n : Ipv6Net) × (parse p ≡ some n)
            × (prefix_len n ≤ 96)
            × (calculate_user_prefix ipnet p user_id
                ≡ some (user_addr ipnet n user_id, prefix_len n + 32)))
  unfolding calculate_user_prefix calculate_user_prefix_addr validate_user_ipv6
  calculate_cases p user_id = elim (Option-cases (parse p)) [
    | inl e ↦ inl (ground arith, λ ip. ground arith)
    | inr (n, e) ↦ elim (Bool-cases (ltb 96 (prefix_len n))) [
      | inl long ↦ inl (ground arith, λ ip. ground arith)
      | inr short ↦ inr (n, e, ground arith, ground arith)
    ]
  ]

  in_block :
      (u : Ipv6Net) (a k ip : ℕ)
      → addr u ≡ a
      → 128 - prefix_len u ≡ k
      → (contains u ip ≡ true) ↔ (ip / 2 ^ k ≡ a / 2 ^ k)
  in_block u a k ip e w = rw (← e, ← w) (contains_iff u ip)

  validate_contains :
      (ip : ℕ) (p : String) (user_id : ℕ) (n u : Ipv6Net)
      → parse p ≡ some n
      → prefix_len n ≤ 96
      → new (user_addr ipnet n user_id) (prefix_len n + 32) ≡ some u
      → validate_user_ipv6 ipnet ip p user_id ≡ contains u ip
  unfolding validate_user_ipv6 calculate_user_prefix_addr
  validate_contains ip p user_id n u e short made = ground arith

  -- An address is accepted for a user exactly if it lies in the block of the user's address.
  validate_block :
      (ip : ℕ) (p : String) (user_id : ℕ) (n : Ipv6Net)
      → parse p ≡ some n
      → prefix_len n ≤ 96
      → (validate_user_ipv6 ipnet ip p user_id ≡ true)
        ↔ (ip / 2 ^ (96 - prefix_len n) ≡ user_addr ipnet n user_id / 2 ^ (96 - prefix_len n))
  validate_block ip p user_id n e short =
      let (u, made, at, long) =
        new_lem (user_addr ipnet n user_id) (prefix_len n + 32) (omega arith) in
      rw (validate_contains ip p user_id n u e short made)
        (in_block u (user_addr ipnet n user_id) (96 - prefix_len n) ip at (omega arith))

  -- Who owns an address under an agent's prefix that parses and has at most 96 bits, for user ids
  -- below 2 ^ 32: the user whose 32-bit id
  -- follows the leading bits that the address shares with the prefix.
  pub validate_user_ipv6_iff :
      (ip : ℕ) (p : String) (user_id : ℕ) (n : Ipv6Net)
      → parse p ≡ some n
      → prefix_len n ≤ 96
      → user_id < 2 ^ 32
      → (validate_user_ipv6 ipnet ip p user_id ≡ true) ↔ (
          (ip / 2 ^ (128 - prefix_len n) ≡ addr n / 2 ^ (128 - prefix_len n))
          × (ip / 2 ^ (96 - prefix_len n) % 2 ^ 32 ≡ user_id))
  validate_user_ipv6_iff ip p user_id n e short fits =
      let k : ℕ = 96 - prefix_len n in
      let q : ℕ = addr n / 2 ^ (128 - prefix_len n) in
      let block : user_addr ipnet n user_id / 2 ^ (96 - prefix_len n)
          ≡ addr n / 2 ^ (128 - prefix_len n) * 2 ^ 32 + user_id =
        rw (user_addr_lem n user_id short fits) (mul-div_cancel _ (one-le-pow k 2 (omega arith))) in
      let wide : 128 - prefix_len n ≡ (96 - prefix_len n) + 32 = omega arith in
      let top : ip / 2 ^ (128 - prefix_len n) ≡ ip / 2 ^ (96 - prefix_len n) / 2 ^ 32 =
        ap (λ (t : ℕ). ip / 2 ^ t) wide
        ∙ (ap (λ (t : ℕ). ip / t) (pow-add (96 - prefix_len n) 32)
            ∙ sym (div-div-eq-div-mul ip (2 ^ (96 - prefix_len n)) (2 ^ 32))) in
      let v = validate_block ip p user_id n e short in
      (
        λ h. (omega (arith, v.0 h, block, top), omega (arith, v.0 h, block, top)),
        λ h. v.1 (omega (arith, block, top, h.0, h.1)),
      )

  -- No address is accepted under the same prefix for two users with different ids below 2 ^ 32.
  pub validate_user_ipv6-injective :
      (ip : ℕ) (p : String) (i j : ℕ)
      → i < 2 ^ 32
      → j < 2 ^ 32
      → validate_user_ipv6 ipnet ip p i ≡ true
      → validate_user_ipv6 ipnet ip p j ≡ true
      → i ≡ j
  validate_user_ipv6-injective ip p i j fi fj hi hj = elim (calculate_cases p i) [
    | inl (_, refused) ↦ cc (refused ip)
    | inr (n, e, short, _) ↦
        sym ((validate_user_ipv6_iff ip p i n e short fi).0 hi).1
        ∙ ((validate_user_ipv6_iff ip p j n e short fj).0 hj).1
  ]

  -- What a prefix, if there is one, says of the addresses that are accepted for a user.
  abbrev pub Describes : String → ℕ → Option (ℕ × ℕ) → Type 0
  Describes p user_id none = (ip : ℕ) → validate_user_ipv6 ipnet ip p user_id ≡ false
  Describes p user_id (some (a, l)) =
      (ip : ℕ)
      → (validate_user_ipv6 ipnet ip p user_id ≡ true) ↔ (ip / 2 ^ (128 - l) ≡ a / 2 ^ (128 - l))

  -- The prefix that a user is shown is the set of addresses that are accepted for the user; a user
  -- who is shown none has no address accepted.
  pub calculate_user_prefix-validate :
      (p : String) (user_id : ℕ) → Describes p user_id (calculate_user_prefix ipnet p user_id)
  calculate_user_prefix-validate p user_id = elim (calculate_cases p user_id) [
    | inl (e, refused) ↦ rw e refused
    | inr (n, e, short, c) ↦
        let k : 128 - (prefix_len n + 32) ≡ 96 - prefix_len n = omega arith in
        rw c (λ ip. rw k (validate_block ip p user_id n e short))
  ]
