-- ===== src/Examples/Parameters.antt =====
-- Concrete stand-ins for the code outside the repository, and a small world.
use saimiris_gateway.Prelude.{
  ℕ, ◌+◌, ◌-◌, ◌*◌, ◌/◌, ◌^◌, ◌≤◌, ◌<◌, String, Bool, true, false, Option, none, some, List, [],
  ◌∷◌, ◌≡◌, refl, arith, str_eq, leb, ◌==◌, ==_iff, if◌then◌else◌, length, Result, ok,
}
use saimiris_gateway.Prelude.Int.{pos}
use saimiris_gateway.Json.{Value, number, pos_int, string, array, nil, cons}
use saimiris_gateway.Net.{IpAddr, v4, v6}
use saimiris_gateway.Agent.{Agent, AgentConfig, HealthStatus, AgentStore}
use saimiris_gateway.Prefix.Ipnet.{Ipnet}
use saimiris_gateway.Probe.{ProbeError}
use saimiris_gateway.Probe.Wire.{Message}
use saimiris_gateway.Submit.{AgentMetadata}
use saimiris_gateway.Database.{MockStorage, MeasurementTracking, new_storage}

abbrev pub documentation_net : ℕ
documentation_net = 0x20010db8 * 2 ^ 96

abbrev pub ip_from_str : String → Option IpAddr
ip_from_str s =
    if str_eq s "2001:db8::1"
    then some (v6 (documentation_net + 1))
    else if str_eq s "192.0.2.1"
    then some (v4 0xc0000201)
    else none

abbrev pub write_message : Message → Result ProbeError (List ℕ)
write_message m = ok (m.ttl ∷ m.src_port ∷ m.dst_port ∷ m.dst_addr)

pub writes_bytes : (m : Message) (bytes : List ℕ) → write_message m ≡ ok bytes → 0 < length bytes
writes_bytes m bytes h = ground arith

pub encodes : (m : Message) → (bytes : List ℕ) × (write_message m ≡ ok bytes)
encodes m = (m.ttl ∷ m.src_port ∷ m.dst_port ∷ m.dst_addr, refl)

abbrev pub network_of : ℕ × ℕ → ℕ
network_of n = n.0 / 2 ^ (128 - n.1) * 2 ^ (128 - n.1)

abbrev pub new_net : ℕ → ℕ → Option (ℕ × ℕ)
new_net a l = if leb l 128 then some (a, l) else none

pub new_net_lem : (a l : ℕ) → l ≤ 128 → (n : ℕ × ℕ) × (new_net a l ≡ some n) × (n.0 ≡ a) × (n.1 ≡ l)
new_net_lem a l h = ((a, l), ground arith, refl, refl)

abbrev pub ipnet : Ipnet
ipnet = record {
  Ipv6Net = ℕ × ℕ;
  parse = λ s. if str_eq s "2001:db8::/32" then some (documentation_net, 32) else none;
  addr = λ n. n.0;
  prefix_len = λ n. n.1;
  network = network_of;
  new = new_net;
  contains = λ n ip. ip / 2 ^ (128 - n.1) == n.0 / 2 ^ (128 - n.1);
  network_lem = λ n h. refl;
  new_lem = new_net_lem;
  contains_iff = λ n ip. ==_iff _ _;
}

abbrev pub config : AgentConfig
config = record {
  name = none;
  batch_size = 100;
  instance_id = 0;
  dry_run = false;
  min_ttl = none;
  max_ttl = none;
  integrity_check = true;
  interface = "eth0";
  src_ipv4_prefix = none;
  src_ipv6_prefix = some "2001:db8::/32";
  packets = 1;
  probing_rate = 100;
  rate_limiting_method = "auto";
}

abbrev pub health : HealthStatus
health = record { healthy = true; last_check = 50; message = none }

abbrev pub alpha : Agent
alpha = record {
  id = "alpha";
  secret = "s3cret";
  config = some (config ∷ []);
  health = some health;
  last_seen = 50;
}

abbrev pub store : AgentStore
store = record { agents = ("alpha", alpha) ∷ [] }

abbrev pub probe : Value
probe = array (
    cons (string "2001:db8::1") (
      cons (number (pos_int 24000))
        (cons (number (pos_int 33434)) (cons (number (pos_int 30)) (cons (string "udp") nil)))))

-- A measurement 7 of user "user" on two agents, of which one has finished.
abbrev pub row : String → Bool → MeasurementTracking
row agent_id done = record {
  id = 1;
  user_hash = "user";
  measurement_id = 7;
  agent_id = agent_id;
  expected_probes = pos 3;
  sent_probes = pos 1;
  is_complete = done;
  cancelled = false;
  created_at = 10;
  updated_at = 20;
}

abbrev pub storage : MockStorage
storage = record new_storage { measurement_tracking = row "alpha" true ∷ row "beta" false ∷ [] }

abbrev pub agent_meta : AgentMetadata
agent_meta = record {
  id = "alpha";
  ip_address = some (v6 (documentation_net + 2000000 * 2 ^ 64 + 1));
}
