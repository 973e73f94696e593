-- ===== src/Agent/Config.antt =====
-- src/agent.rs: the defaults of `AgentConfig`, for the fields that a configuration leaves out. Reading
-- and writing a configuration is serde's derived code.
use saimiris_gateway.Prelude.{ℕ, String}

abbrev pub default_caracat_batch_size : ℕ
default_caracat_batch_size = 1000

abbrev pub default_caracat_instance_id : ℕ
default_caracat_instance_id = 0

abbrev pub default_caracat_interface : String
default_caracat_interface = "eth0"

abbrev pub default_caracat_packets : ℕ
default_caracat_packets = 10000

abbrev pub default_caracat_probing_rate : ℕ
default_caracat_probing_rate = 1000

abbrev pub default_caracat_rate_limiting_method : String
default_caracat_rate_limiting_method = "None"
