-- ===== src/Server/Config.antt =====
-- src/include/carafe/config.hpp. Durations are in milliseconds.
use carafe.Base.{ℕ}

pub record PoolLimits : Type 0 where
  pub workers : ℕ
  pub queued : ℕ
  pub queue_wait : ℕ

pub record Deadlines : Type 0 where
  pub idle : ℕ
  pub request : ℕ

abbrev pub default_limits : PoolLimits
default_limits = record { workers = 64; queued = 512; queue_wait = 5000 }

abbrev pub default_deadlines : Deadlines
default_deadlines = record { idle = 30000; request = 30000 }
