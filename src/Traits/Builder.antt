-- ===== src/Traits/Builder.antt =====
-- The trait ExchangeClientBuilder of rs/src/traits/mod.rs.
use cryptomeria.Common.{ℕ, Bool, String}

pub record ExchangeClientBuilder {ℓ κ μ ν} (Self : Type ℓ) (Sender : Type κ) (Metrics : Type μ)
    (Handle : Type ν) : Type (ℓ ⊔ κ ⊔ μ ⊔ ν) where
  pub with_sender : Sender → Self → Self
  pub with_retention_window : ℕ → Self → Self
  pub with_metrics_port : ℕ → Self → Self
  pub with_data_output : Bool → Self → Self
  pub with_cli_instrument : String → Self → Self
  pub with_lob_metrics : Metrics → Self → Self
  pub with_status_handle : Handle → Self → Self
  pub with_snapshot_depth : ℕ → Self → Self
  pub with_max_level : ℕ → Self → Self

-- The bodies that the trait gives for its last two methods.
abbrev pub default_with_snapshot_depth {ℓ} : {Self : Type ℓ} → ℕ → Self → Self
default_with_snapshot_depth depth client = client

abbrev pub default_with_max_level {ℓ} : {Self : Type ℓ} → ℕ → Self → Self
default_with_max_level max client = client
