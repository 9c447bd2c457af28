-- ===== src/Config.antt =====
-- src/config.rs: the configuration's data. The fields `tls` and `cert_resolver` of `Config` stand
-- in Load.Loaded and Certs.CertResolver.
pub mod Load
pub mod Certs
use oxidized_wall.Base.{ℕ, Str, List}
use oxidized_wall.Dict.{HashMap}

pub record NetworkConfig : Type 0 where
  pub http_addrs : List Str
  pub https_addrs : List Str
  pub max_connections : ℕ

pub record TimeoutConfig : Type 0 where
  pub c_tls_handshake : ℕ
  pub c_header_read : ℕ
  pub c_keep_alive_idle : ℕ
  pub c_keep_alive_timeout : ℕ
  pub c_body_timeout : ℕ
  pub s_connect : ℕ
  pub s_response : ℕ
  pub s_websocket_idle : ℕ

pub record LimitConfig : Type 0 where
  pub max_uri_size : ℕ
  pub max_header_size : ℕ
  pub max_header_count : ℕ
  pub max_body_size : ℕ
  pub c_h2_max_streams : ℕ
  pub max_rps : ℕ
  pub max_bandwidth : ℕ

pub record BanConfig : Type 0 where
  pub ban_timeout : ℕ
  pub ban_protocol : ℕ
  pub ban_waf : ℕ
  pub ban_rate_limit : ℕ

-- `routers` holds a path and its upstreams; `routers_state` a counter for each path.
pub record VHostConfig : Type 0 where
  pub cert_path : Str
  pub key_path : Str
  pub routers : List (Str × List Str)
  pub routers_state : HashMap Str ℕ

pub record Config : Type 0 where
  pub network : NetworkConfig
  pub timeout : TimeoutConfig
  pub limit : LimitConfig
  pub ban : BanConfig
  pub vhosts : HashMap Str VHostConfig
