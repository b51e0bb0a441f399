-- ===== src/Config/Profile.antt =====
-- The nonsecret connection settings of internal/config/profiles.go. An absent string is empty, and
-- an absent pointer is none, as in the source.
use data_mate.Base.{ℕ, Option, List, Text}

pub record Connection : Type 0 where
  pub host : Text
  pub port : ℕ
  pub database : Text
  pub username : Text

pub record Tls : Type 0 where
  pub mode : Text
  pub ca_file : Text

pub record Ssh : Type 0 where
  pub host : Text
  pub port : ℕ
  pub user : Text
  pub auth : Text

pub record Proxy : Type 0 where
  pub kind : Text
  pub host : Text
  pub port : ℕ
  pub username : Text

pub record Transport : Type 0 where
  pub tls : Tls
  pub ssh : Option Ssh
  pub proxy : Option Proxy

-- Zero in `query_timeout_ms` and in `max_result_bytes` is no limit.
pub record Limits : Type 0 where
  pub query_timeout_ms : ℕ
  pub max_rows : ℕ
  pub max_result_bytes : ℕ

pub record Profile : Type 0 where
  pub id : Text
  pub alias : Text
  pub driver : Text
  pub connection : Connection
  pub credential_ref : Text
  pub transport : Transport
  pub limits : Option Limits

pub record Profiles : Type 0 where
  pub version : ℕ
  pub connections : List Profile

abbrev pub default_limits : Limits
default_limits = record { query_timeout_ms = 0; max_rows = 50000; max_result_bytes = 0 }
