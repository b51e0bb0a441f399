-- ===== src/Config/Limits.antt =====
-- `Limits.UnmarshalJSON` of internal/config/profiles.go: what the historical, unversioned limits
-- become, and which current ones are refused.
use data_mate.Base.{
  ℕ, ◌≤◌, ◌^◌, ◌-◌, ◌≡◌, Bool, not, ◌&&◌, ℤ, pos, negsuc, is_negative, at_least, pos_part, leb,
  Result, ok, err, limits, ◌>>◌, guard, ◌==◌, arith,
}
use data_mate.Config.Profile.{Limits, default_limits}

-- `version` as it stands in the document: absent, no integer, or an integer.
pub data Version : Type 0 where
  absent no_integer : Version
  number : ℤ → Version

-- The decoded members; an absent one has its default.
pub record RawLimits : Type 0 where
  pub version : Version
  pub query_timeout_ms : ℤ
  pub max_rows : ℤ
  pub max_result_bytes : ℤ

-- PostgreSQL's largest statement_timeout, in milliseconds.
abbrev pub max_query_timeout : ℕ
max_query_timeout = 2 ^ 31 - 1

in_range : RawLimits → Bool
in_range v =
    not (is_negative v.query_timeout_ms)
    && leb (pos_part v.query_timeout_ms) max_query_timeout
    && at_least 1 v.max_rows
    && not (is_negative v.max_result_bytes)

migrate : Version → RawLimits → Result Limits
migrate absent v = ok default_limits
migrate no_integer v = err limits
migrate (number (negsuc n)) v = err limits
migrate (number (pos n)) v = do
  guard (n == 2) limits
  ok (record {
    query_timeout_ms = pos_part v.query_timeout_ms;
    max_rows = pos_part v.max_rows;
    max_result_bytes = pos_part v.max_result_bytes;
  })

unfoldable pub unmarshal_limits : RawLimits → Result Limits
unfolding in_range migrate
unmarshal_limits v = do guard (in_range v) limits; migrate v.version v

-- `Limits.MarshalJSON`.
pub marshal_limits : Limits → RawLimits
marshal_limits l = record {
  version = number (pos 2);
  query_timeout_ms = pos l.query_timeout_ms;
  max_rows = pos l.max_rows;
  max_result_bytes = pos l.max_result_bytes;
}

pub record IsBounded (l : Limits) : Type 0 where
  pub timeout : l.query_timeout_ms ≤ max_query_timeout
  pub rows : 1 ≤ l.max_rows

-- Limits that are read are within PostgreSQL's timeout and allow at least one row.
pub unmarshal_limits-IsBounded :
    (v : RawLimits) {l : Limits} → unmarshal_limits v ≡ ok l → IsBounded l
unfolding unmarshal_limits
unmarshal_limits-IsBounded v h = ground arith

-- Limits in that range are written in such a way that they are read back unchanged.
pub unmarshal_limits-marshal_limits :
    (l : Limits) → IsBounded l → unmarshal_limits (marshal_limits l) ≡ ok l
unfolding unmarshal_limits marshal_limits
unmarshal_limits-marshal_limits l h = ground arith
