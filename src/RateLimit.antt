-- ===== src/RateLimit.antt =====
-- backend/app/core/ratelimit.py: one counter for each bucket and address, in the key-value store.
pub mod Window
use Prim.Native.String.{String}
use poctamat_back.Common.{ℕ, Option, none, some, ltb, Result, ok, err, raise_if, rate_limited}
use poctamat_back.KeyValue.{Key, rate, KeyValueStore, increment}

-- `request.client.host if request.client else "unknown"`
abbrev pub client_ip : Option String → String
client_ip none = "unknown"
client_ip (some host) = host

abbrev pub check_limit : ℕ → KeyValueStore × Result (ℕ × ℕ) → KeyValueStore × Result (Unit {0})
check_limit limit (st, err problem) = (st, err problem)
check_limit limit (st, ok (current, ttl)) = (st, raise_if (ltb limit current) rate_limited 429)

-- The dependency that `rate_limit(bucket, limit, window_seconds)` makes.
unfoldable pub rate_limit :
    String → ℕ → ℕ → ℕ → ℕ → Option String → KeyValueStore → KeyValueStore × Result (Unit {0})
rate_limit bucket limit window_seconds now later host st =
    check_limit limit (increment now later (rate bucket (client_ip host)) window_seconds st)
