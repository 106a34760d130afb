-- ===== src/Env.antt =====
-- What the process takes from outside: the clock, the identifier and hash libraries, the process
-- environment and the float unit. Every operation of the model that uses one of these takes an
-- `Env`, and nothing is assumed of its fields but where a theorem says so.
use prototype_cache.Prelude.{ℕ, String, Bool, Option, List}
use prototype_cache.Prelude.Int.{ℤ}
use prototype_cache.Models.{Ratio}

-- What `json.loads` returns, as far as `capacity_limits` tells values apart: an object, with
-- `none` for a value that is no `int`, or something else.
pub data Json : Type 0 where
  object : List (String × Option ℤ) → Json
  not_object : Json

pub record Env : Type 0 where
  -- the n-th reading of `utcnow()`
  pub clock : ℕ → ℕ
  -- the n-th call of `uuid`
  pub new_uuid : ℕ → String
  -- `hashlib.sha256(...).hexdigest()`
  pub sha256 : String → String
  -- `int(os.environ.get("ASSET_STORE_RESULTS_MAX_TTL_SECONDS", ...))`; `none`: it is no integer
  pub results_max_ttl : Option ℤ
  -- `json.loads(os.environ.get("ASSET_STORE_CAPACITY_BYTES", "{}"))`; `none`: it is no JSON
  pub capacity_bytes : Option Json
  -- `float(os.environ.get("ASSET_STORE_CAPACITY_HARD_RATIO", "0.95"))`; `none`: it is no number
  pub capacity_hard_ratio : Option Ratio
  -- `x >= q * r` for two `int`s and a `float`
  pub reaches : ℕ → ℕ → Ratio → Bool
  -- `x <= q * r`, likewise
  pub within : ℕ → ℕ → Ratio → Bool
  -- `_score` of two ages, in microseconds, and sizes: whether the first product of floats is less
  pub scores_less : ℕ × ℕ → ℕ × ℕ → Bool
