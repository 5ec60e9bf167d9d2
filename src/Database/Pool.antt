-- ===== src/Database/Pool.antt =====
-- `NewDBWithConfig` of internal/db/db.go. `pgxpool.ParseConfig` and `pgxpool.NewWithConfig` are parameters:
-- `C` is a parsed configuration, `Pl` a pool, and `W` the state outside.
use wb_l.Base.Decimal.{decimal}
use wb_l.Base.Text.{codes, Text}
use wb_l.Base.Int.{negsuc, pos, neg_part, pos_part, ℤ}
use wb_l.Base.{
  ◌≤◌, ◌⊎◌, arith, ◌++◌, Option, ◌<◌, some, none, ℕ, ◌-◌, inr, ◌≡◌, inl, ◌%◌, ltb, if◌then◌else◌,
}
use wb_l.Config.{Config, DatabaseConfig}

-- `fmt.Sprintf("postgres://%s:%s@%s:%d/%s?sslmode=%s", …)`
unfoldable pub dns : DatabaseConfig → Text
unfolding decimal
dns c =
    codes "postgres://"
    ++ (c.user
        ++ (codes ":"
            ++ (c.password
                ++ (codes "@"
                    ++ (c.host
                        ++ (codes ":"
                            ++ (decimal c.port
                                ++ (codes "/"
                                    ++ (c.database ++ (codes "?sslmode=" ++ c.ssl_mode))))))))))

abbrev pub two31 : ℕ
two31 = 2147483648

abbrev pub two32 : ℕ
two32 = 4294967296

-- `int32(a)`: the remainder modulo 2 ^ 32, read with a sign.
unfoldable pub int32 : ℤ → ℤ
int32 (pos n) = let u = n % two32 in if ltb u two31 then pos u else negsuc (two32 - u - 1)
int32 (negsuc n) = let u = n % two32 in if ltb u two31 then negsuc u else pos (two32 - u - 1)

-- The fields that are set of the parsed configuration.
pub record PoolLimits : Type 0 where
  pub max_conns : ℤ
  pub min_conns : ℤ
  pub min_idle_conns : ℤ
  pub health_check_period : ℤ

unfoldable pub pool_limits : DatabaseConfig → PoolLimits
unfolding int32
pool_limits c = record {
  max_conns = int32 c.max_open_connections;
  min_conns = int32 c.min_open_connections;
  min_idle_conns = int32 c.min_idle_connections;
  health_check_period = c.health_check_period;
}

pub data PoolError (E : Type 0) : Type 0 where
  no_config : PoolError E
  failed : E → PoolError E

module _ {Ctx C Pl E W : Type 0} (parse_config : Text → C ⊎ E)
    (new_with_config : Ctx → C → PoolLimits → W → (Pl ⊎ E) × W) where
  unfoldable pub made : (Pl ⊎ E) × W → (Pl ⊎ PoolError E) × W
  made (inl pool, w) = (inl pool, w)
  made (inr e, w) = (inr (failed e), w)

  unfoldable pub new_db_with_config : Ctx → Option Config → W → (Pl ⊎ PoolError E) × W
  unfolding made dns pool_limits
  new_db_with_config ctx none w = (inr no_config, w)
  new_db_with_config ctx (some cfg) w = elim (parse_config (dns cfg.database)) [
    | inr e ↦ (inr (failed e), w)
    | inl parsed ↦ made (new_with_config ctx parsed (pool_limits cfg.database) w)
  ]

-- `OrderRepo` of internal/db/repo.go, on a pool of its own.
pub record OrderRepo (Pl : Type 0) : Type 0 where
  pub db : Pl

module _ {Ctx C Pl E W : Type 0} (parse_config : Text → C ⊎ E)
    (new_with_config : Ctx → C → PoolLimits → W → (Pl ⊎ E) × W) where
  unfoldable pub new_order_repo : Ctx → Option Config → W → (OrderRepo Pl ⊎ PoolError E) × W
  unfolding new_db_with_config
  new_order_repo ctx cfg w =
      let (result, w') = new_db_with_config parse_config new_with_config ctx cfg w in
      elim result [ inl pool ↦ (inl (record { db = pool }), w') | inr e ↦ (inr e, w') ]

pub int32_of_range : (a : ℤ) → pos_part a < two31 → neg_part a ≤ two31 → int32 a ≡ a
unfolding int32
int32_of_range (pos n) lo hi = ground arith
int32_of_range (negsuc n) lo hi = ground arith

-- The limits of a configuration in the range of `int32` reach the pool unchanged.
pub pool_limits-int32 :
    (c : DatabaseConfig)
    → pos_part c.max_open_connections < two31
    → neg_part c.max_open_connections ≤ two31
    → pos_part c.min_open_connections < two31
    → neg_part c.min_open_connections ≤ two31
    → ((pool_limits c).max_conns ≡ c.max_open_connections)
      × ((pool_limits c).min_conns ≡ c.min_open_connections)
unfolding pool_limits
pool_limits-int32 c a b d e = (int32_of_range _ a b, int32_of_range _ d e)
