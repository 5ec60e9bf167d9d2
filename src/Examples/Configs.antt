-- ===== src/Examples/Configs.antt =====
-- The theorem on config.go at settings that validate.
use wb_l.Manager.Calls.{stored_all}
use wb_l.Config.Load.{get_server_address}
use wb_l.LruCache.Walk.{each_once, each_once-IsRange}
use wb_l.Start.Ready.{start_up-ready}
use wb_l.Base.Text.{text_dec, codes}
use wb_l.Base.{◌∷◌, ◌⊎◌, inl, ℕ, [], ◌≡◌, refl, none}
use wb_l.Config.{config_validate, Config}
use wb_l.Manager.Lru.{LruState, IsLru}
use wb_l.Start.{start_up, ready}
use wb_l.Examples.Services.{bounded, quota, quota_laws}
use wb_l.Examples.Orders.{mascaras_order}
use wb_l.Examples.Managers.{blank-IsFresh, repository}
use wb_l.Examples.Managers.{blank, blank-IsFresh}
use wb_l.Base.Int.{pos}

abbrev pub settings : Config
settings = record {
  server = record {
    port = pos 8081;
    read_timeout = pos 0;
    write_timeout = pos 0;
    idle_timeout = pos 0;
  };
  database = record {
    host = codes "postgres";
    port = pos 5432;
    user = codes "user";
    password = codes "password";
    database = codes "orders";
    ssl_mode = codes "disable";
    max_open_connections = pos 10;
    min_open_connections = pos 1;
    min_idle_connections = pos 1;
    health_check_period = pos 0;
    retry = record { max_attempts = pos 3 };
  };
  kafka = record {
    topic = codes "orders";
    group_id = codes "group";
    listeners = [];
    advertised_listeners = [];
  };
  cache = record { capacity = pos 100 };
  circuit_breaker = record { max_failers = pos 5; timeout = pos 0; half_open_max_calls = pos 3 };
}

pub settings_ok : config_validate settings ≡ none
unfolding config_validate
settings_ok = refl

start_up-ready_example :
    (n : ℕ) × (b' : ℕ) × (s : LruState) × (r' : ℕ) × (start_up
        (each_once text_dec)
        repository
        0
        quota
        bounded
        (inl settings)
        none
        none
        blank
        1
        2
        0
      ≡ ready (b', (s, r')))
    × (pos n ≡ pos 100)
    × (s.0.capacity ≡ n)
    × (IsLru s [] ⊎ IsLru s (stored_all n (mascaras_order ∷ []) []))
start_up-ready_example =
    start_up-ready (each_once text_dec) (each_once-IsRange text_dec) repository 0 quota_laws bounded
      settings blank 1 2 0 settings_ok blank-IsFresh

get_server_address_test : get_server_address settings ≡ codes ":8081"
unfolding get_server_address
get_server_address_test = refl
