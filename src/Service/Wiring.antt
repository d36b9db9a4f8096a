-- ===== src/Service/Wiring.antt =====
-- examples/k8s_service.rs: which checks the service registers, and in which order.
use healthkit.Base.{◌≡◌, refl, Text, codes, List, [], ◌∷◌, ◌++◌, Option, none, some}
use healthkit.Async.Runtime.{Runtime}
use healthkit.Duration.{from_secs}
use healthkit.Registry.{
  RegisteredCheck, HealthRegistry, Store, add_check, add_check_to_group, with_default_timeout, new,
}
use healthkit.Registry.Sharing.{Has, Has-new, Has-add_check_inner}
use healthkit.Checks.Redis
use healthkit.Checks.Sqlx
use healthkit.Service.Setup.{AtomicBool, initialized_check, draining_check, register_cache, setup}

-- The checks that the service registers.
abbrev pub database : (rt : Runtime) (db : Sqlx.Database) → db.Pool → RegisteredCheck
database rt db pool = record {
  name = codes "database";
  group = none;
  check_fn = Sqlx.check db rt (Sqlx.new db pool (from_secs 2) 500);
}

abbrev pub cache : Runtime → Redis.RedisClient → Option Text → List RegisteredCheck
cache rt redis none = []
cache rt redis (some url) =
    record {
      name = codes "cache";
      group = none;
      check_fn = Redis.check rt redis (Redis.new url (from_secs 2) 500);
    }
    ∷ []

abbrev pub init : AtomicBool → RegisteredCheck
init initialized = record {
  name = codes "initialized";
  group = some (codes "init");
  check_fn = initialized_check initialized;
}

abbrev pub drain : AtomicBool → RegisteredCheck
drain draining = record {
  name = codes "draining";
  group = none;
  check_fn = draining_check draining;
}

module _ (rt : Runtime) (redis : Redis.RedisClient) (db : Sqlx.Database) (pool : db.Pool)
    (redis_url : Option Text) (draining initialized : AtomicBool) where
  abbrev pub registered : List RegisteredCheck
  registered =
      ((database rt db pool ∷ cache rt redis redis_url) ++ init initialized ∷ [])
      ++ drain draining ∷ []

  module _ (s : Store) where
    Has-register_cache :
        (url : Option Text) (r : HealthRegistry) (s : Store)
        → Has r (database rt db pool ∷ []) s
        → Has r (database rt db pool ∷ cache rt redis url) (register_cache rt redis db url r s)
    unfolding register_cache add_check Redis.register
    Has-register_cache none r s h = h
    Has-register_cache (some url) r s h = Has-add_check_inner r _ _ _ s (database rt db pool ∷ []) h

    -- The service's registry has the timeout of two seconds and exactly the database check, the
    -- cache check if there is a URL for it, the check of the group `init`, and the draining check.
    pub setup-Has :
        ((setup rt redis db pool redis_url draining initialized s).0.default_timeout ≡ from_secs 2)
        × Has
            (setup rt redis db pool redis_url draining initialized s).0
            registered
            (setup rt redis db pool redis_url draining initialized s).1
    unfolding setup add_check add_check_to_group Sqlx.register new with_default_timeout
    setup-Has =
        let r = with_default_timeout (new s).0 (from_secs 2) in
        let with_database = Has-add_check_inner r none _ _ _ [] (Has-new s (from_secs 2)) in
        let with_cache = Has-register_cache redis_url r _ with_database in
        let with_init = Has-add_check_inner r (some (codes "init")) _ _ _ _ with_cache in
        (refl, Has-add_check_inner r none _ _ _ _ with_init)
