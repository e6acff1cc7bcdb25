-- ===== src/Xbe/Cache/Make/Build.antt =====
-- src/core/default_xbe_cache_source.c: what the constructor makes of a partition.
use gdox.Common.{ℕ, ◌*◌, ◌<◌, ◌≡◌, Option, some, Image, u64_mod}
use gdox.Fault.{ErrorCode, Outcome, ok, failed}
use gdox.Source.{sector_bytes, Source}
use gdox.Source.Dispatch.{closed_source}
use gdox.Source.Image.{Serves, Reliable}
use gdox.Disc.Direct.{Malloc}
use gdox.Disc.Direct.Delivery.{Gives}
use gdox.Xbe.Cache.{CacheContext}
use gdox.Xbe.Cache.Shown.{CacheOf, cached_image}
use gdox.Xbe.Cache.Make.{Prepared}

module _ {C : Type 0} (Good : Source C → Type 0) (sectors : ℕ) (img : Image)
    (serves : Serves Good sectors img) (bounded : sectors * sector_bytes < u64_mod)
    (malloc : Malloc) (gives : Gives malloc) where
  -- What a call leaves of the handles, with the cache that is planned and what it needs
  pub record Makes (plan : Prepared) (Room : Type 0)
      (left : Outcome × Option (Source C) × Option (Source (CacheContext C))) : Type 0 where
    pub moves :
        left.0 ≡ ok
        → (left.1 ≡ some closed_source)
          × ((cache : Source (CacheContext C)) × (left.2 ≡ some cache)
              × CacheOf Good plan.bytes plan.start_sector plan.sectors cache
              × Serves
                  (CacheOf Good plan.bytes plan.start_sector plan.sectors)
                  sectors
                  (cached_image img plan.bytes plan.start_sector))
    pub keeps :
        (code : ErrorCode)
        → left.0 ≡ failed code
        → ((partition : Source C) × (left.1 ≡ some partition) × Good partition)
          × (left.2 ≡ some closed_source)
    pub succeeds : Reliable Good sectors → Room → left.0 ≡ ok
