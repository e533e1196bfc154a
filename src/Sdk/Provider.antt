-- ===== src/Sdk/Provider.antt =====
-- sdk/src/provider.rs: the trait `FsProvider`. All providers live in one `World`, and a provider is
-- known by its identity, so that two mounts of one `Arc` share a state.
use fs.Base.{ℕ, List, Text, Bool}
use fs.Sdk.Error.{FsResult}
use fs.Sdk.Types.{FileInfo, StatChanges, OpenFlags, FsStats}
use fs.Sdk.Capabilities.{Capabilities}

abbrev pub ProviderId : Type 0
ProviderId = ℕ

-- `Handle(u64)` and `Bytes`
abbrev pub Handle : Type 0
Handle = ℕ

abbrev pub Bytes : Type 0
Bytes = List ℕ

pub record Providers : Type 1 where
  pub World : Type 0
  pub capabilities : ProviderId → Capabilities
  pub stat : ProviderId → Text → World → World × FsResult FileInfo
  pub wstat : ProviderId → Text → StatChanges → World → World × FsResult (Unit {0})
  pub statfs : ProviderId → Text → World → World × FsResult FsStats
  pub open_file : ProviderId → Text → OpenFlags → World → World × FsResult (Handle × FileInfo)
  pub read : ProviderId → Handle → ℕ → ℕ → World → World × FsResult Bytes
  pub write : ProviderId → Handle → ℕ → Bytes → World → World × FsResult ℕ
  pub close : ProviderId → Handle → Bool → World → World × FsResult (Unit {0})
  pub readdir : ProviderId → Text → World → World × FsResult (List FileInfo)
  pub remove : ProviderId → Text → World → World × FsResult (Unit {0})
