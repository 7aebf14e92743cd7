-- ===== src/Scd.antt =====
-- The merging units of crates/svdc-console/src/scd/mod.rs and the registry that holds them
-- (crates/svdc-console/src/scd/registry.rs). Texts are native strings, and their bytes where the code
-- walks characters.
pub mod Xml
pub mod Numbers
pub mod Radix
pub mod Parse
pub mod Valid
mod Tests
use Prim.Native.String.{String}
use svdc.Base.{ℕ, List, [], length, Bool, ◌==◌}

pub data ChannelUnit : Type 0 where
  voltage current other : ChannelUnit

pub record Channel : Type 0 where
  pub name : List ℕ
  pub unit : ChannelUnit

pub record MergingUnit : Type 0 where
  pub id : String
  pub mac : List ℕ
  pub appid : ℕ
  pub sv_id : String
  pub smp_rate : ℕ
  pub channels : List Channel

pub record ChannelRegistry : Type 0 where
  pub inner : List MergingUnit

abbrev pub new : ChannelRegistry
new = record { inner = [] }

-- the number of units now held, and the registry
unfoldable pub replace : List MergingUnit → ChannelRegistry → ℕ × ChannelRegistry
replace mus registry = (length mus, record { inner = mus })

abbrev pub snapshot : ChannelRegistry → List MergingUnit
snapshot registry = registry.inner

abbrev pub len : ChannelRegistry → ℕ
len registry = length registry.inner

abbrev pub is_empty : ChannelRegistry → Bool
is_empty registry = len registry == 0
