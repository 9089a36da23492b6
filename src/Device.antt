-- ===== src/Device.antt =====
-- The device as the readers see it: the functions that the constructor of GT1000 injects into them, over any state.
pub mod Reader
pub mod Snapshot
pub mod Chains
pub mod Trip
pub mod Settings
pub mod Ids
pub mod Keeps
use pygt.Base.{Text, Option, List, ℕ, Act}
use pygt.Values.{Value}
use pygt.AddressMap.{AddressMap}

pub record Device {ℓ} (D : Type ℓ) : Type ℓ where
  pub address_map : AddressMap
  pub fetch : List ℕ → List ℕ → Act D (Option (List ℕ))
  pub fx_name_for : Value → Act D (Option Value)
  pub set_fx_name : Value → Option Value → D → D
  pub set : List ℕ → D → D
