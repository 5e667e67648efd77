-- ===== src/TrafficDirector/Extended.antt =====
-- The managers that extend TrafficDirectorManager, framework/infrastructure/traffic_director.py and
-- mesh_resource_manager: their state, and how their methods use the inherited ones.
pub mod Requests
mod Samples
use psm_interop.Objects.{change, on_cloud, ObjectMethod}
use psm_interop.Errors.{attribute_error, Exception}
use psm_interop.Common.{String, Bool, true, false, Option, none, some}
use psm_interop.Common.Effects.{throw, returned, Effect, pure, ◌>>=◌, ◌>>◌}
use psm_interop.TrafficDirector.{Manager, Method, Settings, make_resource_name}

-- How the `delete_*` methods of these classes choose, from the name of the resource that there is.
abbrev pub chosen_name : (force : Bool) → Settings → String → Option String → Option String
chosen_name true settings name own = some (make_resource_name settings name)
chosen_name false settings name own = own

abbrev pub own_name : {R : Type 0} → (R → String) → Option R → Option String
own_name name none = none
own_name name (some r) = some (name r)

module _ {M W : Type 0} where
  -- The rest of such a method; what the client returns is not looked at.
  unfoldable pub delete_chosen :
      {A : Type 0}
      → Option String
      → (delete : String → Effect W Exception A) → (forget : M → M) → ObjectMethod M W (Unit {0})
  delete_chosen none delete forget = pure tt
  delete_chosen (some name) delete forget = do on_cloud (delete name); change forget

-- A method of TrafficDirectorManager itself.
module _ {W : Type 0} where
  unfoldable pub plain : {A : Type 0} → Method W A → ObjectMethod Manager W A
  plain method s =
      let ended = method (record { manager = s.manager; world = s.world }) in
      (ended.0, record { manager = ended.1.manager; world = ended.1.world })
