-- ===== src/TrafficDirector/Lifecycle/Forgetting.antt =====
-- What the deletions of `TrafficDirectorManager.cleanup` leave in the fields of the manager.
use psm_interop.Common.{◌≡◌, refl, String, Bool, true, false, Option, none, some}
use psm_interop.Gcp.Compute.{GcpResource}
use psm_interop.TrafficDirector.{Settings, Manager, name_to_delete}
use psm_interop.TrafficDirector.Routing.{http_only}
use psm_interop.TrafficDirector.Lifecycle.Deletions.{forget_if}

-- What a field is after its deletion: nothing, whether there was a resource or not.
pub forget_if_set :
    (force : Bool) (settings : Settings) (name : String) (set : Option GcpResource → Manager)
    (forget : Manager → Manager) (r : Option GcpResource)
    → ((x : Option GcpResource) → forget (set x) ≡ set none)
    → forget_if (name_to_delete force settings name r) forget (set r) ≡ set none
forget_if_set true settings name set forget r same = same r
forget_if_set false settings name set forget none same = refl
forget_if_set false settings name set forget (some r) same = same (some r)

-- The proxy, and the flag, that the deletions of the two kinds of proxies leave.
abbrev pub grpc_left : (force is_http : Bool) → Option GcpResource → Option GcpResource
grpc_left true is_http proxy = none
grpc_left false true proxy = none
grpc_left false false proxy = proxy

abbrev pub flag_left : (force is_http : Bool) → Option GcpResource → Bool
flag_left true is_http proxy = false
flag_left false is_http none = is_http
flag_left false is_http (some proxy) = false

pub forget_http :
    (force is_http : Bool) (settings : Settings) (name : String)
    (set : Option GcpResource → Bool → Manager) (forget : Manager → Manager)
    (proxy : Option GcpResource)
    → ((x : Option GcpResource) (b : Bool) → forget (set x b) ≡ set none false)
    → forget_if
        (name_to_delete force settings name (http_only is_http proxy))
        forget
        (set proxy is_http)
      ≡ set (grpc_left force is_http proxy) (flag_left force is_http proxy)
forget_http true is_http settings name set forget proxy same = same proxy is_http
forget_http false true settings name set forget none same = refl
forget_http false true settings name set forget (some proxy) same = same (some proxy) true
forget_http false false settings name set forget none same = refl
forget_http false false settings name set forget (some proxy) same = refl

pub forget_grpc :
    (force is_http : Bool) (settings : Settings) (name : String)
    (set : Option GcpResource → Bool → Manager) (forget : Manager → Manager)
    (proxy : Option GcpResource)
    → ((x : Option GcpResource) (b : Bool) → forget (set x b) ≡ set none false)
    → forget_if (name_to_delete force settings name proxy) forget (set proxy is_http)
      ≡ set none (flag_left force is_http proxy)
forget_grpc true is_http settings name set forget proxy same = same proxy is_http
forget_grpc false is_http settings name set forget none same = refl
forget_grpc false is_http settings name set forget (some proxy) same = same (some proxy) is_http

-- The `url_map` that `delete_alternative_url_map` leaves.
abbrev pub url_map_left :
    (force : Bool) → (alternative url_map : Option GcpResource) → Option GcpResource
url_map_left true alternative url_map = none
url_map_left false none url_map = url_map
url_map_left false (some r) url_map = none

pub forget_alternative :
    (force : Bool) (settings : Settings) (name : String) (set : Option GcpResource → Manager)
    (forget : Manager → Manager) (alternative url_map : Option GcpResource)
    → ((x : Option GcpResource) → forget (set x) ≡ set none)
    → forget_if (name_to_delete force settings name alternative) forget (set url_map)
      ≡ set (url_map_left force alternative url_map)
forget_alternative true settings name set forget alternative url_map same = same url_map
forget_alternative false settings name set forget none url_map same = refl
forget_alternative false settings name set forget (some r) url_map same = same url_map
