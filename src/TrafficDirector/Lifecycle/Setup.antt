-- ===== src/TrafficDirector/Lifecycle/Setup.antt =====
-- `TrafficDirectorManager.setup_for_grpc`: the resources that the manager then has.
use psm_interop.TrafficDirector.Lifecycle.Deletions.{Deletion}
use psm_interop.Common.{refl, ◌≡◌, sym, ap, subst, ◌∙◌, String, Option, none, some}
use psm_interop.Common.Effects.{
  returned-injective, returned, Effect, pure, lift, bind-returned, ◌>>=◌, ◌>>◌,
}
use psm_interop.Common.Json.{Json}
use psm_interop.Errors.{Exception}
use psm_interop.Retryers.Tenacity.{Tenacity}
use psm_interop.Gcp.Compute.{
  http2, unset, target_grpc_proxies, url_maps, target_http_proxies, global_forwarding_rules,
  backend_services, region_url_maps, region_target_http_proxies, region_backend_services,
  forwarding_rules, in_region, BackendServiceProtocol, GcpResource, Collection, ComputeApi,
  insert_resource, execute, region_arg, required, body_name,
}
use psm_interop.TrafficDirector.{
  make_resource_name, Settings, Manager, State, Method, cloud, update, the,
}

abbrev pub deletion : Collection → (region : Option String) → Settings → (name : String) → Deletion
deletion collection region settings name = record {
  collection = collection;
  name = make_resource_name settings name;
  region = region;
}

-- The proxy of a protocol, as `create_target_proxy` makes it.
abbrev pub proxy_made : BackendServiceProtocol → Settings → Deletion
proxy_made http2 settings =
    deletion (in_region settings.region region_target_http_proxies target_http_proxies)
      settings.region settings "target-proxy"
proxy_made _ settings = deletion target_grpc_proxies none settings "target-proxy"

pub proxy_made-name :
    (p : BackendServiceProtocol) (settings : Settings)
    → (proxy_made p settings).name ≡ make_resource_name settings "target-proxy"
proxy_made-name http2 settings = refl
proxy_made-name unset settings = refl
proxy_made-name BackendServiceProtocol.grpc settings = refl

abbrev pub rule_made : Settings → Deletion
rule_made settings =
    deletion (in_region settings.region forwarding_rules global_forwarding_rules) settings.region
      settings "forwarding-rule"

abbrev pub rule6_made : Settings → Deletion
rule6_made settings =
    deletion (in_region settings.region forwarding_rules global_forwarding_rules) settings.region
      settings "forwarding-rule-ipv6"

abbrev pub map_made : Settings → Deletion
map_made settings =
    deletion (in_region settings.region region_url_maps url_maps) settings.region settings "url-map"

abbrev pub service_made : Settings → Deletion
service_made settings =
    deletion (in_region settings.region region_backend_services backend_services) settings.region
      settings "backend-service"

module _ {W : Type 0} (tenacity : Tenacity) (api : ComputeApi W) where
  -- What an insertion returns is named as the body says.
  insert_resource-name :
      (c : Collection) (body : Json) (region : Option String) (name : String) (w w' : W)
      (r : GcpResource)
      → body_name body ≡ returned name
      → insert_resource tenacity api c body region w ≡ (returned r, w')
      → r.name ≡ name
  unfolding insert_resource
  insert_resource-name c body region name w w' r e h =
      let (operation, u, done, rest) =
        bind-returned (execute tenacity api (api.insert c (region_arg region) body) region)
          (λ operation. (do
            found ← lift (body_name body)
            url ← lift (required operation.target_link)
            pure (record { name = found; url = url })))
          w w' r h in
      let (found, v, named, rest') =
        bind-returned (lift (body_name body))
          (λ found. (do
            url ← lift (required operation.target_link)
            pure (record { name = found; url = url })))
          u w' r rest in
      let (url, x, linked, made) =
        bind-returned (lift (required operation.target_link))
          (λ url. pure (record { name = found; url = url })) v w' r rest' in
      ap (λ x. x.name) (sym (returned-injective (ap (λ end. end.0) made)))
      ∙ returned-injective (sym (ap (λ end. end.0) named) ∙ e)

  -- The resource has been returned by an insertion in the collection and region, under the name, that a
  -- request for its deletion has.
  abbrev pub Made : Deletion → GcpResource → Type 0
  Made d r =
      (body : Json) × (u v : W) × (insert_resource tenacity api d.collection body d.region u
        ≡ (returned r, v))
      × (body_name body ≡ returned d.name)

  pub insert_resource-Made :
      (d : Deletion) (body : Json) (w w' : W) (r : GcpResource)
      → body_name body ≡ returned d.name
      → insert_resource tenacity api d.collection body d.region w ≡ (returned r, w')
      → Made d r
  insert_resource-Made d body w w' r named h = (body, w, w', h, named)

  pub Made-name : (d : Deletion) (r : GcpResource) → Made d r → r.name ≡ d.name
  Made-name d r (body, u, v, h, named) =
      insert_resource-name d.collection body d.region d.name u v r named h

module _ {W : Type 0} (tenacity : Tenacity) (api : ComputeApi W) where
  -- A method that, when it returns, has made a resource where `place` says and keeps it.
  abbrev pub Creates :
      {A : Type 0}
      → Method W A
      → (place : Manager → Deletion) → (set : GcpResource → Manager → Manager) → Type 0
  Creates {A} m place set =
      (s s' : State W) (a : A)
      → m s ≡ (returned a, s')
      → (r : GcpResource) × Made tenacity api (place s.manager) r × (s'.manager ≡ set r s.manager)

  pub from_manager :
      {A : Type 0} (method : Method W A) (place : Manager → Deletion)
      (set : GcpResource → Manager → Manager) (m : Manager) (s s' : State W) (a : A)
      → Creates method place set
      → s.manager ≡ m
      → method s ≡ (returned a, s')
      → (r : GcpResource) × Made tenacity api (place m) r × (s'.manager ≡ set r m)
  from_manager method place set m s s' a creates e h =
      subst (λ x. (r : GcpResource) × Made tenacity api (place x) r × (s'.manager ≡ set r x)) e
        (creates s s' a h)

  pub created :
      {A : Type 0} (m : Effect W Exception GcpResource) (d : Deletion)
      (set : GcpResource → Manager → Manager) (fin : GcpResource → A) (s s' : State W) (a : A)
      → ((w w' : W) (r : GcpResource) → m w ≡ (returned r, w') → Made tenacity api d r)
      → (do resource ← cloud m; update (set resource); pure (fin resource)) s ≡ (returned a, s')
      → (r : GcpResource) × Made tenacity api d r × (s'.manager ≡ set r s.manager)
  created m d set fin s s' a q h =
      let (r, t, made, rest) =
        bind-returned (cloud m) (λ r. (do update (set r); pure (fin r))) s s' a h in
      (
        r,
        q s.world t.world r (ap (λ end. (end.0, end.1.world)) made),
        sym (ap (λ end. end.1.manager) rest) ∙ ap (set r) (sym (ap (λ end. end.1.manager) made)),
      )

  -- The same where it first reads a resource that the manager may not have.
  pub created_from :
      {A : Type 0} (x : Option GcpResource) (k : GcpResource → Effect W Exception GcpResource)
      (d : Deletion) (set : GcpResource → Manager → Manager) (fin : GcpResource → A)
      (s s' : State W) (a : A)
      → ((v : GcpResource) (w w' : W) (r : GcpResource)
          → k v w ≡ (returned r, w')
          → Made tenacity api d r)
      → (do v ← the x; resource ← cloud (k v); update (set resource); pure (fin resource)) s
        ≡ (returned a, s')
      → (r : GcpResource) × Made tenacity api d r × (s'.manager ≡ set r s.manager)
  created_from none k d set fin s s' a q h = cc
  created_from (some v) k d set fin s s' a q h = created (k v) d set fin s s' a (q v) h
