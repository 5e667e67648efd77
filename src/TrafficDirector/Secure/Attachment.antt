-- ===== src/TrafficDirector/Secure/Attachment.antt =====
-- The policies that `TrafficDirectorSecureManager.setup_server_security` attaches to an endpoint.
use psm_interop.Objects.{change, on_cloud, ObjectMethod, Object}
use psm_interop.Retryers.Tenacity.{Tenacity}
use psm_interop.Common.{
  refl, subst, ℕ, sym, ◌∙◌, Option, if◌then◌else◌, String, ◌≡◌, ap, Bool, true, false, ◌||◌, none,
  some, arith,
}
use psm_interop.Common.Effects.{returned, bind-returned, ◌>>=◌, lift}
use psm_interop.Common.Json.{Json, Fields, obj, str, one, field, end, get_field}
use psm_interop.Common.Decimal.{decimal}
use psm_interop.Gcp.Compute.{ComputeApi}
use psm_interop.Gcp.Standard.{get_resource, resource_full_name}
use psm_interop.Gcp.NetworkServices.{NetworkServicesApi}
use psm_interop.Gcp.NetworkServices
use psm_interop.Gcp.NetworkSecurity.{NetworkSecurityApi}
use psm_interop.Gcp.NetworkSecurity
use psm_interop.Gcp.NetworkSecurity.Policies.{ServerTlsPolicy, server_tls_policy}
use psm_interop.TrafficDirector.{Settings, make_resource_name}
use psm_interop.TrafficDirector.Extended.{own_name}
use psm_interop.TrafficDirector.Secure.{
  make_server_policy, SecureManager, create_server_tls_policy, create_endpoint_policy,
  endpoint_config, setup_server_security, server_policy,
}

server_tls_policy-name :
    (name : String) (d : Fields) (p : ServerTlsPolicy)
    → server_tls_policy name d ≡ returned p
    → p.name ≡ name
unfolding server_tls_policy
server_tls_policy-name name d p h = ground arith

abbrev named : Option String → Option Json
named none = none
named (some name) = some (str name)

-- What a config says of the port and of the two policies: a policy stands under its key, and where there is
-- none, the key is not there.
pub record Names (server_port : ℕ) (server_tls authz : Option String) (config : Fields)
    : Type 0 where
  pub port :
      get_field "trafficPortSelector" config
      ≡ some (obj (field "ports" (one (str (decimal server_port))) end))
  pub server_tls_policy : get_field "serverTlsPolicy" config ≡ named server_tls
  pub authorization_policy : get_field "authorizationPolicy" config ≡ named authz

endpoint_config-Names :
    (server_namespace server_name : String) (server_port : ℕ) (server_tls authz : Option String)
    → Names server_port server_tls authz
        (endpoint_config server_namespace server_name server_port server_tls authz)
unfolding endpoint_config get_field
endpoint_config-Names n s p none none = record {
  port = refl;
  server_tls_policy = refl;
  authorization_policy = refl;
}
endpoint_config-Names n s p none (some a) = record {
  port = refl;
  server_tls_policy = refl;
  authorization_policy = refl;
}
endpoint_config-Names n s p (some t) none = record {
  port = refl;
  server_tls_policy = refl;
  authorization_policy = refl;
}
endpoint_config-Names n s p (some t) (some a) = record {
  port = refl;
  server_tls_policy = refl;
  authorization_policy = refl;
}

module _ {W : Type 0} (tenacity : Tenacity) (netsec : NetworkSecurityApi W) (project : String) where
  get_server_tls_policy-name :
      (name : String) (p : ServerTlsPolicy) (w w' : W)
      → NetworkSecurity.get_server_tls_policy tenacity netsec project name w ≡ (returned p, w')
      → p.name ≡ name
  unfolding NetworkSecurity.get_server_tls_policy
  get_server_tls_policy-name name p w w' h =
      let (d, v, ran, parsed) =
        bind-returned
          (get_resource tenacity netsec.server_tls_policies project
            (resource_full_name project name "serverTlsPolicies" none))
          (λ d. lift (server_tls_policy name d)) w w' p h in
      server_tls_policy-name name d p (ap (λ end. end.0) parsed)

module _ {W : Type 0} (tenacity : Tenacity) (compute : ComputeApi W) (netsec : NetworkSecurityApi W)
    (netsvc : NetworkServicesApi W) (project : String) where
  make_server_policy-named :
      (tls mtls : Bool) (settings : Settings) (s t : Object SecureManager W)
      → make_server_policy tenacity compute netsec netsvc project tls mtls settings s
        ≡ (returned tt, t)
      → (p : ServerTlsPolicy) × (p.name ≡ make_resource_name settings "server-tls-policy")
        × (t.manager ≡ record s.manager { server_tls_policy = some p })
  make_server_policy-named tls mtls settings s t h =
      let name = make_resource_name settings "server-tls-policy" in
      let create =
        NetworkSecurity.create_server_tls_policy tenacity netsec project name
          (obj (server_policy tls mtls)) in
      let get = NetworkSecurity.get_server_tls_policy tenacity netsec project name in
      let keep : ServerTlsPolicy → ObjectMethod SecureManager W (Unit {0}) =
        λ p. change (λ m. record m { server_tls_policy = some p }) in
      let (x, u, made, rest) =
        bind-returned (on_cloud create) (λ _. do p ← on_cloud get; keep p) s t tt h in
      let (p, v, got, kept) = bind-returned (on_cloud get) keep u t tt rest in
      (
        p,
        get_server_tls_policy-name tenacity netsec project name p u.world v.world
            (ap (λ end. (end.0, end.1.world)) got),
        ap (λ end. end.1.manager) (sym kept)
            ∙ ap {A = SecureManager} {B = SecureManager}
                (λ m. record m { server_tls_policy = some p })
                (sym (ap (λ end. end.1.manager) made ∙ ap (λ end. end.1.manager) got)),
      )

  create_server_tls_policy-named :
      (tls mtls : Bool) (s t : Object SecureManager W)
      → (tls || mtls) ≡ true
      → create_server_tls_policy tenacity compute netsec netsvc project tls mtls s
        ≡ (returned tt, t)
      → (p : ServerTlsPolicy) × (p.name
          ≡ make_resource_name s.manager.base.settings "server-tls-policy")
        × (t.manager ≡ record s.manager { server_tls_policy = some p })
  unfolding create_server_tls_policy
  create_server_tls_policy-named false false s t some_tls h = absurd (cc)
  create_server_tls_policy-named true mtls s t some_tls h =
      make_server_policy-named true mtls s.manager.base.settings s t h
  create_server_tls_policy-named false true s t some_tls h =
      make_server_policy-named false true s.manager.base.settings s t h

  -- The name of the server TLS policy that a creation leaves; nothing else changes.
  create_server_tls_policy-name :
      (tls mtls : Bool) (s t : Object SecureManager W)
      → create_server_tls_policy tenacity compute netsec netsvc project tls mtls s
        ≡ (returned tt, t)
      → (x : Option ServerTlsPolicy) × (t.manager ≡ record s.manager { server_tls_policy = x })
        × (own_name (λ p. p.name) x ≡ (
            if tls || mtls
            then some (make_resource_name s.manager.base.settings "server-tls-policy")
            else own_name (λ p. p.name) s.manager.server_tls_policy))
  unfolding create_server_tls_policy
  create_server_tls_policy-name false false s t h =
      (s.manager.server_tls_policy, ap (λ end. end.1.manager) (sym h), refl)
  create_server_tls_policy-name true mtls s t h =
      let (p, named, kept) = create_server_tls_policy-named true mtls s t refl h in
      (some p, kept, ap some named)
  create_server_tls_policy-name false true s t h =
      let (p, named, kept) = create_server_tls_policy-named false true s t refl h in
      (some p, kept, ap some named)

  -- The request for an endpoint policy with the server TLS policy `server_tls`.
  abbrev pub Asked :
      (server_namespace server_name : String)
      → (server_port : ℕ) → (server_tls : Option String) → SecureManager
      → Type 0
  Asked server_namespace server_name server_port server_tls m =
      (u v : W) × (NetworkServices.create_endpoint_policy tenacity netsvc project
          (make_resource_name m.base.settings "endpoint-policy")
          (obj (
            endpoint_config server_namespace server_name server_port server_tls
              (own_name (λ p. p.name) m.authz_policy)))
          u
        ≡ (returned tt, v))
      × Names server_port server_tls (own_name (λ p. p.name) m.authz_policy) (
          endpoint_config server_namespace server_name server_port server_tls
            (own_name (λ p. p.name) m.authz_policy))

  create_endpoint_policy-Asked :
      (server_namespace server_name : String) (server_port : ℕ) (s t : Object SecureManager W)
      → create_endpoint_policy tenacity compute netsec netsvc project server_namespace server_name
          server_port s
        ≡ (returned tt, t)
      → Asked server_namespace server_name server_port
          (own_name (λ p. p.name) s.manager.server_tls_policy)
          s.manager
  unfolding create_endpoint_policy
  create_endpoint_policy-Asked server_namespace server_name server_port s t h =
      let m = s.manager in
      let name = make_resource_name m.base.settings "endpoint-policy" in
      let create = NetworkServices.create_endpoint_policy tenacity netsvc project name (
        obj (
          endpoint_config server_namespace server_name server_port
            (own_name (λ p. p.name) m.server_tls_policy)
            (own_name (λ p. p.name) m.authz_policy))) in
      let get = NetworkServices.get_endpoint_policy tenacity netsvc project name in
      let (x, u, made, rest) =
        bind-returned {B = Unit {0}} (on_cloud create)
          (λ _. do p ← on_cloud get; change (λ m'. record m' { endpoint_policy = some p })) s t tt
          h in
      (
        s.world,
        u.world,
        ap (λ end. (end.0, end.1.world)) made,
        endpoint_config-Names server_namespace server_name server_port
            (own_name (λ p. p.name) m.server_tls_policy) (own_name (λ p. p.name) m.authz_policy),
      )

  -- Where TLS or mTLS is asked for, a setup of server security that returns has asked for the endpoint
  -- policy, with a config that has the port of the server, under serverTlsPolicy the name of the server TLS
  -- policy, and under authorizationPolicy that of the authorization policy if there is one; where neither is
  -- asked for, under serverTlsPolicy the policy that there was before, if any.
  pub setup_server_security-Asked :
      (server_namespace server_name : String) (server_port : ℕ) (tls mtls : Bool)
      (s s' : Object SecureManager W)
      → setup_server_security tenacity compute netsec netsvc project server_namespace server_name
          server_port tls mtls s
        ≡ (returned tt, s')
      → Asked server_namespace server_name server_port
          (if tls || mtls
            then some (make_resource_name s.manager.base.settings "server-tls-policy")
            else own_name (λ p. p.name) s.manager.server_tls_policy)
          s.manager
  unfolding setup_server_security
  setup_server_security-Asked server_namespace server_name server_port tls mtls s s' h =
      let (x, t, policy, rest) =
        bind-returned (create_server_tls_policy tenacity compute netsec netsvc project tls mtls)
          (λ _.
            create_endpoint_policy tenacity compute netsec netsvc project server_namespace
              server_name server_port)
          s s' tt h in
      let asked = create_endpoint_policy-Asked server_namespace server_name server_port t s' rest in
      let (p, kept, named) = create_server_tls_policy-name tls mtls s t policy in
      let own : SecureManager → Option String = λ m. own_name (λ p. p.name) m.server_tls_policy in
      subst (λ n. Asked server_namespace server_name server_port n s.manager) named
        (subst (λ m. Asked server_namespace server_name server_port (own m) m) kept asked)
