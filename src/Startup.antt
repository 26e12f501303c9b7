-- ===== src/Startup.antt =====
-- cmd: what the manager checks before it starts. API discovery is a parameter; `main` itself, which
-- parses the flags and starts the manager, is not modelled.
pub mod Laws
use labdns.Base.{
  Bool, true, false, not, ◌&&◌, ◌||◌, Option, none, some, List, [], ◌∷◌, ◌++◌, Text, Map, codes,
  contains, lookup, insert, to_lower, if◌then◌else◌, ◌==◌, list_eq, nat_eq,
}
use labdns.Base.Results.{Result, ok, err, ◌>>=◌, ◌>>◌, guard}

pub data LogLevel : Type 0 where
  debug_level info_level warn_level error_level : LogLevel

-- The error is the text that was given.
unfoldable pub parse_log_level : Text → Result Text LogLevel
unfolding to_lower
parse_log_level value =
    let lower = to_lower value in
    if lower == codes "debug"
    then ok debug_level
    else if lower == codes "info"
    then ok info_level
    else if (lower == codes "warn") || (lower == codes "warning")
    then ok warn_level
    else if lower == codes "error"
    then ok error_level
    else err value

-- `metav1.APIResource`
pub record ServedResource : Type 0 where
  pub name : Text
  pub kind : Text
  pub namespaced : Bool
  pub verbs : List Text

pub record RequiredResource : Type 0 where
  pub name : Text
  pub kind : Text
  pub namespaced : Bool
  pub verbs : List Text

-- `resourceDiscovery`: the resources of a group and version, or an error.
abbrev pub Discovery : Type 0
Discovery = Text → Result Text (List ServedResource)

pub data ResourceError : Type 0 where
  undiscovered : Text → Text → ResourceError
  missing_resource wrong_kind wrong_scope : Text → Text → ResourceError
  missing_verb : Text → Text → Text → ResourceError

-- The loop that fills `found`.
unfoldable pub index_resources :
    Map Text ServedResource → List ServedResource → Map Text ServedResource
index_resources found [] = found
index_resources found (r ∷ resources) = index_resources (insert r.name r found) resources

abbrev pub same_scope : Bool → Bool → Bool
same_scope true b = b
same_scope false b = not b

module _ (version : Text) where
  unfoldable pub require_verbs : Text → List Text → List Text → Result ResourceError (Unit {0})
  require_verbs name served [] = ok tt
  require_verbs name served (verb ∷ verbs) =
      guard (contains served verb) (missing_verb version name verb)
      >> require_verbs name served verbs

  -- The body of the loop over the requirements.
  unfoldable pub require_resource :
      Map Text ServedResource → RequiredResource → Result ResourceError (Unit {0})
  unfolding require_verbs
  require_resource found wanted = elim (lookup wanted.name found) [
    | none ↦ err (missing_resource version wanted.name)
    | some r ↦
        guard (r.kind == wanted.kind) (wrong_kind version wanted.name)
        >> (guard (same_scope r.namespaced wanted.namespaced) (wrong_scope version wanted.name)
            >> require_verbs wanted.name r.verbs wanted.verbs)
  ]

  unfoldable pub require_each :
      Map Text ServedResource → List RequiredResource → Result ResourceError (Unit {0})
  unfolding require_resource
  require_each found [] = ok tt
  require_each found (wanted ∷ required) =
      require_resource found wanted >> require_each found required

unfoldable pub require_resources :
    Discovery → Text → List RequiredResource → Result ResourceError (Unit {0})
unfolding index_resources require_each
require_resources discovery version required = elim (discovery version) [
  | err e ↦ err (undiscovered version e)
  | ok resources ↦ require_each version (index_resources [] resources) required
]

abbrev pub read_verbs : List Text
read_verbs = codes "get" ∷ codes "list" ∷ codes "watch" ∷ []

abbrev pub write_verbs : List Text
write_verbs = codes "create" ∷ codes "update" ∷ codes "patch" ∷ codes "delete" ∷ []

abbrev pub endpoint_version : Text
endpoint_version = codes "externaldns.k8s.io/v1alpha1"

abbrev pub gateway_version : Text
gateway_version = codes "gateway.networking.k8s.io/v1"

abbrev pub grant_version : Text
grant_version = codes "gateway.networking.k8s.io/v1beta1"

abbrev pub required_endpoints : List RequiredResource
required_endpoints =
    record {
      name = codes "dnsendpoints";
      kind = codes "DNSEndpoint";
      namespaced = true;
      verbs = read_verbs ++ write_verbs;
    }
    ∷ []

abbrev read_only : Text → Text → Bool → RequiredResource
read_only name kind namespaced = record {
  name = name;
  kind = kind;
  namespaced = namespaced;
  verbs = read_verbs;
}

abbrev pub required_gateways : List RequiredResource
required_gateways =
    read_only (codes "httproutes") (codes "HTTPRoute") true
    ∷ read_only (codes "tcproutes") (codes "TCPRoute") true
    ∷ read_only (codes "udproutes") (codes "UDPRoute") true
    ∷ read_only (codes "gateways") (codes "Gateway") true
    ∷ read_only (codes "gatewayclasses") (codes "GatewayClass") false
    ∷ []

abbrev pub required_grants : List RequiredResource
required_grants = read_only (codes "referencegrants") (codes "ReferenceGrant") true ∷ []

-- Which of the three checks failed.
pub data PrerequisiteError : Type 0 where
  endpoints_unavailable gateways_unavailable grants_unavailable : ResourceError → PrerequisiteError

abbrev pub or_unavailable :
    (ResourceError → PrerequisiteError)
    → Result ResourceError (Unit {0})
    → Result PrerequisiteError (Unit {0})
or_unavailable wrap (ok _) = ok tt
or_unavailable wrap (err e) = err (wrap e)

unfoldable pub check_prerequisites : Discovery → Bool → Result PrerequisiteError (Unit {0})
unfolding require_resources
check_prerequisites discovery gateway_enabled =
    or_unavailable endpoints_unavailable
      (require_resources discovery endpoint_version required_endpoints)
    >> (if gateway_enabled
        then or_unavailable gateways_unavailable
            (require_resources discovery gateway_version required_gateways)
          >> or_unavailable grants_unavailable
              (require_resources discovery grant_version required_grants)
        else ok tt)
