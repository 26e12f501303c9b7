-- ===== src/Cli/Controllers.antt =====
-- internal/cli/inspect.go: the controller's Deployments, their flags and their Pods.
use labdns.Base.{
  ℕ, suc, Bool, true, false, not, ◌&&◌, Option, none, some, List, [], ◌∷◌, ◌++◌, Text, Map, ℤ, pos,
  codes, is_empty, get_or, cut_prefix, if◌then◌else◌, ◌==◌, list_eq, nat_eq, nat_beq, sort_by,
  text_ord, trim_left,
}
use mathlib.Core.List.{reverse}
use labdns.Base.Results.{Result, ok, err, ◌>>=◌}
use labdns.Source.Annotations.{parse_bool}
use labdns.Dnsendpoint.Object.{value_at}
use labdns.Cli.Model.{ControllerStatus}

pub record Container : Type 0 where
  pub name : Text
  pub command : List Text
  pub args : List Text

-- `selector` is the label selector as it is written in the Deployment.
pub record Deployment : Type 0 where
  pub namespace : Text
  pub name : Text
  pub replicas : Option ℤ
  pub available : ℤ
  pub annotations : Map Text Text
  pub containers : List Container
  pub selector : Text

-- The type and the status of each condition of a Pod.
abbrev pub Pod : Type 0
Pod = List (Text × Text)

abbrev pub is_slash : ℕ → Bool
is_slash c = nat_beq c b'/'

-- The bytes up to the first slash.
abbrev until_slash : Text → Text
until_slash [] = []
until_slash (c ∷ s) = let rest = until_slash s in if is_slash c then [] else c ∷ rest

-- `path.Base`
unfoldable pub path_base : Text → Text
unfolding trim_left
path_base [] = codes "."
path_base (c ∷ s) =
    let last = reverse (until_slash (trim_left is_slash (reverse (c ∷ s)))) in
    if is_empty last then codes "/" else last

abbrev pub manager_container_name : Text
manager_container_name = codes "manager"

abbrev pub default_container_annotation : Text
default_container_annotation = codes "kubectl.kubernetes.io/default-container"

unfoldable pub command_is_manager : Container → Bool
unfolding path_base
command_is_manager container = elim container.command [
  | [] ↦ false
  | program ∷ rest ↦ path_base program == manager_container_name
]

abbrev pub first_container : (Container → Bool) → List Container → Option Container
first_container p [] = none
first_container p (c ∷ containers) =
    let rest = first_container p containers in if p c then some c else rest

abbrev pub or_container : Option Container → Option Container → Option Container
or_container (some c) other = some c
or_container none other = other

unfoldable pub manager_container : Map Text Text → List Container → Option Container
unfolding command_is_manager
manager_container annotations containers =
    let default_name = value_at default_container_annotation annotations in
    or_container (first_container (λ c. c.name == manager_container_name) containers) (
      or_container
        (if is_empty default_name
          then none
          else first_container (λ c. (c.name == default_name) && command_is_manager c) containers)
        (first_container command_is_manager containers))

abbrev pub long_flag : Text
long_flag = codes "--enable-gateway-api"

abbrev pub short_flag : Text
short_flag = codes "-enable-gateway-api"

-- What one argument says: nothing, a value, or a value that cannot be parsed.
pub data FlagValue : Type 0 where
  no_flag : FlagValue
  flag : Bool → FlagValue
  bad_flag : Text → FlagValue

abbrev pub parsed_flag : Text → Option Bool → FlagValue
parsed_flag value none = bad_flag value
parsed_flag value (some enabled) = flag enabled

-- The inner loop, over the two spellings of the flag.
unfoldable pub flag_value : Text → List Text → FlagValue
unfolding cut_prefix parse_bool
flag_value arg [] = no_flag
flag_value arg (prefix ∷ prefixes) =
    if arg == prefix then flag true else elim (cut_prefix arg (prefix ++ codes "=")) [
      | some value ↦ parsed_flag value (parse_bool value)
      | none ↦ flag_value arg prefixes
    ]

abbrev pub spellings : List Text
spellings = long_flag ∷ short_flag ∷ []

unfoldable pub scan_args : Bool → List Text → Result Text Bool
unfolding flag_value
scan_args enabled [] = ok enabled
scan_args enabled (arg ∷ args) = elim (flag_value arg spellings) [
  | no_flag ↦ scan_args enabled args
  | flag value ↦ scan_args value args
  | bad_flag value ↦ err (codes "invalid enable-gateway-api value " ++ value)
]

unfoldable pub gateway_api_enabled : List Text → Result Text Bool
unfolding scan_args
gateway_api_enabled args = scan_args false args

-- The first condition of the type Ready decides.
unfoldable pub pod_ready : Pod → Bool
pod_ready [] = false
pod_ready ((type, status) ∷ conditions) =
    if type == codes "Ready" then status == codes "True" else pod_ready conditions

unfoldable pub ready_pods : List Pod → ℕ
unfolding pod_ready
ready_pods [] = 0
ready_pods (pod ∷ pods) = let rest = ready_pods pods in if pod_ready pod then suc rest else rest

-- The API as `controllers` reads it.
pub record Deployments : Type 0 where
  -- Those of a namespace, or of all; and only those with the name label of labdns, or all.
  pub list_deployments : Text → Bool → Result Text (List Deployment)
  -- `metav1.LabelSelectorAsSelector`
  pub parse_selector : Text → Option Text
  pub list_pods : Text → Text → Result Text (List Pod)

module _ (api : Deployments) where
  abbrev pub gateway_flag : Deployment → Result Text Bool
  gateway_flag d = elim (manager_container d.annotations d.containers) [
    | none ↦ ok false
    | some container ↦ gateway_api_enabled container.args
  ]

  abbrev pub selector_of : Deployment → Result Text Text
  selector_of d = elim (api.parse_selector d.selector) [
    | none ↦ err (codes "parse Deployment selector " ++ d.name)
    | some selector ↦ ok selector
  ]

  -- The body of the loop of `controllers`.
  unfoldable pub controller_status : Deployment → Result Text ControllerStatus
  unfolding manager_container gateway_api_enabled ready_pods
  controller_status d = do
    gateway_api ← gateway_flag d
    selector ← selector_of d
    pods ← api.list_pods d.namespace selector
    ok (record {
      namespace = d.namespace;
      name = d.name;
      desired = get_or d.replicas (pos 1);
      available = d.available;
      ready_pods = ready_pods pods;
      gateway_api = gateway_api;
    })

  unfoldable pub controller_statuses : Text → List Deployment → Result Text (List ControllerStatus)
  unfolding controller_status
  controller_statuses name [] = ok []
  controller_statuses name (d ∷ deployments) =
      if not (is_empty name) && not (d.name == name)
      then controller_statuses name deployments
      else do
        status ← controller_status d
        rest ← controller_statuses name deployments
        ok (status ∷ rest)

  abbrev pub controller_key : ControllerStatus → Text
  controller_key c = c.namespace ++ b'/' ∷ c.name

  unfoldable pub controllers : Text → Text → Result Text (List ControllerStatus)
  unfolding controller_statuses
  controllers namespace name = do
    deployments ← api.list_deployments namespace (is_empty name)
    statuses ← controller_statuses name deployments
    ok (sort_by controller_key statuses)
