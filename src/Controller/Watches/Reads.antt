-- ===== src/Controller/Watches/Reads.antt =====
-- What the mapper relies on: a cache whose indexes leave no object out, and whose full lists can be
-- read. Indexed reads may fail.
use mathlib.Core.List.{Memᴰ}
use mathlib.Core.List.Memᴰ.{head, tail}
use labdns.Base.{
  ◌≡◌, refl, subst, true, false, some, List, [], ◌∷◌, Text, is_some, contains, contains-append,
  contains-set_insert_all, list_eq, nat_eq, pair_eq, map, inl, inr, Option-cases, arith, get_or,
  ==_refl, set_insert_all-Distinct, Distinct, Eq,
}
use labdns.Source.Routes.{RouteKind}
use labdns.Controller.Watches.Index.{
  Indexer, on_ingress, on_ingress_class, on_slice, on_route, on_gateway, on_gateway_class, Class,
  Slice, Gateway, indexes,
}
use labdns.Controller.Watches.Mapper.{
  Table, Cache, list, dependents, dedupe, Request, ingresses, concat_requests, ingress_request,
  routes, route_request, ingress_dependencies, all_ingress_sources, route_dependencies,
  all_route_sources,
}
use labdns.Source.Projection.{Ingress}
use labdns.Source.Routes.{Route}

module _ {ℓ} {A : Type ℓ} (stored : List A) (registered : (A → List Text) → Indexer) where
  -- An index that is registered finds every stored object that has the value, if it answers; all
  -- objects can be listed.
  pub record IsTable (table : Table A) : Type ℓ where
    pub finds :
        (field value : Text) (keys : A → List Text) (found : List A) (a : A)
        → Memᴰ (field, registered keys) (indexes true)
        → table.indexed field value ≡ some found
        → Memᴰ a stored
        → contains (keys a) value ≡ true
        → Memᴰ a found
    pub lists : (a : A) → Memᴰ a stored → Memᴰ a (get_or table.every [])
    pub answers : is_some table.every ≡ true

-- The stored objects of the cluster.
pub record Cluster : Type 0 where
  pub ingresses : List Ingress
  pub ingress_classes : List Class
  pub slices : List Slice
  pub routes : RouteKind → List Route
  pub gateways : List Gateway
  pub gateway_classes : List Class

pub record IsCacheOf (cluster : Cluster) (cache : Cache) : Type 0 where
  pub running : (description : Text) → cache.cancelled description ≡ false
  pub ingresses : IsTable cluster.ingresses on_ingress cache.ingresses
  pub ingress_classes : IsTable cluster.ingress_classes on_ingress_class cache.ingress_classes
  pub slices : IsTable cluster.slices on_slice cache.slices
  pub routes :
      (kind : RouteKind) → IsTable (cluster.routes kind) (on_route kind) (cache.routes kind)
  pub gateways : IsTable cluster.gateways on_gateway cache.gateways
  pub gateway_classes : IsTable cluster.gateway_classes on_gateway_class cache.gateway_classes

module _ {ℓ} {A : Type ℓ} (cache : Cache) (table : Table A) where
  -- The read ends with a list, which holds every stored object that has the value.
  pub dependents_lem :
      (stored : List A) (registered : (A → List Text) → Indexer) (keys : A → List Text)
      (field value description fallback : Text)
      → ((d : Text) → cache.cancelled d ≡ false)
      → IsTable stored registered table
      → Memᴰ (field, registered keys) (indexes true)
      → (found : List A) × (dependents cache table field value description fallback ≡ some found)
        × ((a : A) → Memᴰ a stored → contains (keys a) value ≡ true → Memᴰ a found)
  unfolding dependents list
  dependents_lem stored registered keys field value description fallback running good here =
      elim (Option-cases (table.indexed field value)) [
        | inr (found, e) ↦ (
          found,
          rw (running description, dependents) (rw e refl),
          λ a m h. good.finds field value keys found a here e m h,
        )
        | inl unread ↦ elim (Option-cases table.every) [
          | inl e ↦ absurd (ground (arith, e, good.answers))
          | inr (found, e) ↦ (
            found,
            rw (running description, dependents) (rw unread (rw (running fallback) e)),
            λ a m h. subst (λ o. Memᴰ a (get_or o [])) e (good.lists a m),
          )
        ]
      ]

module _ {ℓ κ} {A : Type ℓ} {B : Type κ} ⦃e : Eq B⦄ (f : A → B) where
  pub contains-map : (xs : List A) (a : A) → Memᴰ a xs → contains (map f xs) (f a) ≡ true
  contains-map [] a m = elim m [ ]
  contains-map (x ∷ xs) a (head same) =
      subst (λ y. contains (map f (y ∷ xs)) (f a) ≡ true) same (rw (==_refl (f a)) refl)
  contains-map (x ∷ xs) a (tail m) = ground (arith, contains-map xs a m)

module _ {ℓ} {A : Type ℓ} (cache : Cache) (enqueue : A → List Request) where
  pub contains-concat_requests :
      (xs : List A) (a : A) (r : Request)
      → Memᴰ a xs
      → contains (enqueue a) r ≡ true
      → contains (concat_requests cache enqueue xs) r ≡ true
  contains-concat_requests [] a r m h = elim m [ ]
  contains-concat_requests (x ∷ xs) a r (head same) h = ground (
    arith,
    contains-append (enqueue x) (concat_requests cache enqueue xs) r,
    subst (λ y. contains (enqueue y) r ≡ true) same h,
  )
  contains-concat_requests (x ∷ xs) a r (tail m) h = ground (
    arith,
    contains-append (enqueue x) (concat_requests cache enqueue xs) r,
    contains-concat_requests xs a r m h,
  )

pub contains-dedupe :
    (values : List Request) (r : Request) → contains (dedupe values) r ≡ contains values r
unfolding dedupe
contains-dedupe values r = ground (arith, contains-set_insert_all values [] r)

pub dedupe-Distinct : (values : List Request) → Distinct (dedupe values)
unfolding dedupe
dedupe-Distinct values = set_insert_all-Distinct values [] tt

module _ (cluster : Cluster) (cache : Cache) (good : IsCacheOf cluster cache) where
  pub contains-ingresses :
      (keys : Ingress → List Text) (field value : Text) (ingress : Ingress)
      → Memᴰ (field, on_ingress keys) (indexes true)
      → Memᴰ ingress cluster.ingresses
      → contains (keys ingress) value ≡ true
      → contains (ingresses cache field value) (ingress_request ingress) ≡ true
  unfolding ingresses
  contains-ingresses keys field value ingress here m h =
      let (found, e, complete) =
        dependents_lem cache cache.ingresses cluster.ingresses on_ingress keys field value
          ingress_dependencies all_ingress_sources good.running good.ingresses here in
      rw e (contains-map ingress_request found ingress (complete ingress m h))

  pub contains-routes :
      (kind : RouteKind) (keys : Route → List Text) (field value : Text) (route : Route)
      → Memᴰ (field, on_route kind keys) (indexes true)
      → Memᴰ route (cluster.routes kind)
      → contains (keys route) value ≡ true
      → contains (routes cache kind field value) (route_request route) ≡ true
  unfolding routes
  contains-routes kind keys field value route here m h =
      let (found, e, complete) =
        dependents_lem cache (cache.routes kind) (cluster.routes kind) (on_route kind) keys field
          value (route_dependencies kind) (all_route_sources kind) good.running (good.routes kind)
          here in
      rw e (contains-map route_request found route (complete route m h))
