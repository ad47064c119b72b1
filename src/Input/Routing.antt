-- ===== src/Input/Routing.antt =====
-- deepticket/config/routing_schema.py: the routes and the lookups in them.
use deepticket.Prelude.{String, Bool, Option, none, some, List, [], ◌∷◌, ◌==◌, if◌then◌else◌}
use deepticket.Json.{Fields}

pub record RouteMatchConfig : Type 0 where
  pub default : Bool
  pub sources : List String
  pub title_keywords : List String
  pub body_keywords : List String

-- The outbound settings are carried along and not read here.
pub record RouteConfig : Type 0 where
  pub type : String
  pub description : String
  pub criteria : RouteMatchConfig
  pub outbound : Fields
  pub prompt_suffix : String
  pub repo_ids : List String

-- `RoutingConfig.routes`
abbrev pub RoutingConfig : Type 0
RoutingConfig = List RouteConfig

unfoldable pub route_for_type : RoutingConfig → String → Option RouteConfig
route_for_type [] route_type = none
route_for_type (route ∷ routes) route_type =
    let rest = route_for_type routes route_type in
    if route.type == route_type then some route else rest

abbrev pub last_route : RoutingConfig → Option RouteConfig
last_route [] = none
last_route (route ∷ []) = some route
last_route (route ∷ next ∷ routes) = last_route (next ∷ routes)

abbrev pub first_default : RoutingConfig → Option RouteConfig
first_default [] = none
first_default (route ∷ routes) =
    let rest = first_default routes in if route.criteria.default then some route else rest

-- `return self.routes[-1] if self.routes else None` after the loop
abbrev pub found_or : Option RouteConfig → Option RouteConfig → Option RouteConfig
found_or (some route) other = some route
found_or none other = other

unfoldable pub default_route : RoutingConfig → Option RouteConfig
default_route routes = found_or (first_default routes) (last_route routes)
