-- ===== src/Input/Classifier.antt =====
-- deepticket/layers/input/classifier.py: the first route that an event matches, or the default route.
-- `lower` is Python's `str.lower`.
pub mod First
use Prim.Native.Char.{Char, code}
use Prim.Native.String
use deepticket.Prelude.{
  String, Bool, true, false, not, ◌&&◌, ◌||◌, Option, none, some, List, [], ◌∷◌, ◌==◌,
  if◌then◌else◌, any, map,
}
use deepticket.Prelude.Text.{starts_with}
use deepticket.Json.{Fields}
use deepticket.Exec.{Result, ok, err, value_error}
use deepticket.Exec.Pure
use deepticket.Input.Routing.{RouteMatchConfig, RouteConfig, RoutingConfig, default_route}

-- `IngressEvent` of ingress_models.py, without its pictures
pub record IngressEvent : Type 0 where
  pub source : String
  pub project_id : String
  pub external_id : String
  pub question : String
  pub extensions : Fields

-- `t in s`
unfoldable pub contains : String → String → Bool
unfolding starts_with
contains String.[] t = starts_with "" t
contains (String.◌∷◌ c s) t =
    let rest = contains s t in if starts_with (String.◌∷◌ c s) t then true else rest

abbrev pub is_empty : List String → Bool
is_empty [] = true
is_empty (x ∷ xs) = false

module _ (lower : String → String) where
  abbrev pub has_keyword : List String → String → Bool
  has_keyword keywords text = any (λ kw. contains text (lower kw)) keywords

  -- None of the loop's three `continue` tests holds.
  unfoldable pub is_matched : RouteMatchConfig → IngressEvent → Bool
  is_matched match_cfg event =
      (is_empty match_cfg.sources
        || any (λ item. lower item == lower event.source) match_cfg.sources)
      && (is_empty match_cfg.title_keywords
          || has_keyword match_cfg.title_keywords (lower event.question))
      && (is_empty match_cfg.body_keywords
          || has_keyword match_cfg.body_keywords (lower event.question))

  unfoldable pub is_hit : IngressEvent → RouteConfig → Bool
  unfolding is_matched
  is_hit event route = not route.criteria.default && is_matched route.criteria event

  -- The loop over the routes
  unfoldable pub first_match : IngressEvent → RoutingConfig → Option RouteConfig
  unfolding is_hit
  first_match event [] = none
  first_match event (route ∷ routes) =
      let rest = first_match event routes in if is_hit event route then some route else rest

  abbrev pub or_default_route : Option RouteConfig → RoutingConfig → Result RouteConfig
  or_default_route (some route) routing = ok route
  or_default_route none routing =
      Pure.from_option (default_route routing) (value_error "routing 配置为空，无法分类")

  unfoldable pub classify_ingress_event : IngressEvent → RoutingConfig → Result RouteConfig
  classify_ingress_event event routing = or_default_route (first_match event routing) routing
