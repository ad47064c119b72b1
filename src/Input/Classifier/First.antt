-- ===== src/Input/Classifier/First.antt =====
-- The route that is chosen, in terms of its settings, and that one is always chosen.
use deepticket.Prelude.{
  String, ◌≡◌, refl, ap, ◌⊎◌, inl, inr, Bool, true, false, not, ◌&&◌, ◌||◌, none, some, List, [],
  ◌∷◌, ◌++◌, All, any, ◌==◌, eq_iff, Bool-cases,
}
use deepticket.Exec.{ok}
use deepticket.Input.Routing.{RouteConfig, RoutingConfig, default_route, first_default, last_route}
use deepticket.Input.Classifier.{
  IngressEvent, contains, is_empty, is_matched, is_hit, first_match, classify_ingress_event,
}

-- One of the texts has the property.
pub data AnyOf (P : String → Type 0) : List String → Type 0 where
  here : (x : String) (xs : List String) → P x → AnyOf P (x ∷ xs)
  there : (x : String) (xs : List String) → AnyOf P xs → AnyOf P (x ∷ xs)

-- A list of conditions is empty, or one of them holds.
abbrev pub Allows : List String → (String → Type 0) → Type 0
Allows xs P = (xs ≡ []) ⊎ AnyOf P xs

module _ (lower : String → String) (event : IngressEvent) where
  -- The route is not marked as a default. The event has one of its sources, if it names any; and the
  -- question holds one of its title keywords, if there are any, and one of its body keywords, if there are
  -- any; all of that without regard to case.
  pub record Hit (route : RouteConfig) : Type 0 where
    pub no_default : route.criteria.default ≡ false
    pub source : Allows route.criteria.sources (λ s. lower s ≡ lower event.source)
    pub title :
        Allows route.criteria.title_keywords
          (λ kw. contains (lower event.question) (lower kw) ≡ true)
    pub body :
        Allows route.criteria.body_keywords
          (λ kw. contains (lower event.question) (lower kw) ≡ true)

-- The route has the property, and no route before it has.
pub data IsFirst (P : RouteConfig → Type 0) (route : RouteConfig) : RoutingConfig → Type 0 where
  head : (rest : RoutingConfig) → P route → IsFirst P route (route ∷ rest)
  tail :
      (other : RouteConfig) (rest : RoutingConfig)
      → ¬ P other
      → IsFirst P route rest
      → IsFirst P route (other ∷ rest)

abbrev pub NoneOf : (RouteConfig → Type 0) → RoutingConfig → Type 0
NoneOf P routes = All (λ route. ¬ P route) routes

abbrev pub IsDefault : RouteConfig → Type 0
IsDefault route = route.criteria.default ≡ true

-- The first route that is marked as a default, or the last of all where none is
pub data Fallback (route : RouteConfig) (routes : RoutingConfig) : Type 0 where
  marked : IsFirst IsDefault route routes → Fallback route routes
  last :
      (before : RoutingConfig)
      → NoneOf IsDefault routes
      → routes ≡ before ++ (route ∷ [])
      → Fallback route routes

any-AnyOf :
    (p : String → Bool) (P : String → Type 0) (xs : List String)
    → ((x : String) → p x ≡ true → P x)
    → any p xs ≡ true
    → AnyOf P xs
any-AnyOf p P [] f h = cc h
any-AnyOf p P (x ∷ xs) f h = elim (Bool-cases (p x)) [
  | inl e ↦ here x xs (f x e)
  | inr e ↦ there x xs (any-AnyOf p P xs f (rw e at h))
]

AnyOf-any :
    (p : String → Bool) (P : String → Type 0) {xs : List String}
    → ((x : String) → P x → p x ≡ true)
    → AnyOf P xs
    → any p xs ≡ true
AnyOf-any p P f (here x xs h) = rw (f x h) refl
AnyOf-any p P f (there x xs h) = elim (Bool-cases (p x)) [
  | inl e ↦ rw e refl
  | inr e ↦ rw e (AnyOf-any p P f h)
]

any-Allows :
    (p : String → Bool) (P : String → Type 0) (xs : List String)
    → ((x : String) → p x ≡ true → P x)
    → (is_empty xs || any p xs) ≡ true
    → Allows xs P
any-Allows p P [] f h = inl refl
any-Allows p P (x ∷ xs) f h = inr (any-AnyOf p P (x ∷ xs) f h)

Allows-any :
    (p : String → Bool) (P : String → Type 0) (xs : List String)
    → ((x : String) → P x → p x ≡ true)
    → Allows xs P
    → (is_empty xs || any p xs) ≡ true
Allows-any p P xs f (inl e) = rw e refl
Allows-any p P [] f (inr h) = refl
Allows-any p P (x ∷ xs) f (inr h) = AnyOf-any p P f h

and_parts :
    (a b c d : Bool)
    → (not a && (b && c && d)) ≡ true
    → (a ≡ false) × (b ≡ true) × (c ≡ true) × (d ≡ true)
and_parts false true true true h = (refl, refl, refl, refl)
and_parts true b c d h = cc h
and_parts false false c d h = cc h
and_parts false true false d h = cc h
and_parts false true true false h = cc h

module _ (lower : String → String) (event : IngressEvent) where
  is_hit-Hit : (route : RouteConfig) → is_hit lower event route ≡ true → Hit lower event route
  unfolding is_hit is_matched
  is_hit-Hit route h =
      let m = route.criteria in
      let (d, s, t, b) = and_parts _ _ _ _ h in
      record {
        no_default = d;
        source =
            any-Allows (λ item. lower item == lower event.source) _ m.sources
              (λ x q. (eq_iff _ _).0 q) s;
        title =
            any-Allows (λ kw. contains (lower event.question) (lower kw)) _ m.title_keywords
              (λ x q. q) t;
        body =
            any-Allows (λ kw. contains (lower event.question) (lower kw)) _ m.body_keywords
              (λ x q. q) b;
      }

  Hit-is_hit : (route : RouteConfig) → Hit lower event route → is_hit lower event route ≡ true
  unfolding is_hit is_matched
  Hit-is_hit route h =
      let m = route.criteria in
      rw
        (
          h.no_default,
          Allows-any (λ item. lower item == lower event.source) _ m.sources
              (λ x q. (eq_iff _ _).1 q) h.source,
          Allows-any (λ kw. contains (lower event.question) (lower kw)) _ m.title_keywords
              (λ x q. q) h.title,
          Allows-any (λ kw. contains (lower event.question) (lower kw)) _ m.body_keywords (λ x q. q)
              h.body,
        )
        refl

  no-Hit : (route : RouteConfig) → is_hit lower event route ≡ false → ¬ Hit lower event route
  no-Hit route e h = cc (e, Hit-is_hit route h)

  first_match_lem :
      (routes : RoutingConfig)
      → ((route : RouteConfig) × (first_match lower event routes ≡ some route)
          × IsFirst (Hit lower event) route routes)
        ⊎ ((first_match lower event routes ≡ none) × NoneOf (Hit lower event) routes)
  unfolding first_match
  first_match_lem [] = inr (refl, tt)
  first_match_lem (route ∷ routes) = elim (Bool-cases (is_hit lower event route)) [
    | inl e ↦ inl (route, rw e refl, head routes (is_hit-Hit route e))
    | inr e ↦ elim (first_match_lem routes) [
      | inl (found, f, g) ↦ inl (found, rw (e, f) refl, tail route routes (no-Hit route e) g)
      | inr (f, g) ↦ inr (rw (e, f) refl, (no-Hit route e, g))
    ]
  ]

no-IsDefault : (route : RouteConfig) → route.criteria.default ≡ false → ¬ IsDefault route
no-IsDefault route e h = cc (e, h)

first_default_lem :
    (routes : RoutingConfig)
    → ((route : RouteConfig) × (first_default routes ≡ some route) × IsFirst IsDefault route routes)
      ⊎ ((first_default routes ≡ none) × NoneOf IsDefault routes)
first_default_lem [] = inr (refl, tt)
first_default_lem (route ∷ routes) = elim (Bool-cases route.criteria.default) [
  | inl e ↦ inl (route, rw e refl, head routes e)
  | inr e ↦ elim (first_default_lem routes) [
    | inl (found, f, g) ↦ inl (found, rw (e, f) refl, tail route routes (no-IsDefault route e) g)
    | inr (f, g) ↦ inr (rw (e, f) refl, (no-IsDefault route e, g))
  ]
]

-- There is always a last route to fall back on.
last_route_lem :
    (route : RouteConfig) (routes : RoutingConfig)
    → (r : RouteConfig) × (last_route (route ∷ routes) ≡ some r)
      × ((before : RoutingConfig) × (route ∷ routes ≡ before ++ (r ∷ [])))
last_route_lem route [] = (route, refl, ([], refl))
last_route_lem route (next ∷ routes) =
    let (r, e, (before, f)) = last_route_lem next routes in
    (r, e, (route ∷ before, ap (λ rs. route ∷ rs) f))

default_route-Fallback :
    (route : RouteConfig) (routes : RoutingConfig)
    → (r : RouteConfig) × (default_route (route ∷ routes) ≡ some r) × Fallback r (route ∷ routes)
unfolding default_route
default_route-Fallback route routes = elim (first_default_lem (route ∷ routes)) [
  | inl (r, e, f) ↦ (r, rw e refl, marked f)
  | inr (e, n) ↦
      let (r, f, (before, g)) = last_route_lem route routes in (r, rw (e, f) refl, last before n g)
]

module _ (lower : String → String) (event : IngressEvent) where
  -- Where there is a route at all, classification returns one. It is the first route that is not marked
  -- as a default, has the event's source among its sources, and a title and a body keyword that the
  -- question holds, where an empty list of these asks for nothing and case does not count. Where there is
  -- no such route, it is the first one that is marked as a default, or the last one where none is.
  pub classify-IsFirst :
      (route : RouteConfig) (routes : RoutingConfig)
      → (r : RouteConfig) × (classify_ingress_event lower event (route ∷ routes) ≡ ok r)
        × (IsFirst (Hit lower event) r (route ∷ routes)
            ⊎ (NoneOf (Hit lower event) (route ∷ routes) × Fallback r (route ∷ routes)))
  unfolding classify_ingress_event
  classify-IsFirst route routes = elim (first_match_lem lower event (route ∷ routes)) [
    | inl (r, e, f) ↦ (r, rw e refl, inl f)
    | inr (e, n) ↦
        let (r, f, g) = default_route-Fallback route routes in (r, rw (e, f) refl, inr (n, g))
  ]
