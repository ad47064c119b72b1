-- ===== src/Investigation/Policy/Chain.antt =====
-- The chain of strategies answers by its first strategy that answers, and never without one.
use deepticket.Prelude.{◌≡◌, refl, sym, ◌∙◌, none, some, List, [], ◌∷◌, ◌++◌, All, ap}
use mathlib.Core.List.{append_assoc}
use deepticket.Investigation.Policy.{
  Strategy, ToolInvocationContext, ToolGovernanceConfig, PolicyEvaluation, PolicyEngine,
  evaluate_chain, evaluate, policy_engine, with_strategies, yaml_strategy,
}

-- No strategy of the list has an answer.
abbrev pub Silent : ToolInvocationContext → List Strategy → Type 0
Silent ctx = All (λ (s : Strategy). s ctx ≡ none)

evaluate_chain-append :
    (xs ys : List Strategy) (ctx : ToolInvocationContext)
    → Silent ctx xs
    → evaluate_chain (xs ++ ys) ctx ≡ evaluate_chain ys ctx
unfolding evaluate_chain
evaluate_chain-append [] ys ctx h = refl
evaluate_chain-append (s ∷ xs) ys ctx h =
    rw (h.0, evaluate_chain) (evaluate_chain-append xs ys ctx h.1)

evaluate_chain-cons :
    (s : Strategy) (xs : List Strategy) (ctx : ToolInvocationContext) (r : PolicyEvaluation)
    → s ctx ≡ some r
    → evaluate_chain (s ∷ xs) ctx ≡ r
unfolding evaluate_chain
evaluate_chain-cons s xs ctx r h = rw (h, evaluate_chain)

-- The first extra strategy that answers decides, whatever stands behind it and in the configuration.
pub evaluate_first :
    (config : ToolGovernanceConfig) (before after : List Strategy) (s : Strategy)
    (ctx : ToolInvocationContext) (r : PolicyEvaluation)
    → Silent ctx before
    → s ctx ≡ some r
    → evaluate (policy_engine config (before ++ s ∷ after)) ctx ≡ r
unfolding evaluate policy_engine
evaluate_first config before after s ctx r h e = rw append_assoc (
    evaluate_chain-append before _ ctx h
    ∙ evaluate_chain-cons s (after ++ yaml_strategy config ∷ []) ctx r e)

-- Where no extra strategy answers, the configured rules do: the default of an empty chain is never used.
pub evaluate_configured :
    (config : ToolGovernanceConfig) (extra : List Strategy) (ctx : ToolInvocationContext)
    → Silent ctx extra
    → yaml_strategy config ctx ≡ some (evaluate (policy_engine config extra) ctx)
unfolding evaluate policy_engine yaml_strategy
evaluate_configured config extra ctx h =
    ap some (sym (evaluate_chain-append extra (yaml_strategy config ∷ []) ctx h))

-- Strategies added by `with_strategies` stand in front: where they are silent the engine answers as
-- before, and the first of them that answers decides.
pub evaluate-with_strategies :
    (engine : PolicyEngine) (before after : List Strategy) (s : Strategy)
    (ctx : ToolInvocationContext) (r : PolicyEvaluation)
    → Silent ctx before
    → s ctx ≡ some r
    → (evaluate (with_strategies engine before) ctx ≡ evaluate engine ctx)
      × (evaluate (with_strategies engine (before ++ s ∷ after)) ctx ≡ r)
unfolding evaluate with_strategies
evaluate-with_strategies engine before after s ctx r h e = (
  evaluate_chain-append before engine.strategies ctx h,
  rw append_assoc (
      evaluate_chain-append before _ ctx h
      ∙ evaluate_chain-cons s (after ++ engine.strategies) ctx r e),
)
