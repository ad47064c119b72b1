-- ===== src/Output/Confidence/Scores.antt =====
-- The score is a percentage with its level, is missing for a chat without analysis, and moves with the
-- evidence.
use deepticket.Prelude.{
  All, ap, sym, ◌∙◌, subst, ◌==◌, ◌||◌, Option, some, [], ◌∷◌, eq_iff, ℕ, ◌+◌, ◌-◌, ◌≤◌, ◌<◌, ◌≡◌,
  ◌↔◌, ◌⊎◌, min, String, Bool, true, false, not, ◌&&◌, none, some, List, map, if◌then◌else◌, leb,
  arith, refl, inl, inr, Bool-cases, eq_iff, leb→le,
}
use deepticket.Prelude.Int.{ℤ, pos, negsuc, pos_part, neg_part, ◌+ℤ◌, ◌-ℤ◌, +ℤ_parts, -ℤ_parts}
use deepticket.Prelude.Text.{strip, size}
use deepticket.Json.{Value, str, null, bool, num, list, dict, get, Fields, or_default, truthy}
use deepticket.Env.{Env}
use deepticket.Output.Confidence.{
  is_among, analysis_kinds, Confidence, kind_of, score_of, level_of, scored, evidence_bonus,
  key_bonus, error_penalty, failure_penalty, reply_bonus, reply_penalty, compute_confidence,
  is_confidence_applicable,
}

disjoint_parts : (z : ℤ) → (pos_part z ≡ 0) ⊎ (neg_part z ≡ 0)
disjoint_parts (pos n) = inr refl
disjoint_parts (negsuc n) = inl refl

sum_parts :
    (a b c d e f g : ℕ)
    → pos_part (pos a +ℤ pos b +ℤ pos c -ℤ pos d -ℤ pos e +ℤ pos f -ℤ pos g)
      ≡ a + b + c + f - (d + e + g)
sum_parts a b c d e f g =
    let z₁ = pos a +ℤ pos b in
    let z₂ = z₁ +ℤ pos c in
    let z₃ = z₂ -ℤ pos d in
    let z₄ = z₃ -ℤ pos e in
    let z₅ = z₄ +ℤ pos f in
    let p₁ = +ℤ_parts (pos a) (pos b) in
    let p₂ = +ℤ_parts z₁ (pos c) in
    let p₃ = -ℤ_parts z₂ (pos d) in
    let p₄ = -ℤ_parts z₃ (pos e) in
    let p₅ = +ℤ_parts z₄ (pos f) in
    let p₆ = -ℤ_parts z₅ (pos g) in
    elim (disjoint_parts (z₅ -ℤ pos g)) [
      | inl h ↦ omega (arith, h, p₁, p₂, p₃, p₄, p₅, p₆)
      | inr h ↦ omega (arith, h, p₁, p₂, p₃, p₄, p₅, p₆)
    ]

-- The score in closed form: what is added against what is taken away, between 0 and 100.
score_of_lem :
    (n : ℕ) (key : Bool) (errors : ℕ) (ok : Bool) (len : ℕ)
    → score_of n key errors ok len
      ≡ min 100 (
          40
          + evidence_bonus n
          + key_bonus key
          + reply_bonus len
          - (error_penalty errors + failure_penalty ok + reply_penalty len n))
unfolding score_of
score_of_lem n key errors ok len = rw sum_parts

score_le :
    (n : ℕ) (key : Bool) (errors : ℕ) (ok : Bool) (len : ℕ) → score_of n key errors ok len ≤ 100
score_le n key errors ok len = rw score_of_lem (omega arith)

clamp_mono : (a b a' b' : ℕ) → a ≤ a' → b' ≤ b → min 100 (a - b) ≤ min 100 (a' - b')
clamp_mono a b a' b' h k = omega (arith, h, k)

evidence_bonus_mono : (n n' : ℕ) → n ≤ n' → evidence_bonus n ≤ evidence_bonus n'
evidence_bonus_mono n n' h = omega (arith, h)

error_penalty_mono : (n n' : ℕ) → n ≤ n' → error_penalty n ≤ error_penalty n'
error_penalty_mono n n' h = omega (arith, h)

key_bonus_mono : (b b' : Bool) → (b ≡ true → b' ≡ true) → key_bonus b ≤ key_bonus b'
key_bonus_mono true b' h = rw h (omega arith)
key_bonus_mono false b' h = omega arith

failure_penalty_anti :
    (b b' : Bool) → (b ≡ true → b' ≡ true) → failure_penalty b' ≤ failure_penalty b
failure_penalty_anti true b' h = rw h (omega arith)
failure_penalty_anti false true h = omega arith
failure_penalty_anti false false h = omega arith

reply_penalty_anti : (len n n' : ℕ) → n ≤ n' → reply_penalty len n' ≤ reply_penalty len n
reply_penalty_anti len n n' h = ground (arith, h)

-- The score of a reply never falls when the run has more evidence steps, gains a key finding, has fewer
-- errors, or ends well.
pub score_of_monotone :
    (n n' : ℕ) (key key' : Bool) (errors errors' : ℕ) (ok ok' : Bool) (len : ℕ)
    → n ≤ n'
    → (key ≡ true → key' ≡ true)
    → errors' ≤ errors
    → (ok ≡ true → ok' ≡ true)
    → score_of n key errors ok len ≤ score_of n' key' errors' ok' len
score_of_monotone n n' key key' errors errors' ok ok' len h hk he ho =
    let e = evidence_bonus_mono n n' h in
    let k = key_bonus_mono key key' hk in
    let p = error_penalty_mono errors' errors he in
    let f = failure_penalty_anti ok ok' ho in
    let r = reply_penalty_anti len n n' h in
    rw (score_of_lem, score_of_lem)
      (clamp_mono _ _ _ _ (omega (arith, e, k)) (omega (arith, p, f, r)))

both : (a b : Bool) → (a && not b) ≡ true → (a ≡ true) × (b ≡ false)
both true false h = (refl, refl)
both true true h = cc h
both false b h = cc h

-- The level's name tells which of the two tests held.
name_of : Bool → Bool → String
name_of a b = if a then "high" else if b then "medium" else "low"

high_name : (a b : Bool) → name_of a b ≡ "high" → a ≡ true
unfolding name_of
high_name true b h = refl
high_name false true h = cc ((eq_iff "medium" "high").1 h)
high_name false false h = cc ((eq_iff "low" "high").1 h)

low_name : (a b : Bool) → name_of a b ≡ "low" → b ≡ false
unfolding name_of
low_name true b h = cc ((eq_iff "high" "low").1 h)
low_name false true h = cc ((eq_iff "medium" "low").1 h)
low_name false false h = refl

high_level : (n : ℕ) → (level_of n ≡ "high") ↔ (75 ≤ n)
unfolding name_of
high_level n = (
  (λ h. leb→le 75 n (high_name (leb 75 n) (leb 50 n) h)),
  (λ h. let e : leb 75 n ≡ true = ground (arith, h) in rw e refl),
)

low_level : (n : ℕ) → (level_of n ≡ "low") ↔ (n < 50)
unfolding name_of
low_level n = (
  (λ h. let e = low_name (leb 75 n) (leb 50 n) h in ground (arith, e)),
  (λ h.
      let e : leb 75 n ≡ false = ground (arith, h) in
      let f : leb 50 n ≡ false = ground (arith, h) in rw (e, f) refl),
)

abbrev pub is_analysis : String → Bool
is_analysis kind =
    "log" == kind
    || "config" == kind
    || "code" == kind
    || "search" == kind
    || "evidence" == kind
    || "skill" == kind
    || "terminal" == kind
    || "error" == kind

-- The value of an activity's kind names no step of an analysis; neither does what is no text.
abbrev pub NoAnalysisKind : Option Value → Type 0
NoAnalysisKind (some (str kind)) = is_analysis kind ≡ false
NoAnalysisKind _ = Unit

abbrev pub NoAnalysis : Fields → Type 0
NoAnalysis item = NoAnalysisKind (get item "kind")

module _ ⦃env : Env⦄ where
  among : (s : String) → is_among analysis_kinds (str s) ≡ is_analysis s
  among s = ground arith

  kept_value : (v d : Value) → truthy v ≡ true → or_default (some v) d ≡ v
  kept_value v d e = rw (e, or_default) refl

  no_value : (v d : Value) → truthy v ≡ false → or_default (some v) d ≡ d
  no_value v d e = rw (e, or_default) refl

  no_kind :
      (v : Value)
      → is_among analysis_kinds v ≡ false
      → is_among analysis_kinds (or_default (some v) (str "default")) ≡ false
  no_kind v h = elim (Bool-cases (truthy v)) [
    | inl e ↦ ap (is_among analysis_kinds) (kept_value v (str "default") e) ∙ h
    | inr e ↦ ap (is_among analysis_kinds) (no_value v (str "default") e)
  ]

  kind_lem :
      (o : Option Value)
      → (is_among analysis_kinds (or_default o (str "default")) ≡ false) ↔ NoAnalysisKind o
  kind_lem none = ((λ h. tt), (λ h. refl))
  kind_lem (some null) = ((λ h. tt), (λ h. refl))
  kind_lem (some (bool true)) = ((λ h. tt), (λ h. refl))
  kind_lem (some (bool false)) = ((λ h. tt), (λ h. refl))
  kind_lem (some (num n)) = ((λ h. tt), (λ h. no_kind (num n) refl))
  kind_lem (some (str s)) = elim (Bool-cases (truthy (str s))) [
    | inl e ↦
        let kept = ap (is_among analysis_kinds) (kept_value (str s) (str "default") e) in
        ((λ h. sym (among s) ∙ (sym kept ∙ h)), (λ h. kept ∙ (among s ∙ h)))
    | inr e ↦
        let empty : "" ≡ s = ground (arith, e, eq_iff s "") in
        (
          (λ h. subst (λ t. is_analysis t ≡ false) empty refl),
          (λ h. ap (is_among analysis_kinds) (no_value (str s) (str "default") e)),
        )
  ]
  kind_lem (some (list vs)) = ((λ h. tt), (λ h. no_kind (list vs) refl))
  kind_lem (some (dict d)) = ((λ h. tt), (λ h. no_kind (dict d) refl))

  inapplicable-NoAnalysis :
      (acts : List Fields) → is_confidence_applicable acts ≡ false → All NoAnalysis acts
  unfolding is_confidence_applicable
  inapplicable-NoAnalysis [] h = tt
  inapplicable-NoAnalysis (item ∷ acts) h =
      elim (Bool-cases (is_among analysis_kinds (kind_of item))) [
        | inl e ↦ cc (rw e at h)
        | inr e ↦ ((kind_lem (get item "kind")).0 e, inapplicable-NoAnalysis acts (rw e at h))
      ]

  NoAnalysis-inapplicable :
      (acts : List Fields) → All NoAnalysis acts → is_confidence_applicable acts ≡ false
  unfolding is_confidence_applicable
  NoAnalysis-inapplicable [] h = refl
  NoAnalysis-inapplicable (item ∷ acts) h =
      rw ((kind_lem (get item "kind")).1 h.0) (NoAnalysis-inapplicable acts h.1)

  -- No score is given exactly when an analysis is required and no activity is of the kind log, config,
  -- code, search, evidence, skill, terminal or error; an activity without a kind is of none of them.
  pub compute_confidence-none :
      (acts : List Fields) (reply : String) (ok require_analysis : Bool)
      → (compute_confidence acts reply ok require_analysis ≡ none)
        ↔ ((require_analysis ≡ true) × All NoAnalysis acts)
  unfolding compute_confidence
  compute_confidence-none acts reply ok require_analysis =
      elim (Bool-cases (require_analysis && not (is_confidence_applicable acts))) [
        | inl e ↦
            let (r, n) = both require_analysis (is_confidence_applicable acts) e in
            rw e ((λ h. (r, inapplicable-NoAnalysis acts n)), (λ h. refl))
        | inr e ↦ rw e ((λ h. cc h), (λ h. cc (rw (h.0, NoAnalysis-inapplicable acts h.1) at e)))
      ]

  -- A score that is given is at most 100; its level is high exactly from 75 on, and low exactly below 50.
  pub compute_confidence-bounds :
      (acts : List Fields) (reply : String) (ok require_analysis : Bool) (c : Confidence)
      → compute_confidence acts reply ok require_analysis ≡ some c
      → (c.score ≤ 100)
        × ((c.level ≡ "high") ↔ (75 ≤ c.score))
        × ((c.level ≡ "low") ↔ (c.score < 50))
  unfolding compute_confidence
  compute_confidence-bounds acts reply ok require_analysis c h =
      elim (Bool-cases (require_analysis && not (is_confidence_applicable acts))) [
        | inl e ↦ cc (rw e at h)
        | inr e ↦
            let q : c ≡ scored (map kind_of acts) (size (strip reply)) ok = cc (rw e at h) in
            rw q (score_le _ _ _ _ _, high_level _, low_level _)
      ]
