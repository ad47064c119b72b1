-- ===== src/Output/Confidence.antt =====
-- deepticket/layers/output/confidence.py: the confidence score of an analysis.
pub mod Scores
use deepticket.Prelude.{
  ℕ, zero, suc, ◌+◌, ◌-◌, ◌*◌, min, max, String, Bool, true, false, not, ◌&&◌, ◌||◌, Option, none,
  some, List, [], ◌∷◌, ◌++◌, map, if◌then◌else◌, ltb, leb, eqb, any, ◌==◌, length, select,
}
use deepticket.Prelude.Int.{ℤ, pos, negsuc, sub_ℕ, ◌+ℤ◌, ◌-ℤ◌, clamp_zero}
use deepticket.Prelude.Text.{◌<>◌, strip, size, nonempty}
use deepticket.Json.{Value, str, num, Fields, get, or_default}
use deepticket.Env.{Env, str_of}

abbrev pub evidence_kinds : List String
evidence_kinds = "log" ∷ "config" ∷ "code" ∷ "search" ∷ "evidence" ∷ "skill" ∷ []

abbrev pub analysis_kinds : List String
analysis_kinds = evidence_kinds ++ ("terminal" ∷ "error" ∷ [])

abbrev pub penalty_kinds : List String
penalty_kinds = "error" ∷ []

-- `item.get("kind") or "default"`
abbrev pub kind_of : Fields → Value
kind_of item = or_default (get item "kind") (str "default")

abbrev pub is_among : List String → Value → Bool
is_among kinds (str s) = any (λ k. k == s) kinds
is_among kinds v = false

unfoldable pub is_confidence_applicable : List Fields → Bool
is_confidence_applicable acts = any (λ item. is_among analysis_kinds (kind_of item)) acts

pub record Confidence : Type 0 where
  pub score : ℕ
  pub level : String
  pub label : String
  pub reasons : List String
  pub applicable : Bool

-- `sum(1 for kind in kinds if kind in group)`
abbrev pub count : List String → List Value → ℕ
count group kinds = length (select (is_among group) kinds)

-- The changes to the score, each `score += n` or `score -= n` under its test.
abbrev pub evidence_bonus : ℕ → ℕ
evidence_bonus evidence_count = min 30 (evidence_count * 8)

abbrev pub key_bonus : Bool → ℕ
key_bonus has_key_evidence = if has_key_evidence then 15 else 0

abbrev pub error_penalty : ℕ → ℕ
error_penalty error_count = min 25 (error_count * 12)

abbrev pub failure_penalty : Bool → ℕ
failure_penalty ok = if ok then 0 else 30

abbrev pub reply_bonus : ℕ → ℕ
reply_bonus len = if leb 80 len then 10 else 0

abbrev pub reply_penalty : ℕ → ℕ → ℕ
reply_penalty len evidence_count =
    if eqb len 0
    then 20
    else if leb 80 len
    then 0
    else if ltb len 30 && eqb evidence_count 0
    then 8
    else 0

-- `max(0, min(100, score))` after all changes
unfoldable pub score_of : ℕ → Bool → ℕ → Bool → ℕ → ℕ
score_of evidence_count has_key_evidence error_count ok len = min 100 (
    clamp_zero (
      pos 40
      +ℤ pos (evidence_bonus evidence_count)
      +ℤ pos (key_bonus has_key_evidence)
      -ℤ pos (error_penalty error_count)
      -ℤ pos (failure_penalty ok)
      +ℤ pos (reply_bonus len)
      -ℤ pos (reply_penalty len evidence_count)))

abbrev pub level_of : ℕ → String
level_of score = if leb 75 score then "high" else if leb 50 score then "medium" else "low"

abbrev pub label_of : ℕ → String
label_of score = if leb 75 score then "高" else if leb 50 score then "中" else "低"

module _ ⦃env : Env⦄ where
  abbrev shown : ℕ → String
  shown n = str_of (num n)

  abbrev pub reasons_of : ℕ → Bool → ℕ → Bool → ℕ → List String
  reasons_of evidence_count has_key_evidence error_count ok len =
      (if eqb evidence_count 0
        then "未观察到读代码、查日志或查配置等验证步骤" ∷ []
        else ("已执行 " <> shown evidence_count <> " 步可验证操作（读代码/日志/配置等）") ∷ [])
      ++ (if has_key_evidence then "Agent 给出了基于数据的 key finding" ∷ [] else [])
      ++ (if eqb error_count 0 then [] else ("发生 " <> shown error_count <> " 次工具或步骤错误") ∷ [])
      ++ (if ok then [] else "Agent 运行未正常结束" ∷ [])
      ++ (if eqb len 0
          then "未生成文本结论" ∷ []
          else if leb 80 len
          then "回复内容较为完整" ∷ []
          else if ltb len 30 && eqb evidence_count 0
          then "回复较短，结论可能不充分" ∷ []
          else [])

  abbrev pub scored : List Value → ℕ → Bool → Confidence
  scored kinds len ok =
      let evidence_count = count evidence_kinds kinds in
      let error_count = count penalty_kinds kinds in
      let has_key_evidence = any (is_among ("evidence" ∷ [])) kinds in
      let score = score_of evidence_count has_key_evidence error_count ok len in
      record {
        score = score;
        level = level_of score;
        label = label_of score;
        reasons = reasons_of evidence_count has_key_evidence error_count ok len;
        applicable = true;
      }

  unfoldable pub compute_confidence : List Fields → String → Bool → Bool → Option Confidence
  compute_confidence acts reply ok require_analysis =
      if require_analysis && not (is_confidence_applicable acts)
      then none
      else some (scored (map kind_of acts) (size (strip reply)) ok)
