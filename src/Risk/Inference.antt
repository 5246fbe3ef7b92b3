-- ===== src/Risk/Inference.antt =====
-- core/risk/inference.py: the keyword signals of a session's free text become factor scores. The
-- regular expressions are kept as text; `re.search` is the parameter `re_search`.
use ai_workflow_premortem_pu.Prelude.{
  ◌-◌, String, Bool, not, ◌&&◌, none, some, List, [], ◌∷◌, max, is_empty, join, if◌then◌else◌,
}
use ai_workflow_premortem_pu.Model.Enums.{legacy_inference}
use ai_workflow_premortem_pu.Model.Records.{RiskFactorScores, FailureMode}
use ai_workflow_premortem_pu.Model.Context.{ProjectContext}
use ai_workflow_premortem_pu.Risk.Rules.{is_sensitive}

-- A pattern and the label of its reason.
abbrev pub Patterns : Type 0
Patterns = List (String × String)

unfoldable pub critical_keywords : Patterns
critical_keywords =
    (
      "(?i)(药物|处方|诊断|患者|临床|医疗|药品|用药|drug|medication|prescri|diagnos|patient|clinic|medical|pharma)",
      "healthcare/medical domain",
    )
    ∷ (
      "(?i)(心脏|肿瘤|癌症|手术|急救|ICU|急诊|手术室|anaesthesia|anesthesia|surgery|oncology|cardiology)",
      "clinical/surgical domain",
    )
    ∷ []

unfoldable pub high_keywords : Patterns
high_keywords =
    (
      "(?i)(金融|贷款|投资|支付|交易|保险|银行|证券|基金|finance|loan|invest|payment|transaction|insurance|bank|securities)",
      "financial domain",
    )
    ∷ (
      "(?i)(法律|合同|诉讼|合规|法规|律师|legal|contract|litigation|compliance|regulatory|attorney)",
      "legal domain",
    )
    ∷ ("(?i)(儿童|未成年人|kid|child|minor|pediatric)", "child safety")
    ∷ (
      "(?i)(身份认证|认证|密码|credential|authenticat|password|identity.?verif)", "authentication/identity",
    )
    ∷ ("(?i)(安全控制|access.?control|permission|rbac|acl)", "access control")
    ∷ ("(?i)(公开发布|public.?publish|multi.?tenant|多租户)", "public/multi-tenant")
    ∷ ("(?i)(自动发送|auto.?send|自动推送|auto.?dispatch|auto.?notify)", "automated dispatch")
    ∷ ("(?i)(核电|核能|军事|武器|nuclear|military|weapon)", "nuclear/military domain")
    ∷ ("(?i)(自动驾驶|车辆控制|autonomous.?driv|vehicle.?control)", "autonomous vehicle")
    ∷ (
      "(?i)(心理|精神|抑郁|自杀|自残|self.?harm|mental.?health|心理健康|精神健康|psycholog|psychiatr|suicid|depress)",
      "mental health domain",
    )
    ∷ (
      "(?i)(学生|student|pupil|校园|campus|高校|大学|university|college)",
      "student/minor-adjacent population",
    )
    ∷ []

unfoldable pub low_scope_keywords : Patterns
low_scope_keywords =
    (
      "(?i)(个人|personal|本地|local|学习|learn|读书|reading|笔记|note|日记|diary|日记本|journal|计划|plan|爱好|hobby|兴趣|interest)",
      "personal/learning scope",
    )
    ∷ (
      "(?i)(非生产|non.?production|测试|test|演示|demo|原型|prototype|实验|experiment|sandbox)",
      "non-production scope",
    )
    ∷ (
      "(?i)(草稿|draft|提醒|remind|整理|organiz|建议|suggest|参考|reference|辅助|assist)",
      "low-impact automation",
    )
    ∷ []

unfoldable pub high_automation_keywords : Patterns
high_automation_keywords =
    ("(?i)(自动审批|auto.?approv|自动决策|auto.?decis|自动执行|auto.?execut)", "automated approval/decision")
    ∷ (
      "(?i)(自动推荐高影响|auto.?recommend.*(?:高|critical|high)|自动驾驶决策|auto.?pilot)",
      "high-impact auto-recommendation",
    )
    ∷ (
      "(?i)(实时交易|real.?time.*(?:交易|交易|transaction)|实时支付|real.?time.*payment)",
      "real-time financial",
    )
    ∷ []

unfoldable pub sensitive_data_keywords : Patterns
sensitive_data_keywords =
    (
      "(?i)(患者数据|patient.?data|医疗记录|medical.?record|处方数据|prescription.?data)",
      "patient/medical data",
    )
    ∷ (
      "(?i)(财务数据|financial.?data|账户信息|account.?info|信用卡|credit.?card|银行账户|bank.?account)",
      "financial data",
    )
    ∷ ("(?i)(身份信息|identity.?info|身份证|id.?card|护照|passport|SSN|社会安全)", "identity data")
    ∷ ("(?i)(未成年人数据|minor.?data|儿童信息|child.?info)", "minor data")
    ∷ []

unfoldable pub matching_reasons : (String → String → Bool) → String → Patterns → List String
matching_reasons re_search text [] = []
matching_reasons re_search text ((pattern, reason) ∷ ps) =
    let rest = matching_reasons re_search text ps in
    if re_search pattern text then reason ∷ rest else rest

mode_texts : List FailureMode → List String
mode_texts [] = []
mode_texts (m ∷ ms) = m.description ∷ m.category ∷ mode_texts ms

-- `x or ""` is x for a text.
unfoldable pub aggregate_legacy_text : ProjectContext → String
unfolding mode_texts
aggregate_legacy_text ctx =
    let extra : List String = elim ctx.stage_1_output [
      | none ↦ []
      | some out ↦ mode_texts out.failure_modes
    ] in
    join " " (ctx.research_target ∷ ctx.domain ∷ ctx.goal ∷ extra)

-- The scores before any signal.
abbrev pub neutral : RiskFactorScores
neutral = record {
  impact = 1;
  autonomy = 1;
  data_sensitivity = 1;
  reversibility = 1;
  scale = 1;
  external_exposure = 1;
  source = legacy_inference;
}

-- `if critical_hits: ... elif high_hits: ...`
unfoldable pub domain_signal : Bool → Bool → RiskFactorScores → RiskFactorScores
domain_signal critical_hits high_hits f =
    if critical_hits
    then record f {
      impact = 3;
      autonomy = max f.autonomy 2;
      data_sensitivity = 3;
      reversibility = max f.reversibility 2;
      scale = max f.scale 2;
    }
    else if high_hits
    then record f {
      impact = max f.impact 2;
      data_sensitivity = max f.data_sensitivity 2;
      reversibility = max f.reversibility 2;
    }
    else f

-- `max(x - 1, 0)` is the subtraction of ℕ.
unfoldable pub low_scope_signal : Bool → Bool → Bool → RiskFactorScores → RiskFactorScores
low_scope_signal low_hits critical_hits high_hits f =
    if not low_hits
    then f
    else if not critical_hits && high_hits
    then record f {
      autonomy = f.autonomy - 1;
      scale = f.scale - 1;
      external_exposure = f.external_exposure - 1;
    }
    else if not critical_hits
    then record f {
      impact = f.impact - 1;
      autonomy = f.autonomy - 1;
      data_sensitivity = f.data_sensitivity - 1;
      reversibility = f.reversibility - 1;
      scale = f.scale - 1;
      external_exposure = f.external_exposure - 1;
    }
    else f

unfoldable pub automation_signal : Bool → RiskFactorScores → RiskFactorScores
automation_signal hits f = if hits then record f { autonomy = max f.autonomy 2 } else f

unfoldable pub sensitive_signal : Bool → RiskFactorScores → RiskFactorScores
sensitive_signal hits f =
    if hits then record f { data_sensitivity = 3; impact = max f.impact 2 } else f

unfoldable pub classification_signal : Bool → RiskFactorScores → RiskFactorScores
classification_signal sensitive f =
    if sensitive then record f { data_sensitivity = max f.data_sensitivity 2 } else f

-- The factors that the five keyword tests and the classification give; the reasons are left out.
unfoldable pub factors_of_hits : Bool → Bool → Bool → Bool → Bool → Bool → RiskFactorScores
factors_of_hits critical_hits high_hits low_hits automation_hits sensitive_hits sensitive =
    classification_signal sensitive (
      sensitive_signal sensitive_hits (
        automation_signal automation_hits (
          low_scope_signal low_hits critical_hits high_hits
            (domain_signal critical_hits high_hits neutral))))

module _ (re_search : String → String → Bool) where
  unfoldable pub hits : ProjectContext → Patterns → Bool
  hits ctx patterns =
      not (is_empty (matching_reasons re_search (aggregate_legacy_text ctx) patterns))

  unfoldable pub infer_legacy_factors : ProjectContext → RiskFactorScores
  infer_legacy_factors ctx =
      factors_of_hits (hits ctx critical_keywords) (hits ctx high_keywords)
        (hits ctx low_scope_keywords) (hits ctx high_automation_keywords)
        (hits ctx sensitive_data_keywords) (is_sensitive ctx.data_classification)
