-- ===== src/Observability/RootCause.antt =====
-- `RootCauseAnalysisEngine` (observability-incident-detection-platform/src/observability_platform/
-- services/root_cause_analysis.py). Scores are in hundredths, which is what the rounding to two
-- places leaves of them. A reason is the constructor of its text.
pub mod Ranking
use software_engineering_car.Common.{
  ℕ, ◌+◌, min, String, Bool, true, false, Option, none, some, List, [], ◌∷◌, ◌++◌, map, ltb, leb,
  ◌==◌, str_eq, length, if◌then◌else◌,
}
use software_engineering_car.Common.Table.{select_where}
use software_engineering_car.Observability.Model.{AnomalyCategory, AnomalySeverity, is_critical}

pub record CorrelationSignal : Type 0 where
  pub anomaly_id : ℕ
  pub incident_id : ℕ
  pub rule_id : String
  pub category : AnomalyCategory
  pub severity : AnomalySeverity
  pub source : String
  pub observed_at : ℕ

pub data Reason : Type 0 where
  in_window earliest severity_critical severity_warning : Reason
  category_weight : AnomalyCategory → Reason
  source_appears : ℕ → Reason

pub record RootCauseCandidate : Type 0 where
  pub anomaly_id : ℕ
  pub incident_id : ℕ
  pub rule_id : String
  pub category : AnomalyCategory
  pub severity : AnomalySeverity
  pub source : String
  pub observed_at : ℕ
  pub confidence_score : ℕ
  pub reasons : List Reason

abbrev pub category_score : AnomalyCategory → ℕ
category_score AnomalyCategory.event_severity = 20
category_score AnomalyCategory.log_severity = 10
category_score AnomalyCategory.metric_threshold = 5

unfoldable pub score_signal : ℕ → ℕ → CorrelationSignal → RootCauseCandidate
score_signal earliest_observed_at source_count s =
    let first = s.observed_at == earliest_observed_at in
    let score =
      25
      + (if first then 25 else 0)
      + category_score s.category
      + (if is_critical s.severity then 15 else 5)
      + (if ltb 1 source_count then 15 else 0) in
    record {
      anomaly_id = s.anomaly_id;
      incident_id = s.incident_id;
      rule_id = s.rule_id;
      category = s.category;
      severity = s.severity;
      source = s.source;
      observed_at = s.observed_at;
      confidence_score = min score 100;
      reasons =
          Reason.in_window
          ∷ ((if first then Reason.earliest ∷ [] else [])
              ++ (Reason.category_weight s.category
                  ∷ (if is_critical s.severity
                      then Reason.severity_critical
                      else Reason.severity_warning)
                  ∷ (if ltb 1 source_count then Reason.source_appears source_count ∷ [] else [])));
    }

-- The order of the key (-confidence_score, observed_at, str(anomaly_id)): strictly smaller.
unfoldable pub is_better : RootCauseCandidate → RootCauseCandidate → Bool
is_better a b =
    if ltb b.confidence_score a.confidence_score
    then true
    else if ltb a.confidence_score b.confidence_score
    then false
    else if ltb a.observed_at b.observed_at
    then true
    else if ltb b.observed_at a.observed_at
    then false
    else ltb a.anomaly_id b.anomaly_id

-- Python's `min` with a key keeps the first of the smallest.
unfoldable pub min_from : RootCauseCandidate → List RootCauseCandidate → RootCauseCandidate
min_from best [] = best
min_from best (c ∷ cs) = min_from (if is_better c best then c else best) cs

unfoldable pub earliest_from : ℕ → List CorrelationSignal → ℕ
earliest_from t [] = t
earliest_from t (s ∷ ss) = earliest_from (min t s.observed_at) ss

unfoldable pub source_count : String → List CorrelationSignal → ℕ
source_count source ss = length (select_where (λ s. str_eq s.source source) ss)

unfoldable pub score_in : List CorrelationSignal → ℕ → CorrelationSignal → RootCauseCandidate
score_in signals earliest_observed_at s =
    score_signal earliest_observed_at (source_count s.source signals) s

-- None is the ValueError of an empty list.
unfoldable pub analyze : List CorrelationSignal → Option RootCauseCandidate
analyze [] = none
analyze (s ∷ ss) =
    let score = score_in (s ∷ ss) (earliest_from s.observed_at ss) in
    some (min_from (score s) (map score ss))
