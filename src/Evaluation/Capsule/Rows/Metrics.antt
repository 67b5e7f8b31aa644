-- ===== src/Evaluation/Capsule/Rows/Metrics.antt =====
-- The numbers of a document by their dotted names (`_iter_numeric_metrics` of evaluation/parquet.py).
use Prim.Native.String.{◌++◌ as ◌<>◌}
use jpapt_v2_2_inspection.Base.{
  ℕ, String, Bool, ◌||◌, Option, none, some, List, [], ◌∷◌, ◌++◌, if◌then◌else◌,
}
use jpapt_v2_2_inspection.Base.Json.{
  Json, null, bool, int, real, str, arr, tuple, obj, Fields, end, field,
}
use jpapt_v2_2_inspection.Base.Sorting.{sort}
use jpapt_v2_2_inspection.Base.Text.{codes, leb_text}
use jpapt_v2_2_inspection.Evaluation.Models.{Float64}
use jpapt_v2_2_inspection.Evaluation.Metrics.Words.{same_text}
use jpapt_v2_2_inspection.Evaluation.Capsule.Artifact.{is_empty}

-- `s.endswith(suffix)`, on code points.
ends_with : List ℕ → List ℕ → Bool
ends_with suffix [] = same_text [] suffix
ends_with suffix (c ∷ cs) = same_text (c ∷ cs) suffix || ends_with suffix cs

unfoldable pub metric_unit : String → Option String
unfolding codes ends_with
metric_unit name =
    if ends_with (codes "_ms") (codes name)
    then some "ms"
    else if ends_with (codes "_sec") (codes name)
    then some "s"
    else if ends_with (codes "_mb") (codes name)
    then some "MB"
    else if ends_with (codes "_bytes") (codes name)
    then some "bytes"
    else none

pub record Metric : Type 0 where
  pub metric_name : String
  pub metric_value : Float64
  pub unit : Option String

-- `f"{prefix}.{key}" if prefix else key`
abbrev pub dotted : String → String → String
dotted prefix key = if is_empty prefix then key else prefix <> "." <> key

abbrev pub by_key : String × List Metric → String × List Metric → Bool
by_key a b = leb_text a.0 b.0

abbrev pub concat_values : List (String × List Metric) → List Metric
concat_values [] = []
concat_values ((_, metrics) ∷ rest) = metrics ++ concat_values rest

module _ (to_float : Json → Float64) where
  -- The metrics of each key are found first and then put in the order of the keys.
  unfoldable mutual
    pub value_metrics : Json → String → String → List Metric
    value_metrics (obj fields) key name = concat_values (sort by_key (field_metrics fields name))
    value_metrics (int n) key name =
        record { metric_name = name; metric_value = to_float (int n); unit = metric_unit key } ∷ []
    value_metrics (real r) key name =
        record { metric_name = name; metric_value = to_float (real r); unit = metric_unit key } ∷ []
    value_metrics null key name = []
    value_metrics (bool b) key name = []
    value_metrics (str s) key name = []
    value_metrics (arr xs) key name = []
    value_metrics (tuple xs) key name = []

    pub field_metrics : Fields → String → List (String × List Metric)
    field_metrics end prefix = []
    field_metrics (field key item rest) prefix =
        (key, value_metrics item key (dotted prefix key)) ∷ field_metrics rest prefix

  unfoldable pub iter_numeric_metrics : Fields → String → List Metric
  unfolding value_metrics field_metrics
  iter_numeric_metrics value prefix = concat_values (sort by_key (field_metrics value prefix))
