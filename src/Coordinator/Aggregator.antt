-- ===== src/Coordinator/Aggregator.antt =====
-- neursafe_fl/python/coordinator/aggregator/weight_aggregator.py: the class `WeightAggregator`. numpy is
-- the record `Numpy`. The accuracy and the loss of a client and what weighs them are floats,
-- the record `Floats` with the operations of Python, about which nothing is taken for granted. The server of the secure aggregation is an argument.
mod Tests
use yanshi_shield.Base.{
  ℕ, ◌+◌, ◌*◌, ◌≡◌, ◌≤◌, refl, Bool, true, false, Option, none, some, List, [], ◌∷◌, if◌then◌else◌,
  nat_beq, nat_eq, Result, ok, raise, ◌>>=◌, arith, >>=-eq-ok,
}
use yanshi_shield.Base.Dict.{Dict, lookup, insert}

pub record Numpy (A : Type 0) : Type 0 where
  pub zero : A
  pub add : A → A → A
  pub multiply : A → ℕ → A
  pub true_divide : A → ℕ → A

-- The floats of Python, with ints as factors and divisors
pub record Floats (F : Type 0) : Type 0 where
  pub add : F → F → F
  pub multiply : F → ℕ → F
  pub divide : F → ℕ → F

-- TypeError and AggregationFailedError
pub data AggregateError : Type 0 where
  type_error aggregation_failed : AggregateError

-- "sample_num", "accuracy" and "loss", where the client gave them
pub record Metrics (F : Type 0) : Type 0 where
  pub sample_num : Option ℕ
  pub accuracy : Option F
  pub loss : Option F

-- Weights in a list, or by the names of their layers
pub data Weights (A : Type 0) : Type 0 where
  listed : A → Weights A
  named : Dict ℕ A → Weights A

pub record Reported (F A : Type 0) : Type 0 where
  pub metrics : Option (Metrics F)
  pub weights : Option (Weights A)

pub record WeightAggregator (F A : Type 0) : Type 0 where
  pub metrics : Option (Option F × Option F)
  pub weights : Option (Weights A)
  pub total_weight : ℕ

abbrev pub new_aggregator : {F A : Type 0} → WeightAggregator F A
new_aggregator = record { metrics = none; weights = none; total_weight = 0 }

-- `metrics["sample_num"]`, 1 where it is not there; without metrics this is a TypeError.
abbrev sample_weight : {F : Type 0} → Option (Metrics F) → Result AggregateError ℕ
sample_weight none = raise type_error
sample_weight (some metrics) = ok (elim metrics.sample_num [ none ↦ 1 | some n ↦ n ])

-- The weight that is given, unless it is none or 0
abbrev pub weight_of : {F : Type 0} → Option ℕ → Option (Metrics F) → Result AggregateError ℕ
weight_of none metrics = sample_weight metrics
weight_of (some n) metrics = if nat_beq n 0 then sample_weight metrics else ok n

module _ {F : Type 0} (floats : Floats F) where
  -- One key of `__add_metrics`
  abbrev add_metric : Option F → Option F → (weight : ℕ) → Option F
  add_metric accumulated none weight = accumulated
  add_metric none (some value) weight = some (floats.multiply value weight)
  add_metric (some sum) (some value) weight = some (floats.add sum (floats.multiply value weight))

  -- `__add_metrics`
  abbrev add_metrics :
      Option (Option F × Option F)
      → Option (Metrics F)
      → (weight : ℕ) → Option (Option F × Option F)
  add_metrics accumulated none weight = accumulated
  add_metrics none (some metrics) weight =
      some (add_metric none metrics.accuracy weight, add_metric none metrics.loss weight)
  add_metrics (some (accuracy, loss)) (some metrics) weight =
      some (add_metric accuracy metrics.accuracy weight, add_metric loss metrics.loss weight)

  -- The means of `aggregate`
  abbrev mean_metric : ℕ → Option F → Option F
  mean_metric total none = none
  mean_metric total (some sum) = some (floats.divide sum total)

  abbrev mean_metrics : ℕ → Option (Option F × Option F) → Option (Option F × Option F)
  mean_metrics total none = none
  mean_metrics total (some (accuracy, loss)) =
      some (mean_metric total accuracy, mean_metric total loss)

module _ {F A : Type 0} (floats : Floats F) (numpy : Numpy A) where
  -- The loop of `__add_weights` over the layers
  abbrev add_layers : Dict ℕ A → Dict ℕ A → (weight : ℕ) → Dict ℕ A
  add_layers accumulated [] weight = accumulated
  add_layers accumulated ((name, delta) ∷ layers) weight =
      let old : A = elim (lookup name accumulated) [ none ↦ numpy.zero | some sum ↦ sum ] in
      add_layers (insert name (numpy.add old (numpy.multiply delta weight)) accumulated) layers
        weight

  -- `__add_weights`; weights of two forms do not add up.
  unfoldable pub add_weights :
      Option (Weights A) → Weights A → (weight : ℕ) → Result AggregateError (Weights A)
  unfolding lookup insert
  add_weights none (listed value) weight =
      ok (listed (numpy.add numpy.zero (numpy.multiply value weight)))
  add_weights none (named layers) weight = ok (named (add_layers [] layers weight))
  add_weights (some (listed sum)) (listed value) weight =
      ok (listed (numpy.add sum (numpy.multiply value weight)))
  add_weights (some (named sum)) (named layers) weight = ok (named (add_layers sum layers weight))
  add_weights _ _ weight = raise type_error

  -- The weights after a report; `secure` is what the server of the secure aggregation answers, if there
  -- is one.
  abbrev take_weights :
      (secure : Option (Weights A))
      → Option (Weights A)
      → Option (Weights A)
      → (weight : ℕ) → Result AggregateError (Option (Weights A))
  take_weights secure accumulated none weight = ok accumulated
  take_weights (some answer) accumulated (some weights) weight = ok (some answer)
  take_weights none accumulated (some weights) weight =
      add_weights accumulated weights weight >>= λ sum. ok (some sum)

  -- `accumulate`
  unfoldable pub accumulate :
      (secure : Option (Weights A))
      → Reported F A
      → (weight : Option ℕ) → WeightAggregator F A
      → Result AggregateError (WeightAggregator F A)
  unfolding add_weights
  accumulate secure report given self = weight_of given report.metrics >>= λ weight.
      take_weights secure self.weights report.weights weight >>= λ weights. ok (record {
        metrics = add_metrics floats self.metrics report.metrics weight;
        weights = weights;
        total_weight = self.total_weight + weight;
      })

  -- `aggregate`'s weights
  abbrev mean_weights : ℕ → Weights A → Weights A
  mean_weights total (listed sum) = listed (numpy.true_divide sum total)
  mean_weights total (named layers) = named (mean_layers layers)
    where
      mean_layers : Dict ℕ A → Dict ℕ A
      mean_layers [] = []
      mean_layers ((name, sum) ∷ rest) = (name, numpy.true_divide sum total) ∷ mean_layers rest

  -- `aggregate`, with what the server of the secure aggregation decrypts, if there is one
  unfoldable aggregate :
      (decrypted : Option (Weights A))
      → WeightAggregator F A
      → Result AggregateError (Option (Option F × Option F) × Option (Weights A))
  aggregate decrypted self =
      let weights : Option (Weights A) = elim self.weights [
        | none ↦ none
        | some sum ↦
            some
              (mean_weights self.total_weight (elim decrypted [ none ↦ sum | some plain ↦ plain ]))
      ] in
      if nat_beq self.total_weight 0
      then raise aggregation_failed
      else ok (mean_metrics floats self.total_weight self.metrics, weights)

  -- All reports of a round, each with the weight that it has of itself
  unfoldable pub accumulate_all :
      List (Reported F A) → WeightAggregator F A → Result AggregateError (WeightAggregator F A)
  unfolding accumulate
  accumulate_all [] self = ok self
  accumulate_all (report ∷ later) self =
      accumulate none report none self >>= λ after. accumulate_all later after
