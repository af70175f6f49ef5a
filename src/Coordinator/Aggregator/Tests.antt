-- ===== src/Coordinator/Aggregator/Tests.antt =====
-- Two clients report an accuracy (neursafe_fl/python/coordinator/aggregator/weight_aggregator.py).
use yanshi_shield.Base.{ℕ, ◌+◌, ◌*◌, ◌/◌, ◌≡◌, refl, none, some, List, [], ◌∷◌, ok}
use yanshi_shield.Coordinator.Aggregator.{
  Numpy, Floats, Reported, WeightAggregator, listed, new_aggregator, accumulate_all,
}

abbrev numbers : Numpy ℕ
numbers = record {
  zero = 0;
  add = λ a b. a + b;
  multiply = λ a n. a * n;
  true_divide = λ a n. a / n;
}

abbrev whole : Floats ℕ
whole = record { add = λ a b. a + b; multiply = λ a n. a * n; divide = λ a n. a / n }

abbrev report : (sample_num accuracy weights : ℕ) → Reported ℕ ℕ
report sample_num accuracy weights = record {
  metrics = some (record { sample_num = some sample_num; accuracy = some accuracy; loss = none });
  weights = some (listed weights);
}

abbrev reports : List (Reported ℕ ℕ)
reports = report 3 80 5 ∷ report 1 60 9 ∷ []

abbrev after : WeightAggregator ℕ ℕ
after = record { metrics = some (some 300, none); weights = some (listed 24); total_weight = 4 }

reports-after : accumulate_all whole numbers reports new_aggregator ≡ ok after
unfolding accumulate_all
reports-after = refl
