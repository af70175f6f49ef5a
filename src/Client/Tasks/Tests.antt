-- ===== src/Client/Tasks/Tests.antt =====
-- Tasks of a client whose files cannot be saved (neursafe_fl/python/client/task_manager.py).
use yanshi_shield.Base.{
  ℕ, zero, suc, ◌+◌, ◌-◌, ◌≤◌, All, length, replicate, length-replicate, ◌*◌, ◌/◌, ◌%◌, ◌≡◌, ◌<◌,
  refl, ap, ◌∙◌, true, false, none, some, List, [], ◌∷◌, if◌then◌else◌, nat_beq, nat_eq, pair_eq,
  arith, inl,
}
use yanshi_shield.Base.Dict.{lookup, contains}
use yanshi_shield.ResourceManager.Allocation.{
  Request, allocate_resource, is_usable, reaches, consider, calc_allocatable_worker_num,
}
use yanshi_shield.ResourceManager.Node.{new_node, ready}
use yanshi_shield.Base.Int.{pos, ◌+ℤ◌, ◌-ℤ◌}
use yanshi_shield.ResourceManager.Manager.{Manager, request, release_known}
use yanshi_shield.Client.Tasks.{
  TaskKey, Task, given_up, TaskManager, TaskEvent, creates, prepares, ends, stops, refused,
  succeeded, happen_all,
}
use yanshi_shield.Client.Tasks.Layer.{resource_manager, holds}
use yanshi_shield.Client.Tasks.Held.{IsHeld}
use yanshi_shield.Client.Tasks.Running.{happen_all-IsHeld, lost_after}
use yanshi_shield.Client.Tasks.Ids
use yanshi_shield.Client.Tasks.Ids.{Naming, happen_all_named-IsHeld}
use yanshi_shield.Client.Tasks.Leaking.{given_up_leaks}

-- Two numbers in one, 2 ^ a * (2 * b + 1)
abbrev code : ℕ → ℕ → ℕ
code zero b = 2 * b + 1
code (suc a) b = 2 * code a b

abbrev decode : (fuel : ℕ) → ℕ → ℕ × ℕ
decode zero n = (0, 0)
decode (suc fuel) n =
    let (a, b) = decode fuel (n / 2) in if nat_beq (n % 2) 1 then (0, n / 2) else (suc a, b)

code-above : (a b : ℕ) → a < code a b
code-above zero b = omega arith
code-above (suc a) b = omega (arith, code-above a b)

decode-code : (fuel a b : ℕ) → a < fuel → decode fuel (code a b) ≡ (a, b)
decode-code zero a b below = absurd (omega (arith, below))
decode-code (suc fuel) zero b below =
    let odd : (2 * b + 1) % 2 ≡ 1 = omega arith in
    let half : (2 * b + 1) / 2 ≡ b = omega arith in rw (odd, half) refl
decode-code (suc fuel) (suc a) b below =
    let even : (2 * code a b) % 2 ≡ 0 = omega arith in
    let half : (2 * code a b) / 2 ≡ code a b = omega arith in
    rw (even, half, decode-code fuel a b (omega (arith, below))) refl

abbrev pair : ℕ × ℕ → ℕ
pair (a, b) = code a b

abbrev unpair : ℕ → ℕ × ℕ
unpair n = decode n n

unpair-pair : (a b : ℕ) → unpair (pair (a, b)) ≡ (a, b)
unpair-pair a b = decode-code (code a b) a b (code-above a b)

-- An id from which the key can be read
abbrev gen_task_id : TaskKey → (time : ℕ) → ℕ
gen_task_id (job, rest) time = pair (pair (job, pair rest), time)

abbrev key_of : ℕ → TaskKey
key_of id = let (job, rest) = unpair (unpair id).0 in (job, unpair rest)

readable : (key : TaskKey) (time : ℕ) → key_of (gen_task_id key time) ≡ key
readable (job, (round, kind)) time =
    let inner = pair (job, pair (round, kind)) in
    ap (λ (p : ℕ × ℕ). ((unpair p.0).0, unpair (unpair p.0).1)) (unpair-pair inner time)
    ∙ ap (λ (p : ℕ × ℕ). (p.0, unpair p.1)) (unpair-pair job (pair (round, kind)))
    ∙ ap (λ (p : ℕ × ℕ). (job, p)) (unpair-pair round kind)

abbrev idle : TaskManager Manager
idle = record {
  tasks = [];
  rows = [];
  resources = record {
    nodes = (7, new_node 7 ready (pos 0) (pos 4) (pos 8) 1) ∷ [];
    tasks = [];
    db = none;
  };
}

idle-IsHeld : IsHeld (resource_manager 1) key_of (λ _. false) idle
unfolding lookup contains
idle-IsHeld = (λ key. tt, λ id. inl refl)

abbrev one_worker : Request
one_worker = record {
  worker_num = 1;
  worker_resource = record { cpu = some 2; gpu = none; memory = some 1 };
}

abbrev key : TaskKey
key = (0, (1, 0))

abbrev events : List (TaskEvent Request)
events =
    creates key 1 true false one_worker
    ∷ creates key 0 true true one_worker
    ∷ prepares key refused
    ∷ ends key succeeded
    ∷ stops key
    ∷ []

-- Texts as numbers
abbrev number : List ℕ → ℕ
number [] = 0
number (c ∷ cs) = code c (number cs)

abbrev text_from : (fuel : ℕ) → ℕ → List ℕ
text_from zero n = []
text_from (suc fuel) n =
    let rest = text_from fuel (unpair n).1 in if nat_beq n 0 then [] else (unpair n).0 ∷ rest

code-above_right : (a b : ℕ) → b < code a b
code-above_right zero b = omega arith
code-above_right (suc a) b = omega (arith, code-above_right a b)

text_from-number : (fuel : ℕ) (t : List ℕ) → number t ≤ fuel → text_from fuel (number t) ≡ t
text_from-number zero [] below = refl
text_from-number zero (c ∷ cs) below = absurd (omega (arith, below, code-above_right c (number cs)))
text_from-number (suc fuel) [] below = refl
text_from-number (suc fuel) (c ∷ cs) below =
    let above = code-above_right c (number cs) in
    let some_text : nat_beq (code c (number cs)) 0 ≡ false = ground (arith, above) in
    rw (some_text, unpair-pair c (number cs))
      (ap (λ t. c ∷ t) (text_from-number fuel cs (omega (arith, above, below))))

ones_plain : (n : ℕ) → All (λ c. nat_beq c 0 ≡ false) (replicate n 1)
ones_plain zero = tt
ones_plain (suc n) = (refl, ones_plain n)

-- Names and numbers as rows of ones; that of a job begins with a "-", which is 0.
abbrev ones : Naming
ones = record {
  dash = 0;
  number = number;
  text = λ n. text_from n n;
  text-number = λ t. text_from-number (number t) t (omega arith);
  client_suffix = 5 ∷ 0 ∷ [];
  time_text = λ n. replicate n 1;
  job_text = λ n. 0 ∷ replicate n 1;
  round_text = λ n. replicate n 1;
  type_text = λ n. replicate n 1;
  job_of = λ t. length t - 1;
  round_of = length;
  type_of = length;
  job_of-job_text = λ n. omega (arith, length-replicate {A = ℕ} n 1);
  round_of-round_text = λ n. length-replicate n 1;
  type_of-type_text = λ n. length-replicate {A = ℕ} n 1;
  time_plain = ones_plain;
  round_plain = ones_plain;
  type_plain = ones_plain;
}

idle_named-IsHeld : IsHeld (resource_manager 1) (Ids.key_of ones) (λ _. false) idle
unfolding lookup contains
idle_named-IsHeld = (λ key. tt, λ id. inl refl)

happen_all_named-IsHeld_example :
    IsHeld
      (resource_manager 1)
      (Ids.key_of ones)
      (lost_after (Ids.gen_task_id ones) events (λ _. false))
      (happen_all (resource_manager 1) (Ids.gen_task_id ones) events idle)
happen_all_named-IsHeld_example =
    happen_all_named-IsHeld (resource_manager 1) ones (λ _. false) events idle idle_named-IsHeld

-- A task whose files could not be saved
abbrev leaking : TaskManager Manager
leaking =
    happen_all (resource_manager 1) gen_task_id
      (creates key 0 true true one_worker ∷ prepares key refused ∷ []) idle

abbrev leaked : Task
leaked = record { task_id = gen_task_id key 0; phase = given_up; cancelled = false }

leaking-leaked : lookup key leaking.tasks ≡ some leaked
unfolding lookup happen_all request allocate_resource release_known is_usable reaches consider
    calc_allocatable_worker_num ◌-ℤ◌ ◌+ℤ◌
leaking-leaked = refl

given_up_leaks_example :
    (lookup key (happen_all (resource_manager 1) gen_task_id events leaking).tasks ≡ some leaked)
    × (holds leaked.task_id (happen_all (resource_manager 1) gen_task_id events leaking).resources
        ≡ true)
given_up_leaks_example =
    given_up_leaks (resource_manager 1) key_of gen_task_id readable
      (lost_after gen_task_id (creates key 0 true true one_worker ∷ prepares key refused ∷ [])
        (λ _. false))
      key leaked events leaking
      (happen_all-IsHeld (resource_manager 1) key_of gen_task_id readable (λ _. false)
        (creates key 0 true true one_worker ∷ prepares key refused ∷ []) idle idle-IsHeld)
      leaking-leaked refl
