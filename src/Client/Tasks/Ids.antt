-- ===== src/Client/Tasks/Ids.antt =====
-- The ids of tasks: `__gen_task_id` of neursafe_fl/python/client/task_manager.py. Texts are lists of
-- characters; how names, numbers and times are written is the record `Naming`.
use mathlib.Core.List.{append_assoc}
use yanshi_shield.Base.{
  ℕ, ◌≡◌, refl, ap, ◌∙◌, Bool, false, List, [], ◌∷◌, ◌++◌, nat_beq, All, All-append, if◌then◌else◌,
  arith,
}
use yanshi_shield.Client.Tasks.{ResourceLayer, TaskKey, TaskManager, TaskEvent, happen_all}
use yanshi_shield.Client.Tasks.Held.{IsHeld}
use yanshi_shield.Client.Tasks.Running.{happen_all-IsHeld, lost_after}

-- The texts that `%s` makes of a name of a job, a round, a type of task and a time, the end of the client's
-- own id, the character "-", and the numbers by which ids are known elsewhere. What a text was made from
-- can be read from it, and a round, a type of task and a time have no "-" in them.
pub record Naming : Type 0 where
  pub dash : ℕ
  pub number : List ℕ → ℕ
  pub text : ℕ → List ℕ
  pub text-number : (t : List ℕ) → text (number t) ≡ t
  pub client_suffix : List ℕ
  pub time_text : ℕ → List ℕ
  pub job_text : ℕ → List ℕ
  pub round_text : ℕ → List ℕ
  pub type_text : ℕ → List ℕ
  pub job_of : List ℕ → ℕ
  pub round_of : List ℕ → ℕ
  pub type_of : List ℕ → ℕ
  pub job_of-job_text : (n : ℕ) → job_of (job_text n) ≡ n
  pub round_of-round_text : (n : ℕ) → round_of (round_text n) ≡ n
  pub type_of-type_text : (n : ℕ) → type_of (type_text n) ≡ n
  pub time_plain : (n : ℕ) → All (λ c. nat_beq c dash ≡ false) (time_text n)
  pub round_plain : (n : ℕ) → All (λ c. nat_beq c dash ≡ false) (round_text n)
  pub type_plain : (n : ℕ) → All (λ c. nat_beq c dash ≡ false) (type_text n)

-- `__gen_task_id`: '%s-%s-%s-%s-%s'
unfoldable pub gen_task_id : Naming → TaskKey → (time : ℕ) → ℕ
gen_task_id naming (job, (round, kind)) time = naming.number (
    naming.type_text kind
    ++ (naming.dash
        ∷ (naming.job_text job
            ++ (naming.dash
                ∷ (naming.client_suffix
                    ++ (naming.dash
                        ∷ (naming.round_text round ++ (naming.dash ∷ naming.time_text time))))))))

-- The text before the first of some character, and the text after it
unfoldable pub split_at : ℕ → List ℕ → List ℕ × List ℕ
split_at d [] = ([], [])
split_at d (c ∷ cs) =
    let (before, after) = split_at d cs in if nat_beq c d then ([], cs) else (c ∷ before, after)

abbrev pub rev : List ℕ → List ℕ
rev [] = []
rev (c ∷ cs) = rev cs ++ (c ∷ [])

abbrev pub drop : List ℕ → List ℕ → List ℕ
drop [] t = t
drop (_ ∷ cs) [] = []
drop (_ ∷ cs) (_ ∷ t) = drop cs t

split_at-append :
    (d : ℕ) (a b : List ℕ) → All (λ c. nat_beq c d ≡ false) a → split_at d (a ++ (d ∷ b)) ≡ (a, b)
unfolding split_at
split_at-append d [] b h = ground arith
split_at-append d (c ∷ a) b (plain, rest) = rw (plain, split_at-append d a b rest) refl

rev-append : (d : ℕ) (a b : List ℕ) → rev (a ++ (d ∷ b)) ≡ rev b ++ (d ∷ rev a)
rev-append d [] b = refl
rev-append d (c ∷ a) b =
    ap (λ t. t ++ (c ∷ [])) (rev-append d a b) ∙ append_assoc (rev b) (d ∷ rev a) (c ∷ [])

rev-rev : (a : List ℕ) → rev (rev a) ≡ a
rev-rev [] = refl
rev-rev (c ∷ a) = rev-append c (rev a) [] ∙ ap (λ t. c ∷ t) (rev-rev a)

All-rev :
    (d : ℕ) (a : List ℕ) → All (λ c. nat_beq c d ≡ false) a → All (λ c. nat_beq c d ≡ false) (rev a)
All-rev d [] h = tt
All-rev d (c ∷ a) (plain, rest) =
    All-append (λ c. nat_beq c d ≡ false) (rev a) (c ∷ []) (All-rev d a rest) (plain, tt)

drop-append : (d : ℕ) (a b : List ℕ) → drop (d ∷ a) (a ++ (d ∷ b)) ≡ b
drop-append d [] b = refl
drop-append d (c ∷ a) b = drop-append d a b

-- Four parts read from the right
rev_parts :
    (d : ℕ) (job client round time : List ℕ)
    → rev (job ++ (d ∷ (client ++ (d ∷ (round ++ (d ∷ time))))))
      ≡ rev time ++ (d ∷ (rev round ++ (d ∷ (rev client ++ (d ∷ rev job)))))
rev_parts d job client round time =
    rev-append d job (client ++ (d ∷ (round ++ (d ∷ time))))
    ∙ ap (λ t. t ++ (d ∷ rev job))
        (rev-append d client (round ++ (d ∷ time))
          ∙ ap (λ t. t ++ (d ∷ rev client)) (rev-append d round time))
    ∙ append_assoc (rev time ++ (d ∷ rev round)) (d ∷ rev client) (d ∷ rev job)
    ∙ append_assoc (rev time) (d ∷ rev round) (d ∷ (rev client ++ (d ∷ rev job)))

module _ (naming : Naming) where
  -- What stands behind the type of a task, read from the right
  abbrev pub key_behind : (kind : List ℕ) → (reversed : List ℕ) → TaskKey
  key_behind kind reversed =
      let behind = split_at naming.dash (split_at naming.dash reversed).1 in
      (
        naming.job_of (rev (drop (naming.dash ∷ rev naming.client_suffix) behind.1)),
        (naming.round_of (rev behind.0), naming.type_of kind),
      )

  -- The key that a task's id is made of
  abbrev pub key_of : ℕ → TaskKey
  key_of id = let parts = split_at naming.dash (naming.text id) in key_behind parts.0 (rev parts.1)

  -- An id tells the job, the round and the type of its task, also where the name of the job has a "-".
  pub key_of-gen_task_id : (key : TaskKey) (time : ℕ) → key_of (gen_task_id naming key time) ≡ key
  unfolding gen_task_id
  key_of-gen_task_id (job, (round, kind)) time =
      let d = naming.dash in
      let j = naming.job_text job in
      let r = naming.round_text round in
      let t = naming.time_text time in
      let suffix = naming.client_suffix in
      let behind = j ++ (d ∷ (suffix ++ (d ∷ (r ++ (d ∷ t))))) in
      let reversed = rev r ++ (d ∷ (rev suffix ++ (d ∷ rev j))) in
      ap (λ id. key_behind (split_at d id).0 (rev (split_at d id).1))
        (naming.text-number (naming.type_text kind ++ (d ∷ behind)))
      ∙ ap (λ parts. key_behind parts.0 (rev parts.1))
          (split_at-append d (naming.type_text kind) behind (naming.type_plain kind))
      ∙ ap (key_behind (naming.type_text kind)) (rev_parts d j suffix r t)
      ∙ ap
          (λ (parts : List ℕ × List ℕ). (
            naming.job_of (rev (drop (d ∷ rev suffix) (split_at d parts.1).1)),
            (naming.round_of (rev (split_at d parts.1).0), naming.type_of (naming.type_text kind)),
          ))
          (split_at-append d (rev t) reversed (All-rev d t (naming.time_plain time)))
      ∙ ap
          (λ (parts : List ℕ × List ℕ). (
            naming.job_of (rev (drop (d ∷ rev suffix) parts.1)),
            (naming.round_of (rev parts.0), naming.type_of (naming.type_text kind)),
          ))
          (split_at-append d (rev r) (rev suffix ++ (d ∷ rev j))
            (All-rev d r (naming.round_plain round)))
      ∙ ap
          (λ (rest : List ℕ). (
            naming.job_of (rev rest),
            (naming.round_of (rev (rev r)), naming.type_of (naming.type_text kind)),
          ))
          (drop-append d (rev suffix) (rev j))
      ∙ rw
          (
            rev-rev j,
            rev-rev r,
            naming.job_of-job_text job,
            naming.round_of-round_text round,
            naming.type_of-type_text kind,
          )
          refl

-- Whatever happens to the tasks of a client, whose ids are those that `__gen_task_id` makes: every
-- task that the manager knows holds resources under its id. Whoever holds resources is a task that
-- it knows, or its id is that of a creation whose row could not be saved in the database, if not
-- lost before.
pub happen_all_named-IsHeld :
    {S Q Spec E : Type 0} (layer : ResourceLayer S Q Spec E) (naming : Naming) (lost : ℕ → Bool)
    (events : List (TaskEvent Q)) (self : TaskManager S)
    → IsHeld layer (key_of naming) lost self
    → IsHeld layer
        (key_of naming)
        (lost_after (gen_task_id naming) events lost)
        (happen_all layer (gen_task_id naming) events self)
happen_all_named-IsHeld layer naming lost events self h =
    happen_all-IsHeld layer (key_of naming) (gen_task_id naming) (key_of-gen_task_id naming) lost
      events self h
