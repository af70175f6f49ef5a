-- ===== src/ResourceManager/Manager/Occupied.antt =====
-- What occupying a granted spec adds to each node (resource_manager/rm.py).
use yanshi_shield.Base.{
  ℕ, suc, ◌*◌, ◌≡◌, refl, some, List, [], ◌∷◌, arith, nat_eq, nat_beq, if◌then◌else◌, Option-cases,
  Bool-cases, inl, inr, ◌∙◌, subst, All, nat_beq_iff,
}
use yanshi_shield.Base.Int.{pos, ◌+ℤ◌, int_laws}
use yanshi_shield.Base.Dict.{Dict, lookup, lookup-insert}
use yanshi_shield.ResourceManager.Node.{Node, Resource, occupy_resource, ResourceRequest, amount}
use yanshi_shield.ResourceManager.Allocation.{ResourceSpec}
use yanshi_shield.ResourceManager.Allocation.Capacity.{places, places-nil, places-cons}
use yanshi_shield.ResourceManager.Manager.{on_node, occupy_all}

-- A resource of which `c` times an amount more is allocated.
pub record Grown (before after : Resource) (more : ℕ) : Type 0 where
  pub volume : after.volume ≡ before.volume
  pub allocated : after.allocated ≡ before.allocated +ℤ pos more

-- A node that has been given `c` more workers of one kind.
pub record Loaded (before after : Node) (r : ResourceRequest) (c : ℕ) : Type 0 where
  pub cpu : Grown before.cpu after.cpu (c * amount r.cpu)
  pub gpu : Grown before.gpu after.gpu (c * amount r.gpu)
  pub memory : Grown before.memory after.memory (c * amount r.memory)

Grown-none : (a : Resource) (x : ℕ) → Grown a a (0 * x)
Grown-none a x = record { volume = refl; allocated = omega int_laws }

Grown-more :
    (a b : Resource) (c x : ℕ)
    → Grown (record { volume = a.volume; allocated = a.allocated +ℤ pos x }) b (c * x)
    → Grown a b (suc c * x)
Grown-more a b c x g = record { volume = g.volume; allocated = g.allocated ∙ omega int_laws }

Loaded-more :
    (task_id : ℕ) (r : ResourceRequest) (n n' : Node) (c : ℕ)
    → Loaded (occupy_resource task_id r n) n' r c
    → Loaded n n' r (suc c)
unfolding occupy_resource
Loaded-more task_id r n n' c l = record {
  cpu = Grown-more n.cpu n'.cpu c (amount r.cpu) l.cpu;
  gpu = Grown-more n.gpu n'.gpu c (amount r.gpu) l.gpu;
  memory = Grown-more n.memory n'.memory c (amount r.memory) l.memory;
}

lookup-on_node :
    (i j : ℕ) (f : Node → Node) (nodes : Dict ℕ Node) (n : Node)
    → lookup i nodes ≡ some n
    → lookup i (on_node j f nodes) ≡ some (if nat_beq j i then f n else n)
unfolding on_node
lookup-on_node i j f nodes n h = elim (Option-cases (lookup j nodes)) [
  | inl e ↦ rw (e, on_node) (ground (arith, nat_beq_iff j i))
  | inr (m, e) ↦ rw (e, on_node) (ground (arith, nat_beq_iff j i, lookup-insert i j (f m) nodes))
]

-- After the workers of a spec, all of one kind, are occupied, each node of the dict holds the amounts
-- of those placed on it, and has the volumes that it had.
pub occupy_all-Loaded :
    (task_id : ℕ) (r : ResourceRequest) (spec : List ResourceSpec) (nodes : Dict ℕ Node) (i : ℕ)
    (n : Node)
    → All (λ s. s.resource ≡ r) spec
    → lookup i nodes ≡ some n
    → (n' : Node) × (lookup i (occupy_all task_id spec nodes) ≡ some n')
      × Loaded n n' r (places i spec)
unfolding occupy_all
occupy_all-Loaded task_id r [] nodes i n same found = (
  n,
  found,
  rw places-nil (record {
    cpu = Grown-none n.cpu _;
    gpu = Grown-none n.gpu _;
    memory = Grown-none n.memory _;
  }),
)
occupy_all-Loaded task_id r (s ∷ spec) nodes i n (same, rest) found =
    let next = lookup-on_node i s.node_id (occupy_resource task_id s.resource) nodes n found in
    elim (Bool-cases (nat_beq s.node_id i)) [
      | inl here ↦
          let (n', e, l) =
            occupy_all-Loaded task_id r spec _ i (occupy_resource task_id s.resource n) rest
              (next ∙ rw here) in
          (
            n',
            e,
            rw (places-cons, here)
                (Loaded-more task_id r n n' _
                  (subst (λ x. Loaded (occupy_resource task_id x n) n' r (places i spec)) same l)),
          )
      | inr elsewhere ↦
          let (n', e, l) = occupy_all-Loaded task_id r spec _ i n rest (next ∙ rw elsewhere) in
          (n', e, rw (places-cons, elsewhere) l)
    ]
