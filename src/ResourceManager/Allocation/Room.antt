-- ===== src/ResourceManager/Allocation/Room.antt =====
-- The limit that `__calc_allocatable_worker_num` sets is room for that many workers
-- (resource_manager/rm.py).
use native.Mathlib.Nat.{le-div_iff_mul-le}
use yanshi_shield.Base.{ℕ, ◌*◌, ◌<◌, ◌≡◌, arith, nat_eq}
use yanshi_shield.Base.Int.{ℤ, pos, negsuc, ◌≤ℤ◌, int_laws}
use yanshi_shield.ResourceManager.Node.{Node, ResourceRequest, amount}
use yanshi_shield.ResourceManager.Allocation.{
  Limit, finite, unlimited, int_div, free, min_limit, calc_limit_worker_num,
  calc_allocatable_worker_num,
}

int_div_room : (f : ℤ) (r c : ℕ) → 0 < c → 0 < r → pos c ≤ℤ int_div f r → pos (c * r) ≤ℤ f
int_div_room (pos n) r c hc hr h =
    omega (arith, (le-div_iff_mul-le {x = c} {y = n} hr).0 (omega arith))
int_div_room (negsuc n) r c hc hr h = absurd (omega int_laws)

-- A limit leaves room for a number of workers.
abbrev pub Admits : Limit → ℕ → Type 0
Admits unlimited c = Unit
Admits (finite z) c = pos c ≤ℤ z

Admits-min_limit : (a b : Limit) (c : ℕ) → Admits (min_limit a b) c → Admits a c × Admits b c
Admits-min_limit unlimited b c h = (tt, h)
Admits-min_limit (finite x) unlimited c h = (h, tt)
Admits-min_limit (finite x) (finite y) c h = ground arith

calc_limit_worker_num_pos :
    (f : ℤ) (r : ℕ) → 0 < r → calc_limit_worker_num f r ≡ finite (int_div f r)
unfolding calc_limit_worker_num
calc_limit_worker_num_pos f r h = ground arith

Admits-calc_limit_worker_num :
    (f : ℤ) (r c : ℕ) → 0 < c → 0 < r → Admits (calc_limit_worker_num f r) c → pos (c * r) ≤ℤ f
Admits-calc_limit_worker_num f r c hc hr h =
    int_div_room f r c hc hr (rw (calc_limit_worker_num_pos f r hr) at h)

-- A node has room for `c` workers: all of them together ask for no more than is free.
pub record HasRoom (node : Node) (r : ResourceRequest) (c : ℕ) : Type 0 where
  pub cpu : 0 < amount r.cpu → pos (c * amount r.cpu) ≤ℤ free node.cpu
  pub gpu : 0 < amount r.gpu → pos (c * amount r.gpu) ≤ℤ free node.gpu
  pub memory : 0 < amount r.memory → pos (c * amount r.memory) ≤ℤ free node.memory

pub Admits-HasRoom :
    (node : Node) (r : ResourceRequest) (c : ℕ)
    → 0 < c
    → Admits (calc_allocatable_worker_num node r) c
    → HasRoom node r c
unfolding calc_allocatable_worker_num
Admits-HasRoom node r c hc h =
    let (cpu, rest) = Admits-min_limit _ _ c h in
    let (gpu, memory) = Admits-min_limit _ _ c rest in
    record {
      cpu = λ hr. Admits-calc_limit_worker_num _ _ c hc hr cpu;
      gpu = λ hr. Admits-calc_limit_worker_num _ _ c hc hr gpu;
      memory = λ hr. Admits-calc_limit_worker_num _ _ c hc hr memory;
    }
