-- ===== src/Plan/Build/Order.antt =====
-- The comparison by which light-rocr/loader/load_plan_reader.cpp sorts relocations.
use light_rocm_runtime.Prelude.{◌≡◌, true, false, List, arith}
use light_rocm_runtime.Prelude.Sorting.{sort, AllPairs, sort-InOrder}
use light_rocm_runtime.Plan.{Relocation}
use light_rocm_runtime.Plan.Build.{relocation_before}

relocation_before-asymmetric :
    (a b : Relocation) → relocation_before a b ≡ true → relocation_before b a ≡ false
unfolding relocation_before
relocation_before-asymmetric a b e = ground arith

relocation_before-transitive :
    (a b c : Relocation)
    → relocation_before b a ≡ false
    → relocation_before c b ≡ false
    → relocation_before c a ≡ false
unfolding relocation_before
relocation_before-transitive a b c e f = ground arith

-- No relocation comes before an earlier one.
abbrev pub AreSorted : List Relocation → Type 0
AreSorted = AllPairs (λ a b. relocation_before b a ≡ false)

pub sort-AreSorted : (rs : List Relocation) → AreSorted (sort relocation_before rs)
sort-AreSorted =
    sort-InOrder relocation_before relocation_before-asymmetric relocation_before-transitive
