-- ===== src/Hl/SmartPtr/Tests.antt =====
-- Assignments of pointer variables.
use virtual_gw.Common.{ℕ, zero, suc, ◌≤◌, ◌≡◌, refl, none, some, [], ◌∷◌, arith}
use virtual_gw.Common.Int.{pos}
use virtual_gw.Hl.SmartPtr.{assign, assign_self, Store}
use virtual_gw.Hl.SmartPtr.Counts.{IsBalanced}
use virtual_gw.Hl.SmartPtr.Balance.{by_assign, perform, perform-IsBalanced}

-- Two variables point to the first object, one to the second.
abbrev shared : Store
shared = record {
  counts = some (pos 2) ∷ some (pos 1) ∷ [];
  pointers = some 0 ∷ some 1 ∷ some 0 ∷ [];
}

assign_self_example :
    (◌≡◌ {A = ℕ} 1 1 → assign 1 1 shared ≡ none) × ((2 ≤ 1) → assign 1 1 shared ≡ some shared)
assign_self_example = assign_self shared 1 1 1 refl refl (omega arith)

shared-IsBalanced : IsBalanced shared
shared-IsBalanced zero = (refl, omega arith)
shared-IsBalanced (suc zero) = (refl, omega arith)
shared-IsBalanced (suc (suc a)) = ground arith

perform-IsBalanced_example : (s : Store) × (perform (by_assign 1 0) shared ≡ some s) × IsBalanced s
perform-IsBalanced_example =
    perform-IsBalanced (by_assign 1 0) shared shared-IsBalanced
      (omega arith, omega arith, refl, omega arith)
