-- ===== src/Lease/Tests.antt =====
-- internal/lease/lease.go: runs of the theorems.
use runfabric.Prelude.{ℕ, suc, ◌+◌, Option, none, some, [], ◌∷◌}
use runfabric.Errors.{Error, io}
use runfabric.Lease.{Managed, tick, manage, wait, run_release, drain}

-- The store counts the renewals; the third one fails.
abbrev third_fails : ℕ → ℕ → Option Error × ℕ
third_fails lease_for (suc (suc n)) = (some io, 3 + n)
third_fails lease_for n = (none, suc n)

abbrev add_ten : ℕ → Option Error × ℕ
add_ten n = (none, 10 + n)

abbrev worked : Managed ℕ
worked = wait (tick ∷ tick ∷ []) (manage (some third_fails) 30 (some add_ten) 0)

abbrev ended : Managed ℕ
ended = run_release (some add_ten) (drain (tick ∷ []) worked) worked
