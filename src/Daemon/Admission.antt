-- ===== src/Daemon/Admission.antt =====
-- crates/nitsd/src/admission.rs: the gate that counts work and closes for an upgrade. The mutex makes
-- each method one step. A permit is one unit of `active`; the notifications to waiting tasks carry
-- no data, and `lifecycle` is the value that the watch channel shows. `Op` is `UpgradeOperation`.
pub mod Runs
use nits.Prelude.{
  ℕ, suc, ◌+◌, ◌-◌, ◌%◌, ◌^◌, ◌==◌, Bool, true, false, Option, none, some, Result, ok, err,
}

abbrev pub usize_mod : ℕ
usize_mod = 2 ^ 64

pub record Admission (Op : Type 0) : Type 0 where
  pub operation : Option Op
  pub active : ℕ
  pub lifecycle : Option Op

-- The operation that closed the gate; the source keeps its id.
pub data Restarting (Op : Type 0) : Type 0 where
  restarting : Op → Restarting Op

module _ {Op : Type 0} where
  unfoldable pub new : Admission Op
  new = record { operation = none; active = 0; lifecycle = none }

  -- `accept`: the permit is the step itself.
  unfoldable pub accept : Admission Op → Result {0, 0} Unit (Restarting Op) × Admission Op
  accept a = elim a.operation [
    | some op ↦ (err (restarting op), a)
    | none ↦ (ok tt, record a { active = (a.active + 1) % usize_mod })
  ]

  -- `Permit::drop`
  unfoldable pub release : Admission Op → Admission Op
  release a = record a { active = (a.active + usize_mod - 1) % usize_mod }

  unfoldable pub close : Op → Admission Op → (Op × Bool) × Admission Op
  close op a = elim a.operation [
    | some current ↦ ((current, false), a)
    | none ↦ ((op, true), record a { operation = some op; lifecycle = some op })
  ]

  unfoldable pub subscribe : Admission Op → Option Op
  subscribe a = a.lifecycle

  -- The test that ends the loop of `drained`.
  unfoldable pub is_drained : Admission Op → Bool
  is_drained a = a.active == 0
