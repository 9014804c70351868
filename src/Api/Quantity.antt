-- ===== src/Api/Quantity.antt =====
-- `resource.Quantity` of k8s.io/apimachinery: a parameter of the model, by the operations that
-- the operator calls.
use greenplum_for_kubernetes.Prelude.{Bool}
use greenplum_for_kubernetes.Prelude.Int.{ℤ}
use greenplum_for_kubernetes.Prelude.Text.{String}

pub record Quantities (Q : Type 0) : Type 0 where
  pub zero : Q  -- the value of a missing map entry
  pub sign : Q → ℤ  -- Sign()
  pub cmp : Q → Q → ℤ  -- Cmp()
  pub to_string : Q → String  -- String()
  pub same : Q → Q → Bool  -- Go's == on the struct
