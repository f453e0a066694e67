-- ===== src/Kube/Resources.antt =====
-- pkg/kube/runner_pod.go: the resources and the security context of the runner's container.
use mcp_adapter_engram.Base.{String, Bool, Option, none, some, [], Map, insert, ℤ}

-- `v1alpha1.WorkloadResources` and its parts; quantities are texts.
pub record Amounts : Type 0 where
  pub cpu : Option String
  pub memory : Option String
  pub ephemeral_storage : Option String

pub record WorkloadResources : Type 0 where
  pub requests : Option Amounts
  pub limits : Option Amounts

-- `corev1.ResourceRequirements`, with `none` for a nil map and parsed quantities of a type Q.
pub record ResourceRequirements (Q : Type 0) : Type 0 where
  pub requests : Option (Map Q)
  pub limits : Option (Map Q)

-- `v1alpha1.WorkloadSecurity`
pub record WorkloadSecurity : Type 0 where
  pub run_as_non_root : Option Bool
  pub read_only_root_filesystem : Option Bool
  pub allow_privilege_escalation : Option Bool
  pub run_as_user : Option ℤ

-- `corev1.SecurityContext`, the fields that are set
pub record SecurityContext : Type 0 where
  pub run_as_non_root : Option Bool
  pub read_only_root_filesystem : Option Bool
  pub allow_privilege_escalation : Option Bool
  pub run_as_user : Option ℤ

-- The second map is nil where the first is.
abbrev pub ensure_res_list {ℓ} : {Q : Type ℓ} → Option (Map Q) → Map Q
ensure_res_list none = []
ensure_res_list (some rl) = rl

module _ {Q : Type 0} (parse_quantity : String → Option Q) where
  abbrev add_parsed : String → Option Q → Map Q → Map Q
  add_parsed name none rl = rl
  add_parsed name (some q) rl = insert name q rl

  -- A quantity that does not parse is left out.
  unfoldable pub add_qty : String → Option String → Map Q → Map Q
  add_qty name none rl = rl
  add_qty name (some text) rl = add_parsed name (parse_quantity text) rl

  abbrev amounts_of : Option Amounts → Option (Map Q)
  amounts_of none = none
  amounts_of (some r) = some (
      add_qty "ephemeral-storage" r.ephemeral_storage
        (add_qty "memory" r.memory (add_qty "cpu" r.cpu (ensure_res_list none))))

  unfoldable pub build_resource_requirements : Option WorkloadResources → ResourceRequirements Q
  build_resource_requirements none = record { requests = none; limits = none }
  build_resource_requirements (some wr) = record {
    requests = amounts_of wr.requests;
    limits = amounts_of wr.limits;
  }

abbrev pub copy_of : WorkloadSecurity → SecurityContext
copy_of ws = record {
  run_as_non_root = ws.run_as_non_root;
  read_only_root_filesystem = ws.read_only_root_filesystem;
  allow_privilege_escalation = ws.allow_privilege_escalation;
  run_as_user = ws.run_as_user;
}

unfoldable pub build_security_context : Option WorkloadSecurity → Option SecurityContext
build_security_context none = none
build_security_context (some ws) = some (copy_of ws)
