-- ===== src/Config.antt =====
-- pkg/config/config.go: the parts of the configuration that the modelled operations read.
use mcp_adapter_engram.Base.{String, Bool, Option, List, Map, ℤ}
use mcp_adapter_engram.Kube.Resources.{WorkloadResources, WorkloadSecurity}
use mcp_adapter_engram.Heap.{Value}

pub record ServerConfig : Type 0 where
  pub base_url : String
  pub headers : Map String
  pub headers_from_secret : Map String

-- With tolerations of a type X.
pub record StdioConfig (X : Type 0) : Type 0 where
  pub image : String
  pub image_pull_policy : String
  pub command : List String
  pub args : List String
  pub resources : Option WorkloadResources
  pub security : Option WorkloadSecurity
  pub node_selector : Map String
  pub tolerations : List X
  pub pod_labels : Map String
  pub pod_annotations : Map String
  pub deletion_policy : String
  pub termination_grace_period_seconds : Option ℤ
  pub use_ephemeral_secret : Bool

-- Durations are in nanoseconds.
pub record McpInitConfig : Type 0 where
  pub init_client_capabilities : Option (Map Value)
  pub post_init_delay : ℤ
  pub call_tool_retries : ℤ
  pub call_tool_retry_delay : ℤ

-- `Stdio`, which only the start-up reads, is given to that beside it.
pub record Config : Type 0 where
  pub transport : String
  pub server : ServerConfig
  pub mcp : McpInitConfig
