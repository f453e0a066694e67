-- ===== src/Adapter/Init.antt =====
-- pkg/adapter/handler.go: `Init`, which chooses the transport, starts the runner pod, opens the
-- client and keeps the clean-up.
pub mod Handshake
pub mod Cleanup
pub mod Ownership
pub mod Requests
use mcp_adapter_engram.Base.{
  String, ◌<>◌, ◌≡◌, refl, Bool, true, false, ◌&&◌, not, Option, none, some, List, [], ◌∷◌,
  if◌then◌else◌, Map, copy_into, ℤ, pos, leb_ℤ, Result, ok, err, Error, message, error_text,
}
use mcp_adapter_engram.Base.Exec.{Exec, pure, raise, ◌>>=◌, ◌>>◌}
use mcp_adapter_engram.Text.{is_empty, trim_space, lower_eq}
use mcp_adapter_engram.Heap.{Heap}
use mcp_adapter_engram.Json.{Codec}
use mcp_adapter_engram.Config.{Config, McpInitConfig, StdioConfig}
use mcp_adapter_engram.Mcp.Client.{Client}
use mcp_adapter_engram.Mcp.Http.{http_client, HttpClient, new_http_client, Transport}
use mcp_adapter_engram.Mcp.Stdio.Methods.{new_stdio_client, stdio_client, StdioOptions}
use mcp_adapter_engram.Mcp.Stdio.{Link, Terminal}
use mcp_adapter_engram.Kube.Runner.{Cluster, ensure_runner_pod, RunnerPodSpec}
use mcp_adapter_engram.Kube.Lifecycle.{
  delete_runner_pod, Lifecycle, reap_old_owned_runner_pods, wait_for_pod_running,
}
use mcp_adapter_engram.Adapter.Secrets.{
  build_env_for_runner, default_secret_bucket, load_headers_from_secret, merge_maps,
  resolve_secret_name, System,
}
use mcp_adapter_engram.Adapter.Naming.{
  base_name, label_owner, resolve_namespace, resolve_pod_name, runner_annotations, runner_labels,
  Sdk,
}
use mcp_adapter_engram.Adapter.Process.{Engram}
use mcp_adapter_engram.Adapter.Launch.{runner_pod_name, Runners, start_runner}

-- A client of a runner pod: `NewStdioClient`, and what is outside of the client's own state.
pub record Opening (c : Client) (S : Type 0) : Type 0 where
  pub open_pod : StdioOptions → S → Result c.State × S
  pub outside : c.State → S
  pub put_back : c.State → S → c.State
  pub outside-put_back : (l : c.State) (s : S) → outside (put_back l s) ≡ s

-- By the functions of pkg/mcp/stdio_client.go.
abbrev pub stdio_opening : (t : Terminal) (json : Codec) → Opening (stdio_client t json) t.State
stdio_opening t json = record {
  open_pod = new_stdio_client t json;
  outside = λ l. l.peer;
  put_back = λ l s. record l { peer = s };
  outside-put_back = λ l s. refl;
}

-- The start-up stops before there is a client, or sets the client; an error may come after that.
pub data Start (S C : Type 0) : Type 0 where
  stopped : Error → S → Start S C
  started : Option Error → Engram C → C → Start S C

module _ (c : Client) (sleep : ℤ → c.State → c.State) where
  unfoldable pub post_init_delay : McpInitConfig → c.State → c.State
  post_init_delay mcp s =
      if leb_ℤ mcp.post_init_delay (pos 0) then s else sleep mcp.post_init_delay s

  -- The end of `initHTTP` and of `initStdio`, after the client is set; only the first call may fail.
  unfoldable pub handshake : Heap → McpInitConfig → Exec c.State (Unit {0})
  handshake h mcp s = elim (c.initialize h mcp.init_client_capabilities s).0 [
    | err e ↦ (err e, (c.initialize h mcp.init_client_capabilities s).1)
    | ok reply ↦
        let notified = (c.notify_initialized (c.initialize h mcp.init_client_capabilities s).1).1 in
        (ok tt, post_init_delay mcp (c.list_tools notified).1)
  ]

  -- The engram with its client, and with the clean-up only if nothing failed.
  unfoldable pub with_client :
      Config
      → String
      → (c.State → Option Error × c.State)
      → {S : Type 0} → Result (Unit {0}) × c.State
      → Start S c.State
  with_client cfg runner_pod cleanup (ok u, s) =
      started none
        (record {
          cfg = cfg;
          has_client = true;
          cleanup = some cleanup;
          runner_pod = runner_pod;
          streaming = false;
        })
        s
  with_client cfg runner_pod cleanup (err e, s) =
      started (some e)
        (record {
          cfg = cfg;
          has_client = true;
          cleanup = none;
          runner_pod = runner_pod;
          streaming = false;
        })
        s

module _ (t : Transport) (json : Codec) (sleep : ℤ → t.State → t.State) (sys : System)
    (cfg : Config) (h : Heap) where
  abbrev opened_http : Result HttpClient → t.State → Start t.State t.State
  opened_http (err e) s = stopped e s
  opened_http (ok client) s =
      let c = http_client t json client in
      with_client c sleep cfg "" (λ s. (none, s)) (handshake c sleep h cfg.mcp s)

  -- The session's id is drawn by `NewHTTPClient`.
  abbrev with_headers : Result (Map String) → t.State → Start t.State t.State
  with_headers (err e) s = stopped e s
  with_headers (ok secret_headers) s =
      let (session_id, s1) = t.new_id s in
      opened_http
        (new_http_client cfg.server.base_url secret_headers (copy_into [] cfg.server.headers)
          session_id)
        s1

  unfoldable pub init_http : t.State → Start t.State t.State
  init_http s =
      if is_empty (trim_space cfg.server.base_url)
      then stopped (message "server.baseURL is required for transport=streamable_http") s
      else with_headers (load_headers_from_secret sys cfg.server.headers_from_secret) s

module _ {X S : Type 0} (pods : Runners X S) (sdk : Sdk) (sys : System)
    (stdio : StdioConfig X) where
  module _ (c : Client) (opening : Opening c S) (sleep : ℤ → c.State → c.State) (cfg : Config)
      (h : Heap) where
    abbrev delete_result : c.State → Result (Unit {0}) × S → Option Error × c.State
    delete_result l (ok u, s) = (none, opening.put_back l s)
    delete_result l (err e, s) = (some e, opening.put_back l s)

    -- The closure that `initStdio` keeps.
    unfoldable pub delete_runner : String → c.State → Option Error × c.State
    delete_runner secret l =
        if lower_eq stdio.deletion_policy "keep"
        then (none, l)
        else delete_result l (
            pods.delete (resolve_namespace sdk) (runner_pod_name pods sdk sys stdio) secret
              (opening.outside l))

    abbrev opened_stdio : String → Result c.State × S → Start S c.State
    opened_stdio secret (err e, s) = stopped e s
    opened_stdio secret (ok l, s) =
        with_client c sleep cfg (runner_pod_name pods sdk sys stdio) (delete_runner secret)
          (handshake c sleep h cfg.mcp l)

    abbrev open_client : Result String × S → Start S c.State
    open_client (err e, s) = stopped e s
    open_client (ok secret, s) = opened_stdio secret (
        opening.open_pod
          (record {
            namespace = resolve_namespace sdk;
            pod_name = (runner_pod_name pods sdk sys stdio);
            container = "with-stdio";
          })
          s)

    unfoldable pub init_stdio : S → Start S c.State
    init_stdio s = open_client (start_runner pods sdk sys stdio s)

-- What `Init` does: one of the two starts, by the name of the transport, or nothing.
pub data Initialised (A B : Type 0) : Type 0 where
  by_http : A → Initialised A B
  by_stdio : B → Initialised A B
  refused : Error → Initialised A B

module _ (t : Transport) (json : Codec) (http_sleep : ℤ → t.State → t.State) {X S : Type 0}
    (pods : Runners X S) (sdk : Sdk) (sys : System) (stdio : StdioConfig X) (c : Client)
    (opening : Opening c S) (sleep : ℤ → c.State → c.State) (cfg : Config) (h : Heap) where
  -- From the state of net/http, and that of the cluster.
  unfoldable pub init : t.State → S → Initialised (Start t.State t.State) (Start S c.State)
  init s_http s_pods =
      if lower_eq cfg.transport "streamable_http"
      then by_http (init_http t json http_sleep sys cfg h s_http)
      else if lower_eq cfg.transport "stdio"
      then by_stdio (init_stdio pods sdk sys stdio c opening sleep cfg h s_pods)
      else refused (message ("unsupported transport: " <> cfg.transport))
