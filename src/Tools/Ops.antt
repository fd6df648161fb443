-- ===== src/Tools/Ops.antt =====
-- mcptools/ops.go, mcptools/direct_ops.go and mcptools/types.go: the operations of an agent, and their
-- implementation by requests to a server. The types of mcptools that have the fields of a message are
-- that message's record here.
use remote_hands.Shared.{Bool, List, [], map, Option, none, some, Text, ℤ, Map, Result, ok, Error}
use remote_hands.Action.{Action}
use remote_hands.Rod.{Box, Float}
use remote_hands.File.Listing.{FileEntry}
use remote_hands.Grep.{GrepMatch}
use remote_hands.Bash.Collect.{BashResult, no_output, collect_stream}
use remote_hands.Git.Status.{GitFileStatus}
use remote_hands.Browser.{PageResult, named}
use remote_hands.Browser.Snapshot.{AxTree, NodeEntry}
use remote_hands.Browser.Acting.{ActionResult}
use remote_hands.Browser.Requests.{one_page, all_pages, image, snapped, acted}
use remote_hands.Browser.Client.{AgentAction}
use remote_hands.Http.{HttpResult}
use remote_hands.Grpc.{GrpcResult}
use remote_hands.Service.{
  Environment, Response, content, file_list, paths, found, bash_stream, statuses, diff_text,
  commit_sha, browsed, http_response, grpc_response,
}

-- ScreenshotResult
pub record ScreenshotResult : Type 0 where
  pub image : Text
  pub image_base64 : Text
  pub content_type : Text

-- The AccessibilityNode of mcptools; its children are named by their IDs.
pub record AgentNode : Type 0 where
  pub ref : Text
  pub role : Text
  pub name : Text
  pub description : Text
  pub value : Text
  pub children : List Text
  pub bounds : Option Box

-- convertAccessibilityNodeFromWorker, on one node of the tree.
unfoldable pub convert_accessibility_node : NodeEntry → AgentNode
convert_accessibility_node n = record {
  ref = n.ref;
  role = n.ax_node.role;
  name = n.ax_node.name;
  description = n.ax_node.description;
  value = n.ax_node.value;
  children = n.children;
  bounds = n.bounds;
}

pub record AgentTree : Type 0 where
  pub nodes : Map Text AgentNode
  pub root : Option Text

-- Its recursion over the tree, and a tree that is nil.
unfoldable pub convert_tree : Option AxTree → Option AgentTree
unfolding convert_accessibility_node
convert_tree none = none
convert_tree (some t) =
    some (record {
      nodes = map (λ (id, n). (id, convert_accessibility_node n)) t.nodes;
      root = t.root;
    })

-- The SnapshotResult of mcptools: what is missing is empty.
pub record AgentSnapshot : Type 0 where
  pub dom_html : Text
  pub accessibility_tree : Option AgentTree
  pub snapshot_id : Text

-- The BrowserActionResult of mcptools.
pub record AgentActionResult : Type 0 where
  pub success : Bool
  pub error : Option Error
  pub value : Text

-- What the conversions use: `strings.ToLower`, the test of a distance for 0, the base64
-- encoding, and Go's conversion of a `float64`, which Go leaves open where it does not fit.
pub record Conversions (env : Environment) : Type 0 where
  pub to_lower : Text → Text
  pub no_offset : env.rod.Offset → Bool
  pub base64 : Text → Text
  pub to_int32 : Float → ℤ

module _ (env : Environment) (conv : Conversions env) where
  abbrev pub ActionOfAgent : Type 0
  ActionOfAgent = AgentAction conv.to_lower env.rod conv.no_offset

  -- Ops, over a state `S` that the operations change.
  pub record Ops (S : Type 0) : Type 0 where
    pub run_bash : Text → ℤ → Map Text Text → Text → Action S BashResult
    pub read_file : Text → ℤ → ℤ → Action S Text
    pub write_file : Text → Text → ℤ → Action S (Unit {0})
    pub delete_file : Text → Bool → Action S (Unit {0})
    pub list_files : Text → Bool → Action S (List FileEntry)
    pub glob : Text → Text → Action S (List Text)
    pub grep : Text → Text → Text → Bool → ℤ → Action S (List GrepMatch)
    pub git_status : Text → Action S (List GitFileStatus)
    pub git_diff : Text → Text → Bool → Action S Text
    pub git_commit : Text → Text → List Text → Text → Text → Action S Text
    pub git_clone : Text → Text → Text → ℤ → Action S Text
    pub git_push : Text → Text → Text → Bool → Action S (Unit {0})
    pub browser_start : Action S (Unit {0})
    pub browser_stop : Action S (Unit {0})
    pub browser_navigate : Text → Option Text → Action S PageResult
    pub browser_list_pages : Action S (List PageResult)
    pub browser_close_page : Text → Action S (Unit {0})
    pub browser_screenshot :
        Option Text → Text → Bool → Option Text → Option ℤ → Action S ScreenshotResult
    pub browser_snapshot : Option Text → List Text → Bool → Action S AgentSnapshot
    pub browser_act : Option Text → List ActionOfAgent → Action S (List AgentActionResult)
    pub http_request :
        Text → Text → List (Text × Text) → Text → Bool → Option ℤ → Bool → Action S HttpResult
    pub http_clear_cookies : Action S (Unit {0})
    pub grpc_request :
        Text → Text → Option Text → List (Text × Text) → Option Text → Bool → Action S GrpcResult

  -- `resp.Msg` of each call. A response of another kind does not come; it reads as an empty message.
  abbrev pub content_of : Response → Text
  content_of (content text) = text
  content_of _ = []

  abbrev pub files_of : Response → List FileEntry
  files_of (file_list entries) = entries
  files_of _ = []

  abbrev pub paths_of : Response → List Text
  paths_of (paths names) = names
  paths_of _ = []

  abbrev pub matches_of : Response → List GrepMatch
  matches_of (found matches) = matches
  matches_of _ = []

  abbrev pub statuses_of : Response → List GitFileStatus
  statuses_of (statuses entries) = entries
  statuses_of _ = []

  abbrev pub diff_of : Response → Text
  diff_of (diff_text text) = text
  diff_of _ = []

  abbrev pub sha_of : Response → Text
  sha_of (commit_sha sha) = sha
  sha_of _ = []

  abbrev pub no_page : PageResult
  no_page = record { page_id = []; url = []; title = [] }

  abbrev pub page_of : Response → PageResult
  page_of (browsed (one_page page)) = page
  page_of _ = no_page

  abbrev pub pages_of : Response → List PageResult
  pages_of (browsed (all_pages pages)) = pages
  pages_of _ = []

  abbrev pub screenshot_of : Response → ScreenshotResult
  screenshot_of (browsed (image bytes content_type)) = record {
    image = bytes;
    image_base64 = conv.base64 bytes;
    content_type = content_type;
  }
  screenshot_of _ = record { image = []; image_base64 = conv.base64 []; content_type = [] }

  -- What is nil in a snapshot becomes empty.
  abbrev pub snapshot_of : Response → AgentSnapshot
  snapshot_of (browsed (snapped r)) = record {
    dom_html = named r.dom_html;
    accessibility_tree = convert_tree r.accessibility_tree;
    snapshot_id = named r.snapshot_id;
  }
  snapshot_of _ = record { dom_html = []; accessibility_tree = none; snapshot_id = [] }

  abbrev pub agent_result : ActionResult → AgentActionResult
  agent_result r = record { success = r.success; error = r.error; value = named r.value }

  abbrev pub results_of : Response → List AgentActionResult
  results_of (browsed (acted results)) = map agent_result results
  results_of _ = []

  abbrev pub http_of : Response → HttpResult
  http_of (http_response r) = r
  http_of _ = record { status_code = 0; headers = []; body = []; duration_ms = 0 }

  abbrev pub grpc_of : Response → GrpcResult
  grpc_of (grpc_response r) = r
  grpc_of _ = record { response_body = []; status_code = 0; status_message = [] }

  abbrev pub bash_of : Response → Result Error BashResult
  bash_of (bash_stream events ending) = collect_stream events ending
  bash_of _ = ok no_output
