-- ===== src/Dag.antt =====
-- src/core/dag.rs: the graph as it is authored. `timeout` is in milliseconds, and the JSON object of
-- an MCP call's arguments, which the scheduler only carries, is its text.
pub mod References
pub mod Validate
pub mod Cycles
pub mod Expand
mod Samples
use pidag.Base.{
  ℕ, ◌≡◌, Bool, true, false, ◌||◌, ◌&&◌, Option, none, some, List, [], ◌∷◌, ◌++◌, map,
  if◌then◌else◌,
}
use pidag.Text.{Text, same}

pub record ModelRef : Type 0 where
  pub name : Text
  pub paid : Bool

-- The arms of `Verify::All` are the lists `Arms`.
mutual
  pub data Verify : Type 0 where
    shell : Text → Verify
    critic : (prompt : Text) (models : List ModelRef) → Verify
    all : Arms → Verify

  pub data Arms : Type 0 where
    nil : Arms
    cons : Verify → Arms → Arms

pub record RetryPolicy : Type 0 where
  pub attempts : ℕ
  pub backoff_ms : ℕ

pub record QuorumConfig : Type 0 where
  pub of : List Text
  pub min_pass : ℕ

pub record McpCallConfig : Type 0 where
  pub server : Text
  pub transport : Text
  pub tool : Text
  pub arguments : Text

pub record Node : Type 0 where
  pub id : Text
  pub prompt : Text
  pub depends_on : List Text
  pub models : List ModelRef
  pub retry : RetryPolicy
  pub validate : Option Text
  pub node_type : Option Text
  pub gate : Option Text
  pub timeout : Option ℕ
  pub mcp_call : Option McpCallConfig
  pub after : List Text
  pub verify : Option Verify
  pub verify_pre : Option Text
  pub for_each : Option (List Text)
  pub quorum : Option QuorumConfig

pub record Dag : Type 0 where
  pub nodes : List Node
  pub metadata : Option (List (Text × Text))

-- `self.nodes.iter().find(|n| n.id == id)`.
unfoldable pub find_node : List Node → Text → Option Node
find_node [] id = none
find_node (n ∷ ns) id = let rest = find_node ns id in if same n.id id then some n else rest

unfoldable pub get_node : Dag → Text → Option Node
unfolding find_node
get_node dag id = find_node dag.nodes id

-- `self.nodes.iter().map(|n| &n.id).collect()`.
abbrev pub node_ids : List Node → List Text
node_ids ns = map (λ n. n.id) ns
