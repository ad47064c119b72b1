-- ===== src/Investigation/Registry.antt =====
-- deepticket/investigation/registry/mcp_tools.py: the cached tool names of a project's MCP servers. The
-- refresh, which talks to a server by the MCP client library, is outside of this model.
use deepticket.Prelude.{String, Option, none, some, List, [], ◌∷◌, if◌then◌else◌}
use deepticket.Prelude.Text.{◌<>◌, strip, nonempty}
use deepticket.Json.{Value, str, list, dict, Items, nil, cons, Fields, end, field, get, or_default}
use deepticket.Env.{Env}
use deepticket.Exec.{Result, ok, err, type_error}
use deepticket.Storage.Local.{Storage, get_json}
use deepticket.Investigation.Approvals.{text_or_blank}

abbrev pub ns_mcp_tools : String
ns_mcp_tools = "mcp_tools"

pub record ToolDescriptor : Type 0 where
  pub server_id : String
  pub name : String
  pub description : String

module _ ⦃env : Env⦄ where
  abbrev described : String → Fields → List ToolDescriptor → List ToolDescriptor
  described server_id item rest =
      let name = strip (text_or_blank item "name") in
      if nonempty name
      then record {
        server_id = server_id;
        name = name;
        description = text_or_blank item "description";
      }
        ∷ rest
      else rest

  -- The loop: what is no dictionary, or has no name, is skipped.
  pub descriptors : String → Items → List ToolDescriptor
  descriptors server_id nil = []
  descriptors server_id (cons (dict item) items) =
      described server_id item (descriptors server_id items)
  descriptors server_id (cons _ items) = descriptors server_id items

  -- Iterating over a text or a dictionary gives texts, which the loop skips; a number is no iterable.
  abbrev pub tools_of : String → Value → Result (List ToolDescriptor)
  tools_of server_id (list items) = ok (descriptors server_id items)
  tools_of server_id (str s) = ok []
  tools_of server_id (dict d) = ok []
  tools_of server_id v = err (type_error "not iterable")

  abbrev pub tools_in : String → Option Fields → Result (List ToolDescriptor)
  tools_in server_id none = ok []
  tools_in server_id (some end) = ok []
  tools_in server_id (some (field k v d)) =
      tools_of server_id (or_default (get (field k v d) "tools") (list nil))

  unfoldable pub get_tools : Storage → String → String → Result (List ToolDescriptor)
  unfolding descriptors
  get_tools s project_id server_id =
      tools_in server_id (get_json s ns_mcp_tools (project_id <> ":" <> server_id))
