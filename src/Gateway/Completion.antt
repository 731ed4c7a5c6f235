-- ===== src/Gateway/Completion.antt =====
-- A call that needs an approval, is approved and is made again reaches the tool.
use rbitr.Prelude.{String, Unicode}
use rbitr.Approval.Execute.{Params}
use rbitr.Classification.{Url}
use rbitr.Classification.Classify.{classify}
use rbitr.Policy as Policy
use rbitr.Gateway.Env.{ToolCallRequest, GateEnv, Outside}
use rbitr.Gateway.Handle.{params_of}
use rbitr.Gateway.Opened.{Opened}

-- The gates before a replay, one after the other.
module _ ⦃u : Unicode⦄ ⦃l : Url⦄ (o : Outside) (e : GateEnv) (tenant_id agent_id : String) where
  -- the replay that a decoded call becomes
  abbrev replay_of : ToolCallRequest → Params
  replay_of p = params_of o e tenant_id agent_id p (classify e.tool_id p.http_method p.path p.query)
