-- ===== src/Investigation/RunLifecycle.antt =====
-- deepticket/investigation/run_lifecycle.py: how each entry point starts a run. The agent's input takes
-- the run's identifier and project; its other fields stay.
use deepticket.Prelude.{String, Option, none, some}
use deepticket.Env.{Env}
use deepticket.Exec.{pure, ◌>>=◌, ◌>>◌}
use deepticket.World.{Action}
use deepticket.Auth.Users.{AuthUser, ensure_bootstrap_user}
use deepticket.Investigation.Status.{RunSource, running}
use deepticket.Investigation.Models.{InvestigationRun}
use deepticket.Investigation.Events.{RunEventStore}
use deepticket.Investigation.Store.{create_run, record_run_created_event, transition}

-- `AgentInput` of layers/input/models.py: what the modelled code reads and assigns of it
pub record AgentInput : Type 0 where
  pub conversation_id : Option String
  pub source : String
  pub ticket_id : Option String
  pub run_id : Option String
  pub project_id : Option String

module _ ⦃env : Env⦄ where
  -- The run as it was created, beside the input
  unfoldable pub begin_investigation_run :
      RunEventStore
      → String
      → String
      → RunSource
      → AgentInput
      → Option String
      → Option String
      → Option String
      → Action (InvestigationRun × AgentInput)
  begin_investigation_run events project_id uid source agent_input chat_id ingress_job_id
        ticket_id =
      do
        run ← create_run project_id uid source chat_id ingress_job_id ticket_id
        record_run_created_event project_id run.run_id events
        transition project_id run.run_id running none none (some events)
        pure (run, record agent_input { run_id = some run.run_id; project_id = some project_id })

  abbrev pub uid_or_system : Option AuthUser → String
  uid_or_system none = "system"
  uid_or_system (some user) = user.uid

  -- The user and the password are those of the configuration.
  unfoldable pub resolve_system_uid : String → String → Action String
  resolve_system_uid bootstrap_username bootstrap_password = do
    user ← ensure_bootstrap_user bootstrap_username bootstrap_password
    pure (uid_or_system user)
