-- ===== src/Mock/State.antt =====
-- The module variables `_faults`, `_teams`, `_agents` and `_tasks` of scripts/mock-agamemnon.py,
-- which the requests share, and the reply that `_send` writes.
use project_charybdis.Base.{ℕ, Dict, []}
use project_charybdis.Json.{Fields}

pub record Server : Type 0 where
  pub faults : Dict Fields
  pub teams : Dict Fields
  pub agents : Dict Fields
  pub tasks : Dict Fields

-- What the module starts with.
abbrev pub fresh_server : Server
fresh_server = record { faults = []; teams = []; agents = []; tasks = [] }

-- The status and the object that `_send` writes, and the milliseconds that it sleeps before.
pub record Reply : Type 0 where
  pub status : ℕ
  pub body : Fields
  pub delay : ℕ
