-- ===== src/Workflow/Execution/Twice.antt =====
-- A job that waits for two entries, one of which waits for the other, can be started twice.
use go_cron.Prelude.{ℕ, ◌≡◌, false, ◌==◌, [], ◌∷◌, some}
use go_cron.Workflow.{deps_of, on_success, on_failure, on_skipped}
use go_cron.Workflow.Graph.{children_of}
use go_cron.Workflow.Execution.{Plan, is_paused, Execution}

-- `d` runs after `p` succeeds and `c` is skipped; `c` runs after `p` fails.
pub record IsTriangle (plan : Plan) (p c d : ℕ) : Type 0 where
  pub children : children_of plan.parent_to_children p ≡ c ∷ d ∷ []
  pub grandchildren : children_of plan.parent_to_children c ≡ d ∷ []
  pub on_p : deps_of plan.entry_deps c ≡ record { parent_id = p; condition = on_failure } ∷ []
  pub on_both :
      deps_of plan.entry_deps d
      ≡ record { parent_id = p; condition = on_success }
        ∷ record { parent_id = c; condition = on_skipped }
        ∷ []
  pub running : is_paused plan.paused d ≡ some false
  pub distinct : ((c == p) ≡ false) × ((c == d) ≡ false)
