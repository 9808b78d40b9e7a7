-- ===== src/Tests/ProjectRuns.antt =====
-- Two users, of whom the second has no project.
use batch_inference_console.Prelude.{◌≡◌, true, none, [], ◌∷◌, codes, arith}
use batch_inference_console.Table.Rows.{list_table}
use batch_inference_console.Projects.Store.{Project, ensure_default_project}
use batch_inference_console.Projects.Default.{HasDefault, ensure_default_project-HasDefault}
use batch_inference_console.Projects.Race.{ensure_default_project-race}

abbrev first_project : Project
first_project = record { user_id = 0; name = codes "eval"; description = none; is_default = true }

ensure_default_project-HasDefault_example :
    HasDefault list_table
      (first_project ∷ [])
      (ensure_default_project list_table (first_project ∷ []) (first_project ∷ []) 1).0
      1
      (ensure_default_project list_table (first_project ∷ []) (first_project ∷ []) 1).1
ensure_default_project-HasDefault_example =
    ensure_default_project-HasDefault list_table (first_project ∷ []) 1 (omega arith) (omega arith)

ensure_default_project-race_example :
    (ensure_default_project list_table
      (first_project ∷ [])
      (ensure_default_project list_table (first_project ∷ []) (first_project ∷ []) 1).0
      1).1
    ≡ (ensure_default_project list_table (first_project ∷ []) (first_project ∷ []) 1).1
ensure_default_project-race_example = ensure_default_project-race list_table (first_project ∷ []) 1
