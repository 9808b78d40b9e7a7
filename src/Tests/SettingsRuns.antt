-- ===== src/Tests/SettingsRuns.antt =====
-- A change of one setting, with a key that is not one.
use batch_inference_console.Prelude.{◌≡◌, refl, some}
use batch_inference_console.Prelude.Int.{pos}
use batch_inference_console.Json.{Fields, get, field, end, int, last_or}
use batch_inference_console.Settings.Store.{Environment, defaults, read_runtime, write_runtime}
use batch_inference_console.Settings.Merge.{write_runtime-get}

abbrev env : Environment
env = record { max_upload_mb = 500; max_items_per_job = 100000 }

abbrev stored : Fields
stored = field "default_priority" (int (pos 50)) end

abbrev change : Fields
change = field "stale_upload_hours" (int (pos 48)) (field "color" (int (pos 3)) end)

write_runtime-get_example :
    get "stale_upload_hours" (write_runtime env (some (some stored)) change).1
    ≡ last_or "stale_upload_hours" change
        (get "stale_upload_hours" (read_runtime env (some (some stored))))
unfolding defaults
write_runtime-get_example =
    write_runtime-get env (some (some stored)) change "stale_upload_hours" (refl, tt) refl
