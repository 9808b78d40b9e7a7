-- ===== src/Tests/ResultRuns.antt =====
-- Two results under a flush size of one.
use batch_inference_console.Prelude.{
  ◌≡◌, refl, none, [], ◌∷◌, ◌++◌, codes, List, take, drop, some, true,
}
use batch_inference_console.Prelude.Int.{pos}
use batch_inference_console.Json.{obj, end, Fields, field, null, int, str}
use batch_inference_console.Inference.Retry.{Completion}
use batch_inference_console.Results.Writer.{
  Writer, Write, success, failure, flush, write_all, flush-write_all, successes, failures,
}
use batch_inference_console.Results.Pages.{Row, row_of, read_page, simplify}
use batch_inference_console.Results.Slices.{records, read_page-slice, simple_of, simplify-row}

abbrev fresh_writer : Writer
fresh_writer = record { flush_size = 1; out_buf = []; err_buf = []; output = []; errors = [] }

abbrev answer : Completion
answer = record {
  response = obj end;
  status_code = 200;
  attempts = 1;
  prompt_tokens = pos 3;
  completion_tokens = pos 4;
  cached_tokens = pos 0;
}

abbrev two_writes : List Write
two_writes = success 0 (codes "a") answer 12 ∷ failure 1 (codes "b") (codes "HTTP 400") none 1 ∷ []

flush-write_all_example :
    ((flush (write_all fresh_writer two_writes)).output ≡ ([] ++ []) ++ successes two_writes)
    × ((flush (write_all fresh_writer two_writes)).errors ≡ ([] ++ []) ++ failures two_writes)
    × ((flush (write_all fresh_writer two_writes)).out_buf ≡ [])
    × ((flush (write_all fresh_writer two_writes)).err_buf ≡ [])
flush-write_all_example = flush-write_all fresh_writer two_writes

-- A failure as the file has it, and the row of a page for it.
abbrev failed_line : Fields
failed_line = field "_index" (int (pos 4)) (
    field "custom_id" (str (codes "c")) (
      field "response" null
        (field "error" (obj (field "message" (str (codes "HTTP 400")) end)) end)))

abbrev failed_row : Row
failed_row = record {
  index = int (pos 4);
  custom_id = str (codes "c");
  output = null;
  error = str (codes "HTTP 400");
  status_code = null;
  attempts = null;
  usage = null;
}

read_page-slice_example :
    read_page (records (failed_line ∷ failed_line ∷ [])) 1 5
    ≡ some (2, take 5 (drop 1 (failed_row ∷ failed_row ∷ [])))
unfolding row_of
read_page-slice_example =
    read_page-slice (failed_line ∷ failed_line ∷ []) (failed_row ∷ failed_row ∷ []) 1 5
      (refl, (refl, tt))

simplify-row_example : simplify failed_line true ≡ some (simple_of failed_row)
unfolding row_of
simplify-row_example = simplify-row failed_line true failed_row refl
