-- ===== src/Results/Writer.antt =====
-- `ResultWriter` of backend/app/services/results.py. A file is its lines, each the value that
-- `json.dumps` writes; the lock makes every call one step.
use batch_inference_console.Prelude.{
  ℕ, ◌+◌, ◌≡◌, refl, ap, sym, ◌∙◌, Bool, true, false, Option, none, some, List, [], ◌∷◌, ◌++◌, Text,
  leb, length,
}
use mathlib.Core.List.{append-nil, append_assoc}
use batch_inference_console.Prelude.Int.{pos}
use batch_inference_console.Json.{Json, null, int, str, obj, end, field}
use batch_inference_console.Inference.Retry.{Completion}

pub record Writer : Type 0 where
  pub flush_size : ℕ
  pub out_buf : List Json
  pub err_buf : List Json
  pub output : List Json
  pub errors : List Json

-- The line of `write_success`
abbrev pub success_line : ℕ → Text → Completion → ℕ → Json
success_line index custom_id result latency_ms = obj (
    field "_index" (int (pos index)) (
      field "custom_id" (str custom_id) (
        field "response"
          (obj
            (field "status_code" (int (pos result.status_code)) (field "body" result.response end)))
          (field "error" null (
            field "latency_ms" (int (pos latency_ms))
              (field "attempts" (int (pos result.attempts)) end))))))

abbrev pub status_json : Option ℕ → Json
status_json none = null
status_json (some n) = int (pos n)

-- The line of `write_failure`
abbrev pub failure_line : ℕ → Text → Text → Option ℕ → ℕ → Json
failure_line index custom_id message status_code attempts = obj (
    field "_index" (int (pos index)) (
      field "custom_id" (str custom_id) (
        field "response" null (
          field "error"
            (obj
              (field "status_code" (status_json status_code) (field "message" (str message) end)))
            (field "attempts" (int (pos attempts)) end)))))

-- `flush`: the buffers go to the ends of the files.
unfoldable pub flush : Writer → Writer
flush w = record w {
  out_buf = [];
  err_buf = [];
  output = w.output ++ w.out_buf;
  errors = w.errors ++ w.err_buf;
}

-- A call of `write_success` or `write_failure`.
pub data Write : Type 0 where
  success : ℕ → Text → Completion → ℕ → Write
  failure : ℕ → Text → Text → Option ℕ → ℕ → Write

abbrev pub buffered : Writer → Write → Writer
buffered w (success index custom_id result latency_ms) = record w {
  out_buf = w.out_buf ++ success_line index custom_id result latency_ms ∷ [];
}
buffered w (failure index custom_id message status_code attempts) = record w {
  err_buf = w.err_buf ++ failure_line index custom_id message status_code attempts ∷ [];
}

-- The buffer that the line went to has reached `flush_size`.
abbrev pub is_full : Writer → Write → Bool
is_full w (success index custom_id result latency_ms) = leb w.flush_size (length w.out_buf + 1)
is_full w (failure index custom_id message status_code attempts) =
    leb w.flush_size (length w.err_buf + 1)

abbrev pub flush_if : Bool → Writer → Writer
flush_if true w = flush w
flush_if false w = w

unfoldable pub write : Writer → Write → Writer
unfolding flush
write w x = flush_if (is_full w x) (buffered w x)

unfoldable pub write_all : Writer → List Write → Writer
unfolding write
write_all w [] = w
write_all w (x ∷ xs) = write_all (write w x) xs

-- The lines that the calls are to add to each file.
abbrev pub successes : List Write → List Json
successes [] = []
successes (success i c r l ∷ xs) = success_line i c r l ∷ successes xs
successes (failure i c m s a ∷ xs) = successes xs

abbrev pub failures : List Write → List Json
failures [] = []
failures (success i c r l ∷ xs) = failures xs
failures (failure i c m s a ∷ xs) = failure_line i c m s a ∷ failures xs

-- What a flush would leave in each file.
abbrev out_text : Writer → List Json
out_text w = w.output ++ w.out_buf

abbrev err_text : Writer → List Json
err_text w = w.errors ++ w.err_buf

out-flush_if : (b : Bool) (w : Writer) → out_text (flush_if b w) ≡ out_text w
unfolding flush
out-flush_if true w = append-nil (w.output ++ w.out_buf)
out-flush_if false w = refl

err-flush_if : (b : Bool) (w : Writer) → err_text (flush_if b w) ≡ err_text w
unfolding flush
err-flush_if true w = append-nil (w.errors ++ w.err_buf)
err-flush_if false w = refl

out-buffered : (w : Writer) (x : Write) → out_text (buffered w x) ≡ out_text w ++ successes (x ∷ [])
out-buffered w (success i c r l) = sym (append_assoc w.output w.out_buf _)
out-buffered w (failure i c m s a) = sym (append-nil (out_text w))

err-buffered : (w : Writer) (x : Write) → err_text (buffered w x) ≡ err_text w ++ failures (x ∷ [])
err-buffered w (success i c r l) = sym (append-nil (err_text w))
err-buffered w (failure i c m s a) = sym (append_assoc w.errors w.err_buf _)

out-write : (w : Writer) (x : Write) → out_text (write w x) ≡ out_text w ++ successes (x ∷ [])
unfolding write
out-write w x = out-flush_if (is_full w x) (buffered w x) ∙ out-buffered w x

err-write : (w : Writer) (x : Write) → err_text (write w x) ≡ err_text w ++ failures (x ∷ [])
unfolding write
err-write w x = err-flush_if (is_full w x) (buffered w x) ∙ err-buffered w x

successes_cons :
    (x : Write) (xs : List Write) → successes (x ∷ []) ++ successes xs ≡ successes (x ∷ xs)
successes_cons (success i c r l) xs = refl
successes_cons (failure i c m s a) xs = refl

failures_cons : (x : Write) (xs : List Write) → failures (x ∷ []) ++ failures xs ≡ failures (x ∷ xs)
failures_cons (success i c r l) xs = refl
failures_cons (failure i c m s a) xs = refl

all_text :
    (w : Writer) (xs : List Write)
    → (out_text (write_all w xs) ≡ out_text w ++ successes xs)
      × (err_text (write_all w xs) ≡ err_text w ++ failures xs)
unfolding write_all
all_text w [] = (sym (append-nil (out_text w)), sym (append-nil (err_text w)))
all_text w (x ∷ xs) =
    let (o, e) = all_text (write w x) xs in
    (
      o
          ∙ ap (λ l. l ++ successes xs) (out-write w x)
          ∙ append_assoc (out_text w) _ _
          ∙ ap (λ l. out_text w ++ l) (successes_cons x xs),
      e
          ∙ ap (λ l. l ++ failures xs) (err-write w x)
          ∙ append_assoc (err_text w) _ _
          ∙ ap (λ l. err_text w ++ l) (failures_cons x xs),
    )

-- However the flushes in between fall, after any calls and a last flush each file holds what it and its
-- buffer held, and then the lines of its calls in their order; nothing is left in the buffers.
pub flush-write_all :
    (w : Writer) (xs : List Write)
    → ((flush (write_all w xs)).output ≡ (w.output ++ w.out_buf) ++ successes xs)
      × ((flush (write_all w xs)).errors ≡ (w.errors ++ w.err_buf) ++ failures xs)
      × ((flush (write_all w xs)).out_buf ≡ [])
      × ((flush (write_all w xs)).err_buf ≡ [])
unfolding flush
flush-write_all w xs = let (o, e) = all_text w xs in (o, e, refl, refl)
