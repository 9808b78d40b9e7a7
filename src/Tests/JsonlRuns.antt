-- ===== src/Tests/JsonlRuns.antt =====
-- A file of one request.
use batch_inference_console.Prelude.{refl, some, List, [], ◌∷◌, Text, codes, Bool, false}
use batch_inference_console.Json.{str, obj, end, field}
use batch_inference_console.Jsonl.Parse.{Libraries}
use batch_inference_console.Jsonl.Files.{Codec, iter_items, validate_file}
use batch_inference_console.Jsonl.Validate.{IsReadable, validate_file-IsReadable}

abbrev sample_lib : Libraries
sample_lib = record {
  loads = λ raw. some (obj (field "prompt" (str raw) end));
  str_of = λ v. codes "1";
}

-- Files are lists of lines, with a mark on those that cannot be decoded.
abbrev line_codec : Codec
line_codec = record {
  File = List Text × Bool;
  strict = λ f. f;
  replaced = λ f. f.0;
  replaced-strict = λ f e. refl;
}

abbrev one_request : List Text × Bool
one_request = (codes "hi" ∷ codes "  " ∷ [], false)

validate_file-IsReadable_example :
    IsReadable 10
      (iter_items line_codec sample_lib one_request)
      (validate_file line_codec sample_lib 10 3 one_request)
unfolding validate_file
validate_file-IsReadable_example =
    validate_file-IsReadable line_codec sample_lib 10 3 one_request refl refl
