-- ===== src/Results/Rescan.antt =====
-- A scan of the files of a job finds what its runs have counted (`scan_resume_state` of
-- backend/app/services/results.py, `_bump` of backend/app/worker/runner.py).
use batch_inference_console.Prelude.{
  ℕ, ◌==◌, ◌≡◌, refl, ap, sym, ◌∙◌, Bool, true, false, ◌||◌, Option, some, List, [], ◌∷◌, elem,
  arith, Text,
}
use batch_inference_console.Prelude.Int.{pos}
use batch_inference_console.Results.Writer.{Write, success, failure, successes, failures}
use batch_inference_console.Results.Resume.{
  Line, ResumeState, fresh_state, is_in, scan_file, scan_resume_state,
}
use batch_inference_console.Results.Recount.{
  IsTally, scan-successes, scan-failures, count_ok, count_bad, known_ok, known_bad, FreshOk,
  FreshBad, lines, indices, IsDistinct, AllCounted, key,
}
use batch_inference_console.Runner.Counters.{Counters, bump, bump_all}

abbrev pub zero_counters : Counters
zero_counters = record {
  completed = 0;
  failed = 0;
  prompt_tokens = pos 0;
  completion_tokens = pos 0;
  cached_tokens = pos 0;
}

abbrev ok_indices : List Write → List ℕ
ok_indices [] = []
ok_indices (success i u c l ∷ xs) = i ∷ ok_indices xs
ok_indices (failure i u m s a ∷ xs) = ok_indices xs

abbrev bad_indices : List Write → List ℕ
bad_indices [] = []
bad_indices (success i u c l ∷ xs) = bad_indices xs
bad_indices (failure i u m s a ∷ xs) = i ∷ bad_indices xs

indices_split :
    (i : ℕ) (xs : List Write)
    → elem i (indices xs) ≡ elem i (ok_indices xs) || elem i (bad_indices xs)
indices_split i [] = refl
indices_split i (success j u c l ∷ xs) = ground (arith, indices_split i xs)
indices_split i (failure j u m s a ∷ xs) = ground (arith, indices_split i xs)

known_ok_lem :
    (xs : List Write) (known : ℕ → Bool) (i : ℕ)
    → known_ok xs known i ≡ elem i (ok_indices xs) || known i
known_ok_lem [] known i = refl
known_ok_lem (success j u c l ∷ xs) known i = known_ok_lem xs _ i ∙ ground arith
known_ok_lem (failure j u m s a ∷ xs) known i = known_ok_lem xs known i

known_bad_lem :
    (xs : List Write) (known : ℕ → Bool) (i : ℕ)
    → known_bad xs known i ≡ elem i (bad_indices xs) || known i
known_bad_lem [] known i = refl
known_bad_lem (success j u c l ∷ xs) known i = known_bad_lem xs known i
known_bad_lem (failure j u m s a ∷ xs) known i = known_bad_lem xs _ i ∙ ground arith

abbrev NoneKnown : List ℕ → (ℕ → Bool) → Type 0
NoneKnown is known = (i : ℕ) → elem i is ≡ true → known i ≡ false

step_known :
    (j : ℕ) (is : List ℕ) (known : ℕ → Bool)
    → elem j is ≡ false
    → NoneKnown (j ∷ is) known
    → NoneKnown is (λ i. (i == j) || known i)
step_known j is known new h i m = ground (arith, h i)

fresh_ok :
    (xs : List Write) (known : ℕ → Bool)
    → IsDistinct (indices xs)
    → NoneKnown (indices xs) known
    → FreshOk xs known
fresh_ok [] known d h = tt
fresh_ok (success j u c l ∷ xs) known d h =
    (h j (ground arith), fresh_ok xs _ d.1 (step_known j (indices xs) known d.0 h))
fresh_ok (failure j u m s a ∷ xs) known d h = fresh_ok xs known d.1 (λ i e. h i (ground arith))

-- A known index may be one of a success, which no failure has.
abbrev NotBad : List Write → (ℕ → Bool) → Type 0
NotBad xs known = (i : ℕ) → elem i (bad_indices xs) ≡ true → known i ≡ false

fresh_bad :
    (xs : List Write) (known : ℕ → Bool)
    → IsDistinct (indices xs)
    → NotBad xs known
    → FreshBad xs known
fresh_bad [] known d h = tt
fresh_bad (success j u c l ∷ xs) known d h = fresh_bad xs known d.1 h
fresh_bad (failure j u m s a ∷ xs) known d h =
    (h j (ground arith), fresh_bad xs _ d.1 (λ i e. ground (arith, h i, indices_split i xs)))

not_both :
    (xs : List Write) (i : ℕ)
    → IsDistinct (indices xs)
    → elem i (bad_indices xs) ≡ true
    → elem i (ok_indices xs) ≡ false
not_both [] i d m = refl
not_both (success j u c l ∷ xs) i d m = ground (arith, not_both xs i d.1, indices_split i xs)
not_both (failure j u n s a ∷ xs) i d m = ground (arith, not_both xs i d.1, indices_split i xs)

count_ok-bump :
    (xs : List Write) (c : Counters) (i : ℕ) (u m : Text) (s : Option ℕ) (a : ℕ)
    → count_ok (bump c (failure i u m s a)) xs ≡ bump (count_ok c xs) (failure i u m s a)
unfolding count_ok bump
count_ok-bump [] c i u m s a = refl
count_ok-bump (success j v r l ∷ xs) c i u m s a = count_ok-bump xs _ i u m s a
count_ok-bump (failure j v n t b ∷ xs) c i u m s a = count_ok-bump xs c i u m s a

count_both : (xs : List Write) (c : Counters) → count_bad (count_ok c xs) xs ≡ bump_all c xs
unfolding count_ok count_bad bump_all
count_both [] c = refl
count_both (success j v r l ∷ xs) c = count_both xs (bump c (success j v r l))
count_both (failure j v n t b ∷ xs) c =
    ap (λ d. count_bad d xs) (sym (count_ok-bump xs c j v n t b))
    ∙ count_both xs (bump c (failure j v n t b))

nothing_yet : IsTally (λ i. false) zero_counters fresh_state
nothing_yet = record {
  knows = λ i. refl;
  same_completed = refl;
  same_failed = refl;
  same_prompt = refl;
  same_completion = refl;
  same_cached = refl;
}

apart : (xs : List Write) → IsDistinct (indices xs) → NotBad xs (known_ok xs (λ i. false))
apart xs d i m = known_ok_lem xs (λ j. false) i ∙ ground (arith, not_both xs i d)

all_known :
    (xs : List Write) (i : ℕ) → known_bad xs (known_ok xs (λ j. false)) i ≡ elem i (indices xs)
all_known xs i =
    known_bad_lem xs (known_ok xs (λ j. false)) i
    ∙ ground (arith, known_ok_lem xs (λ j. false) i, indices_split i xs)

-- What a scan is to find: the state exists, its counts are the run's, and it knows these indices.
pub record Finds (output errors : List Line) (c : Counters) (is : List ℕ) : Type 0 where
  pub state : ResumeState
  pub scanned : scan_resume_state output errors ≡ some state
  pub known : (i : ℕ) → is_in (key i) state.done_indices ≡ elem i is
  pub same_completed : state.completed ≡ c.completed
  pub same_failed : state.failed ≡ c.failed
  pub same_prompt : state.prompt_tokens ≡ c.prompt_tokens
  pub same_completion : state.completion_tokens ≡ c.completion_tokens
  pub same_cached : state.cached_tokens ≡ c.cached_tokens

-- A scan of the files that some writes with distinct indices filled, each success with the tokens
-- that its response reports, finds the indices of these writes and the counts that `_bump` made of
-- them, in whatever order successes and failures came.
pub scan_resume_state-Finds :
    (xs : List Write)
    → IsDistinct (indices xs)
    → AllCounted xs
    → Finds (lines (successes xs)) (lines (failures xs)) (bump_all zero_counters xs) (indices xs)
unfolding scan_resume_state
scan_resume_state-Finds xs d a =
    let (mid, e, t) =
      scan-successes xs (λ i. false) zero_counters fresh_state nothing_yet
        (fresh_ok xs (λ i. false) d (λ i m. refl)) a in
    let (last, e', t') =
      scan-failures xs (known_ok xs (λ i. false)) (count_ok zero_counters xs) mid t
        (fresh_bad xs (known_ok xs (λ i. false)) d (apart xs d)) in
    let both = count_both xs zero_counters in
    record {
      state = last;
      scanned = ap (scan_file true (lines (failures xs))) e ∙ e';
      known = λ i. t'.knows i ∙ all_known xs i;
      same_completed = t'.same_completed ∙ ap (λ (c : Counters). c.completed) both;
      same_failed = t'.same_failed ∙ ap (λ (c : Counters). c.failed) both;
      same_prompt = t'.same_prompt ∙ ap (λ (c : Counters). c.prompt_tokens) both;
      same_completion = t'.same_completion ∙ ap (λ (c : Counters). c.completion_tokens) both;
      same_cached = t'.same_cached ∙ ap (λ (c : Counters). c.cached_tokens) both;
    }
