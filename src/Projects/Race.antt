-- ===== src/Projects/Race.antt =====
-- Two requests that need the default project at the same time (`ensure_default_project` of
-- backend/app/services/projects.py).
use batch_inference_console.Prelude.{
  ℕ, ◌≤◌, ◌≡◌, refl, ap, sym, ◌∙◌, subst, Bool, true, some, List, [], ◌∷◌, text_eq_self, ==_eq,
  ==_self, elem, length, arith, true-false,
}
use batch_inference_console.Table.{Table, holds}
use batch_inference_console.Projects.Store.{
  Project, is_own_default, has_name, new_default, default_project_name, first, one_of, only,
  insert_or_find, adopt, default_or, ensure_default_project,
}
use batch_inference_console.Projects.Default.{inserted}

-- The only element of a list with one element.
single : (id : ℕ) (ids : List ℕ) → elem id ids ≡ true → length ids ≤ 1 → only (one_of ids) ≡ some id
single id [] m few = absurd (true-false (sym m))
single id (j ∷ []) m few = ap some (sym (==_eq id j (ground (arith, m))))
single id (j ∷ k ∷ ids) m few = absurd (omega (arith, few))

module _ (T : Table Project) where
  at_fresh :
      (t : T.Rows) (user : ℕ) (p : Project → Bool)
      → p (new_default user) ≡ true
      → elem (T.fresh t) (T.select p (T.insert (new_default user) t)) ≡ true
  at_fresh t user p h =
      T.elem-select (T.fresh t) p (T.insert (new_default user) t)
      ∙ ap (holds p) (T.get-insert (T.fresh t) (new_default user) t)
      ∙ rw (==_self (T.fresh t)) h

  -- Its answer, if it does not read a default project.
  late_insert :
      (t : T.Rows) (user : ℕ) (ids : List ℕ)
      → T.select (is_own_default user) t ≡ []
      → T.select (has_name user default_project_name) (T.insert (new_default user) t) ≡ ids
      → (insert_or_find T (T.insert (new_default user) t) user (first ids)).1 ≡ some (T.fresh t)
  unfolding new_default
  late_insert t user [] e f = absurd (
      true-false (
        sym (
          at_fresh t user (has_name user default_project_name)
            (rw (==_self user) (text_eq_self default_project_name)))
        ∙ ap (elem (T.fresh t)) f))
  late_insert t user (id ∷ ids) e f =
      single (T.fresh t) (T.select (is_own_default user) (T.insert (new_default user) t))
        (at_fresh t user (is_own_default user) (rw (==_self user) refl))
        (omega (
          arith,
          T.sum-select (is_own_default user) (T.insert (new_default user) t),
          (inserted T t user e).just_one,
        ))

  late_adopt :
      (t : T.Rows) (user : ℕ) (ids : List ℕ)
      → T.select (is_own_default user) t ≡ []
      → T.select (has_name user default_project_name) t ≡ ids
      → (adopt T (adopt T t user (one_of ids)).0 user (one_of ids)).1
        ≡ (adopt T t user (one_of ids)).1
  late_adopt t user [] e f =
      subst
        (λ o.
          (insert_or_find T (insert_or_find T t user o).0 user
            (first (T.select (has_name user default_project_name) (insert_or_find T t user o).0))).1
          ≡ (insert_or_find T t user o).1)
        (sym (ap first f)) (late_insert t user _ e refl)
  late_adopt t user (id ∷ []) e f = refl
  late_adopt t user (id ∷ j ∷ ids) e f = refl

  late_default :
      (t : T.Rows) (user : ℕ) (ids : List ℕ)
      → T.select (is_own_default user) t ≡ ids
      → (default_or T t (default_or T t t user (first ids)).0 user (first ids)).1
        ≡ (default_or T t t user (first ids)).1
  late_default t user [] e = late_adopt t user _ e refl
  late_default t user (id ∷ ids) e = refl

  -- A request that has read the table before another request of the same user made the default project,
  -- and that flushes after it, gets the answer that the other one got.
  pub ensure_default_project-race :
      (t : T.Rows) (user : ℕ)
      → (ensure_default_project T t (ensure_default_project T t t user).0 user).1
        ≡ (ensure_default_project T t t user).1
  unfolding ensure_default_project
  ensure_default_project-race t user = late_default t user _ refl
