-- ===== src/Projects/Default.antt =====
-- Every user has one default project (`ensure_default_project` of backend/app/services/projects.py).
use batch_inference_console.Prelude.{
  ℕ, ◌≤◌, ◌≡◌, ◌≢◌, refl, ap, sym, ◌∙◌, Bool, true, false, Option, none, some, List, [], ◌∷◌, ◌==◌,
  ==_eq, ==_self, if◌then◌else◌, elem, length, arith, subst,
}
use batch_inference_console.Table.{Table, holds, at}
use batch_inference_console.Projects.Store.{
  Project, is_own_default, has_name, as_default, new_default, default_project_name, first, one_of,
  insert_or_find, adopt, default_or, ensure_default_project,
}

other : (u user : ℕ) → u ≢ user → (user == u) ≡ false
other u user ne = ground arith

abbrev count : Bool → ℕ
count b = if b then 1 else 0

-- A default project of the user counts one.
abbrev weigh : ℕ → Project → ℕ
weigh user p = count (is_own_default user p)

weigh_own : (user : ℕ) (p : Project) → p.user_id ≡ user → weigh user (as_default p) ≡ 1
unfolding as_default
weigh_own user p e = rw (e, ==_self user) refl

weigh_other : (u user : ℕ) (p : Project) → p.user_id ≡ user → u ≢ user → weigh u p ≡ 0
weigh_other u user p e ne = rw (e, other u user ne) refl

module _ (T : Table Project) where
  -- How many default projects a user has.
  abbrev pub defaults_of : ℕ → T.Rows → ℕ
  defaults_of user t = T.sum (weigh user) t

  -- Afterwards the answer is the one default project of the user, and nobody else's have changed.
  pub record HasDefault (t t' : T.Rows) (user : ℕ) (answer : Option ℕ) : Type 0 where
    pub id : ℕ
    pub answered : answer ≡ some id
    pub is_it : holds (is_own_default user) (T.get id t') ≡ true
    pub just_one : defaults_of user t' ≡ 1
    pub others : (u : ℕ) → u ≢ user → defaults_of u t' ≡ defaults_of u t

  found :
      (t : T.Rows) (user id : ℕ) (ids : List ℕ)
      → T.select (is_own_default user) t ≡ id ∷ ids
      → length (T.select (is_own_default user) t) ≤ 1
      → HasDefault t t user (some id)
  found t user id ids e few = record {
    id = id;
    answered = refl;
    is_it = sym (T.elem-select id (is_own_default user) t) ∙ ap (elem id) e ∙ ground arith;
    just_one =
        omega (arith, T.sum-select (is_own_default user) t, few, ap (λ (l : List ℕ). length l) e);
    others = λ u ne. refl;
  }

  pub inserted :
      (t : T.Rows) (user : ℕ)
      → T.select (is_own_default user) t ≡ []
      → HasDefault t (T.insert (new_default user) t) user (some (T.fresh t))
  unfolding new_default
  inserted t user e = record {
    id = T.fresh t;
    answered = refl;
    is_it =
        ap (holds (is_own_default user)) (T.get-insert (T.fresh t) (new_default user) t)
        ∙ rw (==_self (T.fresh t), ==_self user);
    just_one =
        T.sum-insert (weigh user) (new_default user) t
        ∙ rw (T.sum-select (is_own_default user) t, e, ==_self user) refl;
    others =
        λ u ne. T.sum-insert (weigh u) (new_default user) t ∙ rw (other u user ne) (omega arith);
  }

  adopted :
      (t : T.Rows) (user id : ℕ) (o : Option Project)
      → T.get id t ≡ o
      → holds (has_name user default_project_name) o ≡ true
      → T.select (is_own_default user) t ≡ []
      → HasDefault t (T.update id as_default t) user (some id)
  unfolding as_default
  adopted t user id none e h empty = cc
  adopted t user id (some p) e h empty =
      let mine = ==_eq p.user_id user (ground (arith, h)) in
      let plain =
        ap (holds (is_own_default user)) (sym e)
        ∙ sym (T.elem-select id (is_own_default user) t)
        ∙ ap (elem id) empty in
      let sums = λ (u : ℕ). T.sum-update (weigh u) as_default id t in
      record {
        id = id;
        answered = refl;
        is_it =
            ap (holds (is_own_default user)) (T.get-update id id as_default t)
            ∙ rw (==_self id, e, mine, ==_self user);
        just_one = omega (
          arith,
          sums user,
          ap (at (weigh user)) e ∙ ap (λ b. count b) plain,
          ap (at (λ q. weigh user (as_default q))) e ∙ weigh_own user p mine,
          T.sum-select (is_own_default user) t,
          ap (λ (l : List ℕ). length l) empty,
        );
        others = λ u ne. omega (
          arith,
          sums u,
          ap (at (weigh u)) e ∙ weigh_other u user p mine ne,
          ap (at (λ q. weigh u (as_default q))) e ∙ weigh_other u user (as_default p) mine ne,
        );
      }

  when_none :
      (t : T.Rows) (user : ℕ) (ids : List ℕ)
      → T.select (is_own_default user) t ≡ []
      → T.select (has_name user default_project_name) t ≡ ids
      → length ids ≤ 1
      → HasDefault t (adopt T t user (one_of ids)).0 user (adopt T t user (one_of ids)).1
  when_none t user [] e f few =
      subst
        (λ o.
          HasDefault t (insert_or_find T t user (first o)).0 user
            (insert_or_find T t user (first o)).1)
        (sym f) (inserted t user e)
  when_none t user (id ∷ []) e f few =
      adopted t user id (T.get id t) refl
        (sym (T.elem-select id (has_name user default_project_name) t)
          ∙ ap (elem id) f
          ∙ rw (==_self id) refl)
        e
  when_none t user (id ∷ j ∷ ids) e f few = absurd (omega (arith, few))

  when_some :
      (t : T.Rows) (user : ℕ) (ids : List ℕ)
      → T.select (is_own_default user) t ≡ ids
      → length (T.select (is_own_default user) t) ≤ 1
      → length (T.select (has_name user default_project_name) t) ≤ 1
      → HasDefault t
          (default_or T t t user (first ids)).0
          user
          (default_or T t t user (first ids)).1
  when_some t user [] e few names = when_none t user _ e refl names
  when_some t user (id ∷ ids) e few names = found t user id ids e few

  -- For a user with at most one default project and at most one project of the default name,
  -- `ensure_default_project` answers a project of the user, which is then the only default project that
  -- the user has; the default projects of all others are as many as before.
  pub ensure_default_project-HasDefault :
      (t : T.Rows) (user : ℕ)
      → length (T.select (is_own_default user) t) ≤ 1
      → length (T.select (has_name user default_project_name) t) ≤ 1
      → HasDefault t
          (ensure_default_project T t t user).0
          user
          (ensure_default_project T t t user).1
  unfolding ensure_default_project
  ensure_default_project-HasDefault t user few names = when_some t user _ refl few names
