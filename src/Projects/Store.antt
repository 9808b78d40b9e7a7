-- ===== src/Projects/Store.antt =====
-- The projects of the users: `Project` of backend/app/models.py, `ensure_default_project` of
-- backend/app/services/projects.py, and the access and the creation in backend/app/api/projects.py.
-- Between the reads of a request and its flush other requests may run: it reads one state of the table and
-- writes into another.
use batch_inference_console.Prelude.{
  ℕ, Bool, true, false, ◌&&◌, Option, none, some, List, [], ◌∷◌, Text, text_eq, codes, ◌==◌,
  if◌then◌else◌,
}
use batch_inference_console.Table.{Table}

pub record Project : Type 0 where
  pub user_id : ℕ
  pub name : Text
  pub description : Option Text
  pub is_default : Bool

abbrev pub default_project_name : Text
default_project_name = codes "默认项目"

abbrev pub default_project_description : Text
default_project_description = codes "没有指定项目的任务都放在这里"

-- `Project.user_id == user_id, Project.is_default.is_(True)`
abbrev pub is_own_default : ℕ → Project → Bool
is_own_default user p = p.user_id == user && p.is_default

-- `Project.user_id == user_id, Project.name == name`, and what `uq_project_name` compares
abbrev pub has_name : ℕ → Text → Project → Bool
has_name user name p = p.user_id == user && text_eq p.name name

unfoldable pub as_default : Project → Project
as_default p = record p { is_default = true }

unfoldable pub new_default : ℕ → Project
new_default user = record {
  user_id = user;
  name = default_project_name;
  description = some default_project_description;
  is_default = true;
}

-- `scalars().first()`
abbrev pub first : List ℕ → Option ℕ
first [] = none
first (id ∷ ids) = some id

-- `scalar_one_or_none()`: more than one row is an error.
pub data One : Type 0 where
  no_row several : One
  one_row : ℕ → One

abbrev pub one_of : List ℕ → One
one_of [] = no_row
one_of (id ∷ []) = one_row id
one_of (id ∷ ids) = several

-- `scalars().one()`: no row is an error too.
abbrev pub only : One → Option ℕ
only (one_row id) = some id
only no_row = none
only several = none

module _ (T : Table Project) where
  -- `flush` of the new row, or what follows the `IntegrityError` of a request that was faster.
  abbrev pub insert_or_find : T.Rows → ℕ → Option ℕ → T.Rows × Option ℕ
  insert_or_find now user none = (T.insert (new_default user) now, some (T.fresh now))
  insert_or_find now user (some id) = (now, only (one_of (T.select (is_own_default user) now)))

  abbrev pub adopt : T.Rows → ℕ → One → T.Rows × Option ℕ
  adopt now user (one_row id) = (T.update id as_default now, some id)
  adopt now user several = (now, none)
  adopt now user no_row =
      insert_or_find now user (first (T.select (has_name user default_project_name) now))

  abbrev pub default_or : T.Rows → T.Rows → ℕ → Option ℕ → T.Rows × Option ℕ
  default_or seen now user (some id) = (now, some id)
  default_or seen now user none =
      adopt now user (one_of (T.select (has_name user default_project_name) seen))

  -- `ensure_default_project`: the table and the project, or `none` for an exception
  unfoldable pub ensure_default_project : T.Rows → T.Rows → ℕ → T.Rows × Option ℕ
  unfolding as_default new_default
  ensure_default_project seen now user =
      default_or seen now user (first (T.select (is_own_default user) seen))

  abbrev pub own_or_none : ℕ → Option Project → Option Project
  own_or_none user none = none
  own_or_none user (some p) = if p.user_id == user then some p else none

  -- `_get_own_or_404`: a project of somebody else is answered as one that does not exist.
  unfoldable pub get_own_or_404 : T.Rows → ℕ → ℕ → Option Project
  get_own_or_404 t user id = own_or_none user (T.get id t)

  abbrev pub create_if : T.Rows → ℕ → Text → Option Text → Option ℕ → T.Rows × Option ℕ
  create_if t user name description none = (
    T.insert (record { user_id = user; name = name; description = description; is_default = false })
        t,
    some (T.fresh t),
  )
  create_if t user name description (some id) = (t, none)

  -- `create_project` with `_commit_or_409`: `none` where the user has a project of that name
  unfoldable pub create_project : T.Rows → ℕ → Text → Option Text → T.Rows × Option ℕ
  create_project t user name description =
      create_if t user name description (first (T.select (has_name user name) t))
