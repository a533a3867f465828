-- ===== src/Api/Jobs.antt =====
-- api/jobs.py: the store of the jobs that outlive their HTTP request. The identity of a new job is
-- given, in place of `uuid.uuid4().hex[:12]`.
pub mod Window
mod Tests
use openaisg.Common.{
  ℕ, zero, suc, ◌+◌, Bool, List, [], ◌∷◌, ◌++◌, Option, none, some, ltb, ◌==◌, if◌then◌else◌,
  length,
}
use mathlib.Core.Option

pub data JobState : Type 0 where
  running done failed : JobState

-- `R` is the type of the commands, their arguments, the results and the errors.
pub record Job (R : Type 0) : Type 0 where
  pub id : ℕ
  pub command : R
  pub args : R
  pub state : JobState
  pub result : Option R
  pub error : Option R
  pub started_at : ℕ
  pub finished_at : Option ℕ

pub record JobStore (R : Type 0) : Type 0 where
  pub jobs : List (ℕ × Job R)
  pub order : List ℕ
  pub limit : ℕ

reversed : List ℕ → List ℕ
reversed [] = []
reversed (id ∷ order) = reversed order ++ (id ∷ [])

module _ {R : Type 0} where
  -- `JobStore(limit)`.
  abbrev pub new_store : ℕ → JobStore R
  new_store limit = record { jobs = []; order = []; limit = limit }

  abbrev pub new_job : ℕ → R → R → ℕ → Job R
  new_job id command args now = record {
    id = id;
    command = command;
    args = args;
    state = running;
    result = none;
    error = none;
    started_at = now;
    finished_at = none;
  }

  -- `_jobs.get(id)`, `_jobs[id] = job` and `_jobs.pop(id, None)`.
  unfoldable pub lookup : List (ℕ × Job R) → ℕ → Option (Job R)
  lookup [] id = none
  lookup ((i, job) ∷ jobs) id = if i == id then some job else lookup jobs id

  unfoldable pub store : List (ℕ × Job R) → ℕ → Job R → List (ℕ × Job R)
  store [] id job = (id, job) ∷ []
  store ((i, old) ∷ jobs) id job = if i == id then (i, job) ∷ jobs else (i, old) ∷ store jobs id job

  unfoldable pub remove : List (ℕ × Job R) → ℕ → List (ℕ × Job R)
  remove [] id = []
  remove ((i, job) ∷ jobs) id = if i == id then jobs else (i, job) ∷ remove jobs id

  -- The loop of `create` over `_order`.
  unfoldable pub trim : ℕ → List (ℕ × Job R) → List ℕ → List (ℕ × Job R) × List ℕ
  trim limit jobs [] = (jobs, [])
  trim limit jobs (id ∷ order) =
      let trimmed = trim limit (remove jobs id) order in
      if ltb limit (length (id ∷ order)) then trimmed else (jobs, id ∷ order)

  unfoldable pub create : ℕ → R → R → ℕ → JobStore R → Job R × JobStore R
  create id command args now s =
      let job = new_job id command args now in
      let (jobs, order) = trim s.limit (store s.jobs id job) (s.order ++ (id ∷ [])) in
      (job, record s { jobs = jobs; order = order })

  unfoldable pub get : ℕ → JobStore R → Option (Job R)
  get id s = lookup s.jobs id

  found_all : List (ℕ × Job R) → List ℕ → Option (List (Job R))
  found_all jobs [] = some []
  found_all jobs (id ∷ order) = elim (lookup jobs id) [
    | none ↦ none
    | some job ↦ Option.map (λ rest. job ∷ rest) (found_all jobs order)
  ]

  -- `list`, before `as_dict`; `none` is the `KeyError` of an id that has no job.
  pub list_jobs : JobStore R → Option (List (Job R))
  unfolding reversed found_all
  list_jobs s = found_all s.jobs (reversed s.order)
