-- ===== src/Api/Jobs/Tests.antt =====
-- Runs of api/jobs.py's `JobStore`.
use openaisg.Common.{ℕ, ◌≡◌, refl, arith, [], ◌∷◌, none}
use openaisg.Api.Jobs.{Job, JobStore, new_job, lookup, store, remove, trim, create, get}
use openaisg.Api.Jobs.Window.{keyed, Represents, create-Represents}

abbrev first : Job ℕ
first = new_job 11 0x33 45 100

abbrev second : Job ℕ
second = new_job 12 0x34 0 200

abbrev third : Job ℕ
third = new_job 13 0x31 0 300

-- A store for two jobs that is full.
abbrev full : JobStore ℕ
full = record { jobs = keyed (first ∷ second ∷ []); order = 11 ∷ 12 ∷ []; limit = 2 }

-- The oldest job is dropped, and is not found any more.
create_evicts : get 11 (create 13 0x31 0 300 full).1 ≡ none
unfolding get create trim store remove lookup
create_evicts = refl

full-Represents : Represents full (first ∷ second ∷ [])
full-Represents = record {
  jobs_are = refl;
  order_is = refl;
  distinct = (((λ e. omega (arith, e)), tt), (tt, tt));
  within = omega arith;
}

create-Represents_example : Represents (create 13 0x31 0 300 full).1 (second ∷ third ∷ [])
create-Represents_example =
    create-Represents 13 0x31 0 300 full (first ∷ second ∷ []) full-Represents
      ((λ e. omega (arith, e)), ((λ e. omega (arith, e)), tt))
