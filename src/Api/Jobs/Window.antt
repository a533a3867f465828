-- ===== src/Api/Jobs/Window.antt =====
-- The store of api/jobs.py as a window on the newest jobs.
use openaisg.Common.{
  ℕ, zero, suc, ◌-◌, ◌≤◌, ◌≡◌, ◌≢◌, refl, sym, ap, ◌∙◌, arith, List, [], ◌∷◌, ◌++◌, some, ltb,
  ==_refl, length, drop, drop-nil, length-drop, All, Bool-cases, Option-cases, inl, inr,
}
use openaisg.Api.Jobs.{
  Job, JobStore, new_store, new_job, lookup, store, remove, trim, create, reversed, found_all,
  list_jobs,
}

module _ {R : Type 0} where
  abbrev pub keyed : List (Job R) → List (ℕ × Job R)
  keyed [] = []
  keyed (job ∷ w) = (job.id, job) ∷ keyed w

  abbrev ids : List (Job R) → List ℕ
  ids [] = []
  ids (job ∷ w) = job.id ∷ ids w

  abbrev newest_first : List (Job R) → List (Job R)
  newest_first [] = []
  newest_first (job ∷ w) = newest_first w ++ (job ∷ [])

  -- No job of the window has an identity.
  abbrev IsFresh : ℕ → List (Job R) → Type 0
  IsFresh id w = All (λ job. job.id ≢ id) w

  abbrev Distinct : List (Job R) → Type 0
  Distinct [] = Unit {0}
  Distinct (job ∷ w) = IsFresh job.id w × Distinct w

  -- The store holds the jobs of a window, the oldest first.
  pub record Represents (s : JobStore R) (w : List (Job R)) : Type 0 where
    pub jobs_are : s.jobs ≡ keyed w
    pub order_is : s.order ≡ ids w
    pub distinct : Distinct w
    pub within : length w ≤ s.limit

  -- A window one job later.
  abbrev window : ℕ → List (Job R) → List (Job R)
  window limit w = drop (length w - limit) w

  store-keyed :
      (w : List (Job R)) (job : Job R)
      → IsFresh job.id w
      → store (keyed w) job.id job ≡ keyed (w ++ (job ∷ []))
  unfolding store
  store-keyed [] job fresh = refl
  store-keyed (x ∷ w) job fresh = ground (arith, fresh.0, store-keyed w job fresh.1)

  ids-append : (w : List (Job R)) (job : Job R) → ids w ++ (job.id ∷ []) ≡ ids (w ++ (job ∷ []))
  ids-append [] job = refl
  ids-append (x ∷ w) job = ap (λ l. x.id ∷ l) (ids-append w job)

  length-ids : (w : List (Job R)) → length (ids w) ≡ length w
  length-ids [] = refl
  length-ids (x ∷ w) = ap suc (length-ids w)

  trim-window :
      (limit : ℕ) (w : List (Job R))
      → trim limit (keyed w) (ids w) ≡ (keyed (window limit w), ids (window limit w))
  unfolding trim remove
  trim-window limit [] = ap (λ v. (keyed v, ids v)) (sym (drop-nil (0 - limit)))
  trim-window limit (x ∷ w) = elim (Bool-cases (ltb limit (suc (length (ids w))))) [
    | inl over ↦
        let e : suc (length w - limit) ≡ suc (length w) - limit =
          ground (arith, over, length-ids w) in
        rw (over, ==_refl x.id)
          (trim-window limit w ∙ ap (λ k. (keyed (drop k (x ∷ w)), ids (drop k (x ∷ w)))) e)
    | inr fits ↦
        let e : 0 ≡ suc (length w) - limit = ground (arith, fits, length-ids w) in
        rw fits (ap (λ k. (keyed (drop k (x ∷ w)), ids (drop k (x ∷ w)))) e)
  ]

  drop-Distinct : (n : ℕ) (w : List (Job R)) → Distinct w → Distinct (drop n w)
  drop-Distinct zero w h = h
  drop-Distinct (suc n) [] h = tt
  drop-Distinct (suc n) (x ∷ w) h = drop-Distinct n w h.1

  Distinct-append :
      (w : List (Job R)) (job : Job R) → Distinct w → IsFresh job.id w → Distinct (w ++ (job ∷ []))
  Distinct-append [] job h fresh = (tt, tt)
  Distinct-append (x ∷ w) job h fresh = (front w h.0, Distinct-append w job h.1 fresh.1)
    where
      front : (v : List (Job R)) → IsFresh x.id v → IsFresh x.id (v ++ (job ∷ []))
      front [] k = ((λ e. fresh.0 (sym e)), tt)
      front (y ∷ v) k = (k.0, front v k.1)

  -- A store that represents a list of jobs with distinct identities, no longer than its limit,
  -- represents after the creation of a job with a fresh identity the list with that job at its end,
  -- cut to the newest ones that the limit admits.
  pub create-Represents :
      (id : ℕ) (command args : R) (now : ℕ) (s : JobStore R) (w : List (Job R))
      → Represents s w
      → IsFresh id w
      → Represents
          (create id command args now s).1
          (window s.limit (w ++ (new_job id command args now ∷ [])))
  unfolding create
  create-Represents id command args now s w r fresh =
      let job : Job R = new_job id command args now in
      let w' : List (Job R) = w ++ (job ∷ []) in
      let trimmed : trim s.limit (store s.jobs id job) (s.order ++ (id ∷ []))
          ≡ (keyed (window s.limit w'), ids (window s.limit w')) =
        ap (λ js. trim s.limit (store js id job) (s.order ++ (id ∷ []))) r.jobs_are
        ∙ ap (λ os. trim s.limit (store (keyed w) id job) (os ++ (id ∷ []))) r.order_is
        ∙ ap (λ js. trim s.limit js (ids w ++ (id ∷ []))) (store-keyed w job fresh)
        ∙ ap (trim s.limit (keyed w')) (ids-append w job)
        ∙ trim-window s.limit w' in
      record {
        jobs_are = ap (λ x. x.0) trimmed;
        order_is = ap (λ x. x.1) trimmed;
        distinct = drop-Distinct (length w' - s.limit) w' (Distinct-append w job r.distinct fresh);
        within = omega (arith, length-drop (length w' - s.limit) w');
      }

  new_store-Represents : (limit : ℕ) → Represents (new_store limit) []
  new_store-Represents limit = record {
    jobs_are = refl;
    order_is = refl;
    distinct = tt;
    within = omega arith;
  }

  -- Each job of a window is found under its identity.
  Findable : List (ℕ × Job R) → List (Job R) → Type 0
  Findable jobs w = All (λ job. lookup jobs job.id ≡ some job) w

  Findable-behind :
      (x : Job R) (jobs : List (ℕ × Job R)) (w : List (Job R))
      → IsFresh x.id w
      → Findable jobs w
      → Findable ((x.id, x) ∷ jobs) w
  unfolding Findable lookup
  Findable-behind x jobs [] fresh h = tt
  Findable-behind x jobs (y ∷ w) fresh h =
      (ground (arith, fresh.0, h.0), Findable-behind x jobs w fresh.1 h.1)

  Findable-keyed : (w : List (Job R)) → Distinct w → Findable (keyed w) w
  unfolding Findable lookup
  Findable-keyed [] h = tt
  Findable-keyed (x ∷ w) h =
      (rw (==_refl x.id) refl, Findable-behind x (keyed w) w h.0 (Findable-keyed w h.1))

  found_all-append :
      (jobs : List (ℕ × Job R)) (xs : List ℕ) (found : List (Job R)) (job : Job R)
      → found_all jobs xs ≡ some found
      → lookup jobs job.id ≡ some job
      → found_all jobs (xs ++ (job.id ∷ [])) ≡ some (found ++ (job ∷ []))
  unfolding found_all
  found_all-append jobs [] found job e f =
      let same : found ≡ [] = ground (arith, e) in
      rw (found_all, f) (ap (λ l. some (l ++ (job ∷ []))) (sym same))
  found_all-append jobs (x ∷ xs) found job e f = elim (Option-cases (lookup jobs x)) [
    | inl q ↦ absurd (ground (arith, q, e))
    | inr (y, q) ↦ elim (Option-cases (found_all jobs xs)) [
      | inl p ↦ absurd (ground (arith, q, p, e))
      | inr (rest, p) ↦
          let same : y ∷ rest ≡ found = ground (arith, q, p, e) in
          rw (found_all, q, found_all-append jobs xs rest job p f)
            (ap (λ l. some (l ++ (job ∷ []))) same)
    ]
  ]

  found_all-newest_first :
      (jobs : List (ℕ × Job R)) (w : List (Job R))
      → Findable jobs w
      → found_all jobs (reversed (ids w)) ≡ some (newest_first w)
  unfolding found_all reversed Findable
  found_all-newest_first jobs [] h = refl
  found_all-newest_first jobs (x ∷ w) h =
      found_all-append jobs (reversed (ids w)) (newest_first w) x
        (found_all-newest_first jobs w h.1) h.0

  -- A store that represents a list of jobs with distinct identities lists exactly these jobs, the
  -- newest first, without a `KeyError`.
  pub list_jobs-Represents :
      (s : JobStore R) (w : List (Job R)) → Represents s w → list_jobs s ≡ some (newest_first w)
  unfolding list_jobs
  list_jobs-Represents s w r =
      ap (λ os. found_all s.jobs (reversed os)) r.order_is
      ∙ ap (λ js. found_all js (reversed (ids w))) r.jobs_are
      ∙ found_all-newest_first (keyed w) w (Findable-keyed w r.distinct)
