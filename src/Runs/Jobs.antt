-- ===== src/Runs/Jobs.antt =====
-- What the job that a claim gives out leaves of the claim: the runs as they were chosen.
use price_monitor.Prelude.{
  ℕ, ◌≡◌, refl, sym, ap, ◌∙◌, inl, inr, Bool, true, Option, none, some, Text, text_eq, text_eq→eq,
  &&-left, &&-right, Bool-cases, ◌&&◌, get, find, find-eq-some, ok, >>=-eq-ok, ok-injective,
}
use price_monitor.Runs.{Run}
use price_monitor.Runs.Agent.{
  ClaimInput, Job, JobRules, Store, new_job, issue_job, issue_to, issue, has_run_id, claim_row,
  claim,
}

issue_to-runs :
    (rules : JobRules) (listed : Text → Bool) (agent : Text) (s : Store) (o : Option Run)
    {j : Option Job} {u : Store}
    → issue_to rules listed agent s o ≡ ok (j, u)
    → u.runs ≡ s.runs
unfolding issue_to
issue_to-runs rules listed agent s none h = cc
issue_to-runs rules listed agent s (some r) h =
    let (job, e, f) = >>=-eq-ok (issue_job rules listed agent r (get r.id s.jobs)) _ h in
    sym (ap (λ (x : Option Job × Store). x.1.runs) (ok-injective f))

issue-runs :
    (rules : JobRules) (listed : Text → Bool) (agent : Text) (o : Option Text) (s : Store)
    {j : Option Job} {u : Store}
    → issue rules listed agent (o, s) ≡ ok (j, u)
    → u.runs ≡ s.runs
unfolding issue
issue-runs rules listed agent none s h =
    sym (ap (λ (x : Option Job × Store). x.1.runs) (ok-injective h))
issue-runs rules listed agent (some id) s h = issue_to-runs rules listed agent s _ h

-- A claim that is not taken back leaves the runs as the update of the chosen run does.
pub claim-runs :
    (rules : JobRules) (now : ℕ) (listed : Text → Bool) (input : ClaimInput) (id : Text) (s : Store)
    {j : Option Job} {u : Store}
    → claim rules now listed input id s ≡ ok (j, u)
    → u.runs ≡ (claim_row now listed input id s).1.runs
unfolding claim
claim-runs rules now listed input id s h =
    let (o, t) = claim_row now listed input id s in issue-runs rules listed id _ _ h

-- The job is the agent's for this run.
issue_job-names :
    (rules : JobRules) (listed : Text → Bool) (agent : Text) (r : Run) (o : Option Job) {job : Job}
    → issue_job rules listed agent r o ≡ ok job
    → (job.run_id ≡ r.id) × (job.collector ≡ agent)
unfolding issue_job new_job
issue_job-names rules listed agent r (some j) {job} h =
    let named = text_eq j.run_id r.id && text_eq j.collector agent in
    elim (Bool-cases (rules.accepts j && named)) [
      | inr refused ↦ cc (rw refused at h)
      | inl good ↦
          (let same : j ≡ job = ok-injective (rw good at h) in
            let names : named ≡ true = &&-right _ _ good in
            (
              ap Job.run_id (sym same) ∙ text_eq→eq j.run_id r.id (&&-left _ _ names),
              ap Job.collector (sym same)
                  ∙ text_eq→eq j.collector agent (&&-right (text_eq j.run_id r.id) _ names),
            ))
    ]
issue_job-names rules listed agent r none {job} h = elim (Bool-cases (listed r.model)) [
  | inr missing ↦ cc (rw missing at h)
  | inl there ↦ elim (Bool-cases (rules.accepts (new_job rules agent r))) [
    | inr refused ↦ cc (rw (there, refused) at h)
    | inl good ↦
        (let same : new_job rules agent r ≡ job = ok-injective (rw (there, good) at h) in
          (ap Job.run_id (sym same), ap Job.collector (sym same)))
  ]
]

issue_to-names :
    (rules : JobRules) (listed : Text → Bool) (agent : Text) (s : Store) (r : Run) {job : Job}
    {u : Store}
    → issue_to rules listed agent s (some r) ≡ ok (some job, u)
    → (job.run_id ≡ r.id) × (job.collector ≡ agent)
unfolding issue_to
issue_to-names rules listed agent s r {job} h =
    let (j, e, f) = >>=-eq-ok (issue_job rules listed agent r (get r.id s.jobs)) _ h in
    let same : j ≡ job = cc (ok-injective f) in
    let (a, b) = issue_job-names rules listed agent r (get r.id s.jobs) e in
    (ap Job.run_id (sym same) ∙ a, ap Job.collector (sym same) ∙ b)

issue_run-names :
    (rules : JobRules) (listed : Text → Bool) (agent id : Text) (s : Store) (o : Option Run)
    {job : Job} {u : Store}
    → find (has_run_id id) s.runs ≡ o
    → issue_to rules listed agent s o ≡ ok (some job, u)
    → (job.run_id ≡ id) × (job.collector ≡ agent)
unfolding issue_to has_run_id
issue_run-names rules listed agent id s none e h = cc
issue_run-names rules listed agent id s (some r) e h =
    let (m, k) = find-eq-some _ s.runs e in
    let (a, b) = issue_to-names rules listed agent s r (unfold issue_to in h) in
    (a ∙ text_eq→eq r.id id k, b)

-- A claim that gives a job has chosen the run of the job, and the job is the agent's.
pub claim-job :
    (rules : JobRules) (now : ℕ) (listed : Text → Bool) (input : ClaimInput) (id : Text) (s : Store)
    {job : Job} {u : Store}
    → claim rules now listed input id s ≡ ok (some job, u)
    → ((claim_row now listed input id s).0 ≡ some job.run_id) × (job.collector ≡ id)
unfolding claim issue
claim-job rules now listed input id s {job} {u} h =
    from (claim_row now listed input id s).0 (claim_row now listed input id s).1 h
  where
    from :
        (o : Option Text) (t : Store)
        → issue rules listed id (o, t) ≡ ok (some job, u)
        → (o ≡ some job.run_id) × (job.collector ≡ id)
    from none t e = cc (ok-injective e)
    from (some k) t e =
        let (a, b) = issue_run-names rules listed id k t _ refl e in (ap some (sym a), b)
