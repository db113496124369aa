-- ===== src/Operators/Jobs/Slots.antt =====
-- The table of jobs over the shell's life.
use las_shell.Prelude.{
  ℕ, ◌+◌, ◌<◌, ◌≤◌, ◌≡◌, refl, Bytes, length, Bool, true, List, [], ◌∷◌, ◌++◌, ltb, arith,
  length-append, All, Bool-cases, inl, inr,
}
use las_shell.Operators.Jobs.{Job, JobTable, max_jobs, add_job, clean_job, clean_from, clean_jobs}

-- What happens to the table.
pub data Event : Type 0 where
  started : ℕ → Bytes → Event
  cleaned : (ℕ → Bool) → Event

unfoldable pub after : List Event → JobTable → JobTable
unfolding add_job clean_jobs
after [] t = t
after (started pid command ∷ es) t = after es (add_job pid command t)
after (cleaned ended ∷ es) t = after es (clean_jobs ended t)

-- The numbers of the jobs ascend, and are below the next one; the array is not overrun.
abbrev pub Ascending : List Job → ℕ → Type 0
Ascending [] next = Unit
Ascending (j ∷ js) next = (j.job_id < next) × All (λ k. j.job_id < k.job_id) js × Ascending js next

pub record IsJobTable (t : JobTable) : Type 0 where
  pub ascending : Ascending t.jobs t.next_job_id
  pub bounded : length t.jobs ≤ max_jobs

Ascending-snoc :
    (js : List Job) (j : Job) (next : ℕ)
    → Ascending js next
    → j.job_id ≡ next
    → Ascending (js ++ (j ∷ [])) (next + 1)
Ascending-snoc [] j next h e = (omega (arith, e), tt, tt)
Ascending-snoc (k ∷ js) j next h e =
    (omega (arith, h.0), snoc js h.1, Ascending-snoc js j next h.2 e)
  where
    snoc :
        (js : List Job)
        → All (λ i. k.job_id < i.job_id) js
        → All (λ i. k.job_id < i.job_id) (js ++ (j ∷ []))
    snoc [] a = (omega (arith, h.0, e), tt)
    snoc (i ∷ js) a = (a.0, snoc js a.1)

job_id-clean_job : (ended : ℕ → Bool) (j : Job) → (clean_job ended j).job_id ≡ j.job_id
job_id-clean_job ended j = ground arith

Ascending-clean_from :
    (ended : ℕ → Bool) (js : List Job) (next : ℕ)
    → Ascending js next
    → Ascending (clean_from ended js) next
unfolding clean_from
Ascending-clean_from ended [] next h = tt
Ascending-clean_from ended (j ∷ js) next h =
    let e = job_id-clean_job ended j in
    (omega (arith, h.0, e), above js h.1, Ascending-clean_from ended js next h.2)
  where
    above :
        (js : List Job)
        → All (λ i. j.job_id < i.job_id) js
        → All (λ i. (clean_job ended j).job_id < i.job_id) (clean_from ended js)
    above [] a = tt
    above (i ∷ js) a =
        (omega (arith, a.0, job_id-clean_job ended j, job_id-clean_job ended i), above js a.1)

length-clean_from : (ended : ℕ → Bool) (js : List Job) → length (clean_from ended js) ≡ length js
unfolding clean_from
length-clean_from ended [] = refl
length-clean_from ended (j ∷ js) = omega (arith, length-clean_from ended js)

add_job-IsJobTable :
    (pid : ℕ) (command : Bytes) (t : JobTable) → IsJobTable t → IsJobTable (add_job pid command t)
unfolding add_job
add_job-IsJobTable pid command t h = elim (Bool-cases (ltb (length t.jobs) max_jobs)) [
  | inl room ↦ rw room (record {
    ascending = Ascending-snoc t.jobs _ t.next_job_id h.ascending refl;
    bounded = ground (
      arith,
      length-append {0} t.jobs
          (record { pid = pid; command = command; job_id = t.next_job_id; active = true } ∷ []),
      room,
    );
  })
  | inr full ↦ rw full h
]

clean_jobs-IsJobTable :
    (ended : ℕ → Bool) (t : JobTable) → IsJobTable t → IsJobTable (clean_jobs ended t)
unfolding clean_jobs
clean_jobs-IsJobTable ended t h = record {
  ascending = Ascending-clean_from ended t.jobs t.next_job_id h.ascending;
  bounded = omega (arith, length-clean_from ended t.jobs, h.bounded);
}

-- Whatever jobs are started and cleaned, in any order, the numbers of the jobs in the table stay
-- different and ascend, and the array of 100 is not overrun.
pub after-IsJobTable : (es : List Event) (t : JobTable) → IsJobTable t → IsJobTable (after es t)
unfolding after
after-IsJobTable [] t h = h
after-IsJobTable (started pid command ∷ es) t h =
    after-IsJobTable es _ (add_job-IsJobTable pid command t h)
after-IsJobTable (cleaned ended ∷ es) t h = after-IsJobTable es _ (clean_jobs-IsJobTable ended t h)

-- What identifies a job: its process, its command and its number.
abbrev pub record_of : Job → ℕ × Bytes × ℕ
record_of j = (j.pid, j.command, j.job_id)
