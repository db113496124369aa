-- ===== src/Operators/Jobs.antt =====
-- src/operators.c: the table of background jobs, `add_job`, `clean_jobs` and `print_jobs`. The result
-- of `waitpid` with `WNOHANG` for a process, whether it has ended, is an argument; what is printed is
-- a list of lines.
pub mod Slots
use las_shell.Prelude.{
  ℕ, ◌+◌, Bytes, length, Bool, true, false, ◌&&◌, List, [], ◌∷◌, ◌++◌, ltb, if◌then◌else◌,
}

pub record Job : Type 0 where
  pub pid : ℕ
  pub command : Bytes
  pub job_id : ℕ
  pub active : Bool

-- `jobs` with `job_count`, and `next_job_id`.
pub record JobTable : Type 0 where
  pub jobs : List Job
  pub next_job_id : ℕ

-- `MAX_JOBS`
abbrev pub max_jobs : ℕ
max_jobs = 100

unfoldable pub add_job : ℕ → Bytes → JobTable → JobTable
add_job pid command t =
    if ltb (length t.jobs) max_jobs
    then record {
      jobs =
          t.jobs
          ++ (record { pid = pid; command = command; job_id = t.next_job_id; active = true } ∷ []);
      next_job_id = t.next_job_id + 1;
    }
    else t

abbrev pub clean_job : (ℕ → Bool) → Job → Job
clean_job ended j = if j.active && ended j.pid then record j { active = false } else j

unfoldable pub clean_from : (ℕ → Bool) → List Job → List Job
clean_from ended [] = []
clean_from ended (j ∷ js) = clean_job ended j ∷ clean_from ended js

unfoldable pub clean_jobs : (ℕ → Bool) → JobTable → JobTable
unfolding clean_from
clean_jobs ended t = record t { jobs = clean_from ended t.jobs }

-- The jobs that `print_jobs` shows, each with its number, process and command.
unfoldable pub print_from : List Job → List (ℕ × ℕ × Bytes)
print_from [] = []
print_from (j ∷ js) =
    let rest = print_from js in if j.active then (j.job_id, j.pid, j.command) ∷ rest else rest

unfoldable pub print_jobs : JobTable → List (ℕ × ℕ × Bytes)
unfolding print_from
print_jobs t = print_from t.jobs
