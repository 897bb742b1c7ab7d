-- ===== src/Shell/Tests/ListExamples.antt =====
-- Examples of the list of jobs of HW1/JobsList.cpp.
use operating_system_whw.Shell.Text.{codes}
use operating_system_whw.Shell.Jobs.Steps.{
  then_change, started, removed_by_id, returned, at_start, Reach-Fresh, Reach, AllReturnWell,
  ReturnsWell,
}
use operating_system_whw.Shell.Jobs.Removal.{ordered}
use operating_system_whw.Shell.Jobs.Order.{Lacks, IsOrdered}
use operating_system_whw.Shell.Jobs.Insert.{raised, insert_sorted, entry, add_job_with_id-Inserted}
use operating_system_whw.Shell.Jobs.Finished.{remove_finished_jobs-Kept, keep_running}
use operating_system_whw.Shell.Jobs.{
  remove_loop, remove_job_by_id, remove_finished_jobs, remove_each, find_job, erase_job, JobsList,
  empty_list, collect_finished, add_job_with_id, add_job,
}
use operating_system_whw.Shell.Builtin.Stale.{put_back-Stale}
use operating_system_whw.Shell.Builtin.Background.{put_back}
use operating_system_whw.Common.{inl, ◌≡◌, ◌∷◌, ◌+◌, true, refl, false, arith, []}
use operating_system_whw.Shell.Tests.{
  two_jobs-IsOrdered, two_jobs, three_jobs-IsOrdered, three_jobs, sleeper, mailer, editor, system,
}

-- Process 12 is collected, and the counter stays.
finished :
    (remove_finished_jobs system.waitpid three_jobs).0
    ≡ record { jobs = sleeper ∷ mailer ∷ []; max_job_id = 4 }
unfolding remove_finished_jobs collect_finished remove_each remove_job_by_id remove_loop erase_job
finished = refl

remove_finished_jobs-Kept_example :
    (remove_finished_jobs system.waitpid three_jobs).0
    ≡ ordered (keep_running system.waitpid three_jobs.jobs)
remove_finished_jobs-Kept_example =
    remove_finished_jobs-Kept system.waitpid three_jobs three_jobs-IsOrdered

add_job_with_id-Inserted_example :
    add_job_with_id 3 14 (codes "make") true 100 three_jobs ≡ record {
      jobs = insert_sorted (entry 3 14 (codes "make") true 100) three_jobs.jobs;
      max_job_id = raised 3 three_jobs.jobs 4;
    }
add_job_with_id-Inserted_example =
    add_job_with_id-Inserted 3 14 (codes "make") true 100 three_jobs three_jobs-IsOrdered
      (λ e. omega (arith, e), (λ e. omega (arith, e), (λ e. omega (arith, e), _)))

-- Job 1 comes back while job 2 runs.
abbrev both_started : JobsList
both_started = add_job 12 (codes "mail") false 6 (add_job 11 (codes "sleep 9&") false 5 empty_list)

abbrev one_removed : JobsList
one_removed = remove_job_by_id 1 both_started

abbrev one_returned : JobsList
one_returned = add_job_with_id 1 11 (codes "sleep 9&") true 7 one_removed

way_back : Reach one_returned
way_back =
    then_change
      (then_change
        (then_change (then_change at_start (started 11 (codes "sleep 9&") false 5 refl))
          (started 12 (codes "mail") false 6 refl))
        (removed_by_id 1 refl))
      (returned 1 11 (codes "sleep 9&") true 7 refl)

one-ReturnsWell : ReturnsWell 1 one_removed
unfolding remove_job_by_id remove_loop erase_job add_job add_job_with_id
one-ReturnsWell = ((λ e. omega (arith, e), _), omega arith, inl (omega arith))

way_back-AllReturnWell : AllReturnWell way_back
unfolding AllReturnWell way_back
way_back-AllReturnWell = (one-ReturnsWell, _)

Reach-Fresh_example : IsOrdered one_returned × Lacks (one_returned.max_job_id + 1) one_returned.jobs
Reach-Fresh_example = Reach-Fresh way_back way_back-AllReturnWell

-- Two jobs, the second stopped and put back.
put_back-Stale_example :
    ¬ Lacks
      ((put_back false 100 editor two_jobs).max_job_id + 1)
      (put_back false 100 editor two_jobs).jobs
unfolding find_job
put_back-Stale_example =
    put_back-Stale (sleeper ∷ []) editor false 100 two_jobs two_jobs-IsOrdered refl (omega arith)
      refl refl
