-- ===== src/Jobs/JobQueue/Tests.antt =====
-- A job queue whose second job is stranded, and the theorems on the queue there.
use simple_mmo.Prelude.{◌≤◌, ◌≡◌, [], ◌∷◌, ◌++◌}
use simple_mmo.Jobs.JobQueue.{JobQueue, make, Reach}
use simple_mmo.Jobs.JobQueue.Exclusion.{reachable-exclusive}
use simple_mmo.Jobs.JobQueue.Stranded.{at_rest, stranded_job, push_drains}

-- Job 1 has run, job 2 waits.
abbrev stranded : JobQueue
stranded = at_rest (2 ∷ []) (1 ∷ 2 ∷ []) (1 ∷ [])

stranded_from_start : Reach make stranded
unfolding make
stranded_from_start = stranded_job 1 2 [] []

reachable-exclusive_example :
    (stranded.executing ≤ 1)
    × (stranded.posted ≤ 1)
    × (stranded.begun ++ stranded.queue ≡ stranded.pushed)
reachable-exclusive_example = reachable-exclusive stranded_from_start

stranded_job_example : Reach (at_rest [] [] []) stranded
stranded_job_example = stranded_job 1 2 [] []

push_drains_example :
    Reach (at_rest (2 ∷ []) (1 ∷ 2 ∷ []) (1 ∷ [])) (at_rest [] (1 ∷ 2 ∷ 3 ∷ []) (1 ∷ 2 ∷ 3 ∷ []))
push_drains_example = push_drains 3 (2 ∷ []) (1 ∷ 2 ∷ []) (1 ∷ [])
