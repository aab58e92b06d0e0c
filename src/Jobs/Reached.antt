-- ===== src/Jobs/Reached.antt =====
-- The artifact summaries that calls of the repository lead to,
-- apps/api-control-plane/app/persistence/repositories.py.
use gooberberg_terminal.Prelude.{ℕ, List, []}
use gooberberg_terminal.Prelude.Float.{Float}
use gooberberg_terminal.Prelude.Value.{Builtins}
use gooberberg_terminal.Jobs.Artifacts.{
  RunArtifact, Summary, Database, add_summary, prune_old_intermediates, get_for_job,
}
use gooberberg_terminal.Jobs.Stored.{IsDatabase, IsSound, prune-IsSound}
use gooberberg_terminal.Jobs.Added.{add_summary-IsSound, get_for_job-IsSound}

module _ {F : Type 0} ⦃d : Float F⦄ ⦃b : Builtins F⦄ where
  -- The contents of the table after any calls.
  pub data Reaches (db : Database F) : List (RunArtifact F) → Type 0 where
    start : Reaches db []
    adds :
        {rows : List (RunArtifact F)} (now : ℕ) (a : Summary F)
        → Reaches db rows
        → Reaches db (add_summary db now a rows)
    gets :
        {rows : List (RunArtifact F)} (now job_id artifact_id : ℕ)
        → Reaches db rows
        → Reaches db (get_for_job db now job_id artifact_id rows).1
    prunes :
        {rows : List (RunArtifact F)} (now retention_days : ℕ)
        → Reaches db rows
        → Reaches db (prune_old_intermediates now retention_days rows).1

  -- After any calls, with a database that behaves like one, no two summaries have one identifier, none
  -- two are of one run with one checksum, and all of one checksum refer to one artifact.
  pub Reaches-IsSound :
      (db : Database F) (rows : List (RunArtifact F))
      → IsDatabase db
      → Reaches db rows
      → IsSound rows
  Reaches-IsSound db rows isdb start = record { distinct = tt; address = λ k. k; addressed = tt }
  Reaches-IsSound db rows isdb (adds now a r) =
      add_summary-IsSound db now a _ isdb (Reaches-IsSound db _ isdb r)
  Reaches-IsSound db rows isdb (gets now job_id artifact_id r) =
      get_for_job-IsSound db now job_id artifact_id _ (Reaches-IsSound db _ isdb r)
  Reaches-IsSound db rows isdb (prunes now retention_days r) =
      prune-IsSound now retention_days _ (Reaches-IsSound db _ isdb r)
