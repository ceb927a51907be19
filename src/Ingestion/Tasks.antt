-- ===== src/Ingestion/Tasks.antt =====
-- The task shells (backend/app/workers/tasks/ingest.py): what follows the end of a stage.
use atlas_knowledge.Common.{ℕ, ◌^◌, leb, if◌then◌else◌, Text, codes, ◌++◌, min}
use atlas_knowledge.Ingestion.World.{Stage, parse, chunk, embed, World}
use atlas_knowledge.Ingestion.Stages.{Ending, returned, timed_out, transient_error, crashed, fail}

abbrev pub max_retries : Stage → ℕ
max_retries parse = 3
max_retries chunk = 3
max_retries embed = 5

abbrev pub stage_name : Stage → Text
stage_name parse = codes "parse"
stage_name chunk = codes "chunk"
stage_name embed = codes "embed"

-- `_MAX_BACKOFF_S`
abbrev pub max_backoff : ℕ
max_backoff = 60

-- The shell returns, or asks to be run again after this many seconds.
pub data Shell : Type 0 where
  done : Shell
  retry : ℕ → Shell

-- `_run_stage`, after the stage; a failing `_fail` only logs.
unfoldable pub run_stage : Stage → ℕ → ℕ → Ending × World → Shell × World
run_stage stage retries i (returned, w) = (done, w)
run_stage stage retries i (timed_out, w) =
    (done, fail i stage (stage_name stage ++ codes " 階段執行逾時") w)
run_stage stage retries i (transient_error message, w) =
    if leb (max_retries stage) retries
    then (done, fail i stage (stage_name stage ++ (codes " 階段重試耗盡:" ++ message)) w)
    else (retry (min (2 ^ retries) max_backoff), w)
run_stage stage retries i (crashed name, w) =
    (done, fail i stage (stage_name stage ++ (codes " 階段發生非預期錯誤:" ++ name)) w)
