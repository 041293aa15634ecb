-- ===== src/BuildExecution/Environment.antt =====
-- What `buildExecuteContext.Execute` of utils/BuildExecution.go takes from outside: the results of
-- the dependencies, the stamps of files, the body of the buildable, and the global flags.
use ppb.Prelude.{ℕ, Bool, Option, List}
use ppb.BuildNode.Dependencies.{BuildAlias, BuildStamp, BuildResult}
use ppb.BuildNode.Links.{BuildDependencyType}

-- `BuildableNotFound`, `buildAbortError`, `buildExecuteError`, `buildDependencyError`, and any other
-- error, which a number stands for.
pub data BuildError : Type 0 where
  not_found : BuildAlias → BuildError
  aborted : BuildError → BuildError
  failed : BuildAlias → BuildError → BuildError
  dependency : BuildAlias → BuildDependencyType → BuildError → BuildError
  other : ℕ → BuildError

-- A value, or a non-nil error.
pub data Outcome (A : Type 0) : Type 0 where
  ok : A → Outcome A
  err : BuildError → Outcome A

-- What the body of a buildable asks of its context: `NeedBuildResult`, `OutputFile` with the stamp
-- that was computed for the file, `OutputNode`, and `Annotate(AnnocateBuildTimestamp(...))`.
pub data BuildOp : Type 0 where
  need : BuildResult → BuildOp
  output_file : BuildResult → BuildOp
  output_node : BuildAlias → BuildOp
  timestamp : ℕ → BuildOp

-- One run of `Build`: its calls in the order in which they took the lock, the buildable as it left
-- it, and its error.
pub record BuildRun (B : Type 0) : Type 0 where
  pub ops : List BuildOp
  pub buildable : B
  pub error : Option BuildError

pub record Environment (B : Type 0) : Type 0 where
  -- the futures that `prepareStaticDependencies_rlock` joins
  pub prepared : Outcome (List BuildResult)
  -- the futures that `needToBuild_assumeLocked` joins
  pub static_results : Outcome (List BuildResult)
  pub dynamic_results : Outcome (List BuildResult)
  -- `Expect` and `buildFileStampWithoutDeps` of an output file
  pub file_stamp : BuildAlias → Outcome BuildStamp
  -- `Buildable.Build`, and the content of `MakeBuildFingerprint`
  pub build : B → BuildRun B
  pub fingerprint : B → ℕ
  -- `CommandEnv.BuildTime()`, in milliseconds
  pub build_time : ℕ
  -- the error that `Abort` recorded in the graph
  pub abort : Option BuildError
  pub stop_on_error : Bool
  -- whether assertions are checked (`ppb_debug`)
  pub debug : Bool
