-- ===== src/Lib.antt =====
-- A model of ppb, a parallel build system with caching and distribution.
--
-- Prelude: the names that the other modules share, lists over the native numbers, Boolean tests, and
-- `Comparable`, Go's constraint of that name as an interface.
--
-- Containers (internal/base/Containers.go): Slice has the slice helpers (`IndexOf`, `Contains`,
-- `AppendUniq`, `IsUniq`, ...), Slice/Remove `Remove`, SetT the set over a slice, BoundedSort
-- `AppendBoundedSort`, Hash `Fnv1a`, ShardedMap `SharedMapT` and `ShardedMapT`. A slice is the list of
-- its values: the arrays behind slices are not modelled.
--
-- BuildNode (utils/BuildNode.go, utils/BuildAlias.go): Dependencies has `BuildAlias`, `BuildStamp` and
-- `BuildDependencies`, Node the record `buildNode` with the operations that change it, Links the kinds
-- of dependency. A fingerprint is the number that its 32 bytes make, so that 0 is the empty one, and
-- a time is a number of milliseconds, where 0 stands for `time.Time{}`. The assertions of the debug
-- build are tests that end the operation with `none`; the release build skips them.
--
-- BuildExecution (utils/BuildExecution.go): Environment is what `buildExecuteContext.Execute` takes
-- from outside, the results of the futures that it joins, the stamps of files, the body of the
-- buildable and the flags. Check is `needToBuild_assumeLocked` and Execute is `Execute`, for one node
-- whose lock is held. Logging, statistics and events are left out: nothing that is modelled reads
-- them. Options has `BuildOptions`, with its
-- functions, and `Recurse`, but none of its events.
--
-- BuildNode/Saved has what `Serialize` writes of a node and its parts; what an archive does with a
-- buildable is a parameter, as `SerializeExternal` finds it by a registered type. `time.Time{}`
-- is read back as the local time of the same instant, which `==` of Go tells from it, and so does the
-- model.
--
-- Archive (internal/base/Archive.go, internal/base/Serializable.go): Codec has a `Serialize` method as
-- a pair of functions, one for each archive, with the bytes that are written or left and the table of
-- strings; Bytes has the numbers, Text the strings with their indices, Slices the fixed-size values and
-- the helpers for slices, pairs and optional values. A 32-bit index is given by its bits.
--
-- BuildGraph (utils/BuildGraph.go): Create has `Create`, from the node that the graph has under the
-- alias; its callbacks, and the assertion on aliases that differ by case alone, are left out. Files
-- has the searches for input and output files over a list of nodes, a node by its alias and a file of
-- any type with an equality; they take fuel, one step for each alias that is given or can be pushed.
-- Chain has `GetDependencyChain`, with the order of the loops over a map as a parameter: its loop has
-- fuel for each vertex and one more, and so has the one that goes back. A distance is a natural number,
-- which the sum of 32-bit floats is below 2 ^ 24. Answers says what the function is to return; Left,
-- Closest and Relax are about the parts of a round, Invariant, Start and Ending about the search, Back
-- and Shortest about the chain, and Graph about the nodes.
--
-- Inheritable (internal/base/Inheritable.go): `Inherit` and `Overwrite`, with the test `IsInheritable`
-- as a parameter, in Values the Boolean and slices, and in CommandLine the options of a value, with its
-- `Set` as a parameter, and of a Boolean.
--
-- Words: `|`, `&` and `&^` of an `int32`, by its 32 binary digits. EnumSet (internal/base/Enums.go):
-- `EnumSet` with its operations over an interface of the values, in Text its `String` and `Set`. The
-- loop of `Range` takes one step of fuel for each place of the word.
--
-- ThreadPool (internal/base/ThreadPool.go): the workers of a pool of fixed size and the calls of `Join`,
-- as a relation of steps. Queueing a task and taking it are one step, since the channels have no
-- buffer; who queues, the priority and the events are left out, and so are `Resize` and `Close`.
--
-- Switch: the switch over the texts of the constants by which an enumeration is read, with
-- `strings.ToUpper` of ASCII texts. Compile/Enums (compile/Enums.go), Action (action/ActionFlags.go,
-- action/ActionCache.go), Cluster (cluster/peer.go), Utils (utils/SourceControl.go, utils/Command.go,
-- utils/Profiling_Enabled.go), Hal/Linux and Hal/Windows (Enums.go in internal/hal/linux and
-- internal/hal/windows) and Compression (internal/base/Compression.go) have one module for each
-- enumeration: its constants, texts, `Set`, tests and completion. A value that is no constant, on whose
-- text Go panics, does not exist in the model, but for `UnityType`, whose numbers all do. On a text
-- that is not ASCII, `strings.ToUpper` is not followed: what is said of `Set` is about ASCII texts.
-- Enumerations collects them.
--
-- AutoComplete (internal/base/AutoComplete.go): the matrix and the score of `LevenshteinDistance`, with
-- `unicode.ToUpper` as a parameter and the input in upper case.
--
-- Memoize (internal/base/Memoize.go): `MemoizeComparable`, as a function from what its closure keeps.
-- Events (internal/base/Event.go): `PublicEvent`; a delegate is the error that it returns.
--
-- Ufs (utils/UFS.go, utils/UFS_linux.go): the texts of paths, with the runes of a text in Runes, and
-- `JoinPath` with the assertions of the debug build; Clean has `CleanPath`, Directory and Filename the
-- types, on Linux. What the standard library does with a
-- path is written out.
--
-- Compile/Unity (compile/Unity.go): `GetSourceFiles`, with the classification of the files and the
-- loop that fills the unity files, oldest first. A negative number that is no constant of `UnityType`
-- is taken by its `Set`, and is a panic here.
--
-- Hal/GnuDepFile (internal/hal/generic/GnuDepFile.go): the reader `Load`, over the runes of the file,
-- and `FileSet.AppendUniq` of utils/UFS.go. Reading errors are left out.
--
-- BuildStats (utils/BuildStats.go): the timers of a node, from the times that the clock shows.
--
-- Futures (internal/base/Future.go): the results of futures, `MapFuture`, `ParallelJoin_Sync` and
-- `ParallelRange_Sync`; a future is what it is joined to. BuildExecution/Many has `buildMany`, which
-- joins the builds of several nodes.
--
-- BuildExecution/Launch: `launchBuild` for one node, as a relation of steps between the calls, the lock
-- of the node and the goroutines of the futures. A future is the state that `Execute` is in. Which of
-- the futures never return from `Execute`, as after an abort, and so keep the lock, is a parameter. The
-- read locks that `Execute` takes are taken and given back within one step. The callbacks `OnLaunched`
-- and `OnBuilt` and the assertions on cycles are left out.
--
-- All functions are total: a Go panic is `none`, and a loop over a slice is a recursion on it.
--
-- Bounds and fuel: a machine word is a number with its wrap-around written out, and the loops that take
-- fuel are each under a theorem that it is enough.
--
-- Not modelled: what reads or writes files, the network, the terminal or processes (utils/BuildUFS.go,
-- utils/FileInfoCache.go, cluster, action, internal/io, internal/base/Log.go), and the third-party
-- codecs behind internal/base/Compression.go; the tables of compilers and of their command lines
-- (internal/hal), beyond their enumerations; the front ends (internal/cmd, app, cmd), which call the
-- parts above; the settings of modules and targets (compile), which are merged field by field with the
-- operations of Inheritable and Containers; numbers with units; and of the build graph `Join`, the
-- critical path and the statistics of all nodes.
pub mod Prelude
pub mod Words
pub mod Futures
pub mod Switch
pub mod ThreadPool
pub mod AutoComplete
pub mod Memoize
pub mod Events
pub mod Ufs
pub mod EnumSet
pub mod Compile
pub mod Action
pub mod Cluster
pub mod Utils
pub mod Hal
pub mod Compression
pub mod Enumerations
pub mod Archive
pub mod Containers
pub mod BuildNode
pub mod BuildStats
pub mod BuildExecution
pub mod BuildGraph
pub mod Inheritable
