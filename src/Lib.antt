-- ===== src/Lib.antt =====
-- netresearch/go-cron, a cron library for Go: when jobs run.
--
-- A schedule answers two questions, when its next run after a time is (`Next`) and when its last run
-- before it was (`Prev`); the scheduler of cron.go asks them. A schedule is a cron expression, read by
-- parser.go into the bit sets of a SpecSchedule, a constant delay, a grid of times since 1970, or a
-- union of schedules.
--
--   Prelude         numbers, Booleans, lists, integers (Prelude/Int), remainders (Prelude/Mod)
--   Word            the bit operations of a uint64, with their laws in Word/Laws
--   Time            Time/Calendar is the proleptic Gregorian calendar of Go's time package, Time/Wall
--                   its Time and Location: time.Date, Add, Truncate, Zone, ZoneBounds and the fields of
--                   the wall clock, from the package's documentation
--   Spec            spec.go: SpecSchedule and its fields. Spec/Days has the day constraints and
--                   dayMatches, Spec/Zones and Spec/Dates the steps over the wall clock and the dates
--                   where the UTC offset may change, Spec/Search the advance functions and
--                   nextExisting, Spec/Gap nextGapRun and Next. Spec/Fixed, Spec/Search/* and Spec/Next
--                   prove what Next returns.
--   Parser          parser.go. Parser/Bits has the bit sets, Parser/Range an item of a field, Parser/Field a
--                   field with its hash expressions, Parser/Days the day fields with L, W and #,
--                   Parser/Year the year field, Parser/Options the parser's options and the number of
--                   fields, Parser/Zone the time zone, Parser/Parse and Parser/Parse/Descriptor parse,
--                   Parser/Parse/Create the constructors.
--                   Parser/Text has the functions of strings and strconv that these call, and
--                   Parser/Result the errors.
--   Retry           retry.go: Retry/Breaker is the circuit breaker, Retry/Loop the loop that
--                   RetryWithBackoff and RetryOnError share
--   Workflow        workflow.go: conditions, results and hasCycle (Workflow/Cycle); cron.go's
--                   addDependencyDirect and removals (Workflow/Graph),
--                   processWorkflowEvent (Workflow/Execution)
--   Heap            heap.go: the order of the entries
--   Schedule        Schedule/Delay is constantdelay.go, Schedule/Aligned aligned.go, Schedule/Union
--                   union.go
--
-- A function of the source keeps its name, in lower case with underscores; `Next` of each schedule is
-- `next` of its module. A `time.Time` is a number of nanoseconds since 0000-01-01 UTC and a location;
-- earlier times are not represented. A zero time that a schedule returns to say that it has no run is
-- `none`. A location is a list of UTC offsets with the times at which they start. Durations and
-- `time.Unix` are signed; Go's conversions to uint64 and its sums of uint64 are written with their
-- wrap-around in Schedule/Aligned, and so is the sum of int in Retry/Loop.
--
-- The loops of spec.go run on fuel, and with too little of it the result is `none` of an outer Option.
-- Each round of a loop passes at least one second, so fuel for the seconds up to the end of the search
-- is enough. The loops of parser.go run on the number of values up to the end of the range, which is
-- enough for a positive step; the loop over a range of years on the number of its years. The retry loop runs on fuel too, one round for each attempt and one more.
--
-- A spec is a list of bytes, read as ASCII. An error of the parser is a value of ParseError without its
-- text; where Go would panic because an index is out of range, the result is the error
-- index_out_of_range. time.LoadLocation and time.ParseDuration are the record TimePackage, a parameter
-- of parse; FNV-1a is written as hash/fnv documents it.
--
-- The search of hasCycle visits an entry once and pushes each of its dependencies at most once, which
-- bounds its rounds.
--
-- A round of the loop of evaluateChildren that goes into the children of a skipped entry turns a pending
-- result into a skipped one, so that fuel for more rounds than results are pending is enough.
--
-- A call of the circuit breaker is two steps, so that calls can overlap: Retry/Breaker/Overlap has the
-- relation of the steps that several of them take.
--
-- Not modelled: SpecSchedule.Prev, the cache of the parser, the scheduler with its entries, the
-- validation and the execution of workflows, job wrappers, logging, options.
pub mod Prelude
pub mod Word
pub mod Time
pub mod Spec
pub mod Parser
pub mod Schedule
pub mod Retry
pub mod Workflow
pub mod Heap
