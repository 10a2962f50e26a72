-- ===== src/Lib.antt =====
-- A library of chord, a C++ framework for servers: logging, configuration, fibers and threads.
-- This development models the logging component (chord/log.h, chord/logger.cpp), the
-- configuration component (chord/config.h, chord/config.cpp), the fibers (chord/fiber.h,
-- chord/fiber.cpp), threads and guards of locks (chord/thread.h, chord/thread.cpp), singletons
-- (chord/singleton.h), backtraces (chord/util.h, chord/util.cpp), and assertions (chord/marco.h).
--
-- Parts. A program asks the LoggerManager for loggers by name. A Logger filters events by level
-- and hands them to its LogAppenders, or to the root logger if it has none; an appender filters
-- again, formats the event with a LogFormatter, and writes to the standard output or to a file.
-- Loggers share appenders, and an appender without a formatter takes the one of a logger. The
-- configuration component keeps variables by name; a YAML document is flattened to dotted paths,
-- and each path that names a variable sets it from text, which tells the listeners of the
-- variable. The listener of the variable "logs" makes the loggers what its value says.
--
-- Files.
--   Prelude, Prelude/*: the native numbers, lists and texts (byte values), Boolean tests,
--     lemmas.
--   Log/Level: LogLevel::FromString and ToString. Log/Event: LogEvent.
--   Log/Formatter/Scan: the first half of LogFormatter::init, with its indices and flags as
--     records.
--   Log/Formatter/Items: the derived classes of FormatItem, their table, and what they print.
--   Log/Formatter: the constructor and format. Log/Formatter/Grammar, with Braced, Named, Whole,
--     Fuel and Printed below it: an independent reader of patterns, left to right, and the proof
--     that the loop agrees with it. Log/Formatter/Lines, Faults: what follows for the formatter.
--   Log/World: the store of appenders and loggers, addressed by number as the code shares them
--     by pointer; the standard output, the files on disk; calls that may follow a null pointer
--     (Run).
--   Log/Appender: setFormatter, log, reopen of both appenders, with the state of std::ofstream.
--   Log/Logger: setFormatter, addAppender, delAppender, clearAppenders, log, and the logging
--     macros. Log/Logger/Levels: debug, info, warn, error, fatal. Log/Logger/Macros: the macros
--     of each level, with the events that they make.
--   Log/Manager: the constructor and getLogger, and the calls of a program as a step function.
--   Log/Definition: LogAppenderDefine, LogDefine, sets of them, and the conversion from text
--     (LexicalCast). Log/Definition/Print: the conversion to text. Log/Definition/Order: the order
--     of the set. Log/Definition/Written, Pushed: what is read from the nodes that are written.
--     Log/Definition/RoundTrip: both ways.
--   Log/Listener: the listener of LogIniter. Log/Listener/Splits, Crashes: when it follows a null
--     pointer. Log/Listener/Changes, Realises, Fresh, Appenders, Keyed, Applied, Retired, Effects:
--     what it leaves. Log/Listener/Announced: logging makes no logger. Log/Listener/Reached: names
--     and loggers after any calls of a program.
--   Log/Reload: the variable "logs" with the listener, and fromString on it. Log/Reload/Defined,
--     Follows: the loggers against the variable's value. Log/Reload/Documents: LoadFromYaml.
--   Log/ToYaml: the toYamlString functions. Log/ToYaml/Rising, Filed: the order and the names of
--     the manager's map. Log/ToYaml/Nodes, Described: reading what toYamlString writes.
--   Config/Names: the literal of allowed characters. Config/Members: ListAllMember, with what it
--     lists in Config/Members/Keys and Complete.
--   Config/Var: ConfigVar<T>. Config/Registry: Lookup, LookupBase, Visit, LoadFromYaml, with what
--     they answer and set in Config/Registry/Loads and Settings.
--   Config/Setting: setValue in several threads. Config/Setting/Told, Races: what every
--     interleaving keeps, and one that is a race.
--   Config/Conversion: LexicalCast for the containers. Config/Conversion/Refills: filling a
--     container with the elements of another. Config/Conversion/RoundTrip, Maps: both ways.
--   Config/Yaml: what is used of yaml-cpp, a parameter: nodes, their kind, text and entries, and
--     a depth that falls from a map to its entries, since a document that was read is finite; how
--     nodes are built and documents read (Builder), and what the conversions rely on (Laws).
--     Config/Yaml/Sample: an instance, for the tests.
--   Fiber: the fibers of one thread, the thread-local pointers, the counters, and what each
--     context resumes, for every member function of Fiber. Fiber/Switches: the switches between
--     contexts. Fiber/Safety: the acts of a thread as a step function. Fiber/Turns: a switch and
--     its yield. Fiber/Counts: TotalFibers, and the numbers of fibers.
--   Lock: ScopedLockImpl on CASLock, as atomic steps of threads. Lock/Exclusion: what every
--     interleaving of them keeps.
--   Locks: the mutexes of the components, the ways to take them, and blocks with guards.
--     Locks/Logging, Configuring: the guards of every operation of both components, in order.
--     Locks/Threads: threads that run their calls. Locks/Nesting, with Calls and Programs, Ordered,
--     Progress: the order in which locks are taken, and that some thread can go on. Locks/Reentry:
--     a listener that calls its own variable. Locks/Protection, with Writes, Logs and Calls: what
--     operations change, against the locks that they take.
--   Guard: ScopedLockImpl, ReadScopedLockImpl and WriteScopedLockImpl over any mutex, for one
--     thread. Guard/Balance: their calls of the mutex. Guard/Mutexes: Mutex, RWMutex, Spinlock,
--     NullMutex and NullRWMutex.
--   Thread: Thread and Semaphore: the constructor, run, SetName, join and the destructor, as steps
--     of the owner and of the new thread. Thread/Start: the handover. Thread/Dangling: uses of an
--     object that is gone.
--   Singleton: GetInstance, and the macros for loggers. Singleton/Loggers: they give the same
--     loggers.
--   Backtrace: Backtrace and BacktraceToString. Backtrace/Frames: their lines.
--   Assert: CHORD_ASSERT and CHORD_ASSERT2. Assert/Report: what they print, and that they end the
--     program.
--   Util: GetFiberId in 32 bits.
--   Tests below a part: runs and instances at concrete inputs.
--
-- Fuel. The scan of a pattern has the length of the pattern plus one, and its inner loop the
-- length; each round moves the index on, and the constructor is shown to return always.
-- Logger::log has fuel two: a logger of the manager has the root or no logger behind it.
-- ListAllMember has fuel above the depth of the node. The loop of Backtrace has the number of
-- frames plus one.
--
-- Parameters. strftime, the clock, whether a file can be opened, and whether a write to it fails
-- are fields of System and Library. What fromString of other variables than "logs" does is an
-- argument. The conversions between values and text, and their comparison, are arguments of the
-- configuration variables; yaml-cpp is a record with laws; the unordered containers are records
-- with what the standard promises. What vasprintf and backtrace_symbols give are arguments, and a
-- guard's mutex is a record of its calls. What std::ofstream does on close, open and << is written
-- out as the C++ standard has it.
--
-- Not modelled. What the components log about themselves, but for the listener's message, the
-- handler of fromString on "logs", and failed assertions; allocations that fail, and listeners that
-- throw; what the conversion of definitions prints about a wrong document. Interleavings of what
-- operations do to shared objects, but for CASLock, ConfigVar::setValue and the start of a thread:
-- elsewhere an operation is one step, and Locks follows its guards alone. Texts are sequences of
-- bytes. What pthread does behind Mutex, RWMutex and Spinlock is a parameter; gettid is a system
-- call.
mod Prelude
pub mod Log
pub mod Config
pub mod Fiber
pub mod Lock
pub mod Locks
pub mod Thread
pub mod Guard
pub mod Backtrace
pub mod Assert
pub mod Util
pub mod Singleton
