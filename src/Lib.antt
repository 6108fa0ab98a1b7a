-- ===== src/Lib.antt =====
-- Enzo, the load tester of the delfos servers.
--
-- `main` (src/main.cpp) reads its command line (src/utils/cli-parser.cpp), waits until the PBX
-- answers, and launches workflows, each in a thread of its own, which play agents and customers
-- against the lead manager and GARI (src/workflows). All count down one barrier
-- (src/utils/Barrier.h), on which `main` waits. A workflow that has an agent logged in keeps an
-- alive thread beside its `sequence`; the Twilio mockup reports calls to all workflows through the
-- handler in `main`. Every request is traced (src/model/session/elements/RequestTrace.cpp), the
-- traces are handed to a container of nodes, and src/RequestTraceThreadController.cpp moves them
-- into the database.
--
-- The files:
--   Prelude      shared names, tests on native numbers and texts, lists
--   Text         `std::string::find` and `substr`
--   Barrier      utils/Barrier.h: make, set, increment, the predicate of `wait`
--   Trace        RequestTrace: the constructors, assignment, swap, comparison, time, JSON
--   World        what the workflows use of the core library, the servers, the clock and the
--                scheduler, as one record of parameters; World.Requests names the requests
--   Monad        code that ends by a value, by `break`, by an exception, or, in the model only, out
--                of fuel; Monad.Triple has its rules
--   Workflow     the base class: State (fields and log), Construct (its constructor), Traces
--                (init_trace, end_trace and their twins), Buckets (the getters of the bucket) and
--                Sets (what they give), Calls (alive_lm, alive_gari, phones), Schedule (where other
--                threads run), Run (what every `sequence` does around its loop); Rules, Traced and
--                AliveRules, the rules for what the derived classes share; a trace handed over is kept
--                with its thread
--   Twilio       `twilio_event` of CMNWorkflow and ScheduledWorkflow over the fields that track a
--                call, and Sessions, what it reads in an address; Incoming, the handlers of
--                InboundWorkflow and IVWorkflow
--   Cmn          CMNWorkflow: Sequence and Call (its `sequence`), Alive (`alive_worker` and
--                `twilio_event`), Protocol (the machine that its requests obey), Obeys (the proof)
--   Protocol     machines that read the log of a workflow's requests; Rules and Whole, what it is for
--                code to stand somewhere in one, and for a run to keep to it
--   Desktop      the requests and the wait for a call that the next four workflows write out in the
--                same words; Steps and Calls, their rules in a protocol; Phases and Speaks, what
--                is known there and what the alive thread may say of it
--   Inbound      InboundWorkflow, Iv IVWorkflow, Scheduled ScheduledWorkflow, and Delfosnar the
--                delfosnarWorkflow of ManyWorkflow.cpp: fields, `alive_worker`, handlers and
--                `sequence`; Protocol, its machine; Obeys, what the other threads keep; Runs (and
--                Delfosnar.Steps and Rooms), whole runs
--   Agent        AgentWorkflow: `sequence`, `alive_worker`, Protocol, Obeys, Steps and Rounds (the
--                proof)
--   Waits        the waits under a clock that is not set back: what the other threads do (Turns), the
--                wait for a call (Ends), the rest of a round (Calm, Desks), rounds (Rounds), and runs
--                of CMNWorkflow (Whole)
--   Expired      ExpiredWorkflow: `sequence`, and what it asks (Leads)
--   Cli          the enumerations of the command line, and `check_arguments`; Meanings
--                and Expected, what a command line means, by tables of the names, apart from
--                the code
--   Launch       `launch_agent` and its twins, `check_pbx_running`, the handler of Twilio's events
--   Dump         `do_stuff` of RequestTraceThreadController
--   Tests        a demonstration world, runs in it, and the theorems at concrete values
--
-- Threads: a workflow's state changes at its own steps and, where it sleeps, takes the mutex, is
-- about to send a request, has its answer and not yet handed over its trace, or tests the stop flag,
-- by a list of turns that the world chooses: a round of the alive thread, an event, or a request of
-- Twilio. A round of the alive thread, which holds the mutex of the session, is one step; in the
-- program the sequence, which sends without the mutex, may go on within it. So the order of the two
-- threads' traces is not that of their requests, and each thread's is looked at by itself. Logging is
-- not modelled.
--
-- Exceptions: those that the repository's own code throws are values. The calls of the core library
-- that the workflows make after the alive thread has started (testers, JSON, calls, the container of
-- nodes) are total in World, so they throw nothing; an exception of theirs in the loop would end the
-- program by std::terminate, as one of the workflow's own does. The alive thread is joinable from its
-- start until stop_alive joins it, and destroying it while it is joinable is std::terminate.
--
-- Fuel: `Cmn.Call.poll` and `Desktop.poll` count the rounds of the polling loop, where 202 rounds of
-- 100 ms outlast the 20 s after which it gives up; `Expired.wait_period` those of a wait, where 22
-- rounds of 3 s outlast the minute;
-- `Workflow.Run.forever` those of a `while (true)` that only the stop flag or a failure ends. What is
-- said of whole runs of a `sequence` is said for every fuel, so for every number of rounds.
-- `Dump.empty_queue` counts batches, and as many as there are traces are enough. `Cli.decimal` counts
-- digits, of which an `unsigned int` has ten at most.
--
-- Not modelled: the set-up in `main`, the configuration, the bytes of the files that a room is sent,
-- `parse_command_line` and the printing of options, src/utils/spy.cpp, and the Qt client in
-- delfosclient.
pub mod Prelude
pub mod Text
pub mod Barrier
pub mod Trace
pub mod World
pub mod Monad
pub mod Workflow
pub mod Twilio
pub mod Cmn
pub mod Protocol
pub mod Desktop
pub mod Agent
pub mod Inbound
pub mod Iv
pub mod Scheduled
pub mod Delfosnar
pub mod Waits
pub mod Expired
pub mod Cli
pub mod Launch
pub mod Dump
pub mod Tests
