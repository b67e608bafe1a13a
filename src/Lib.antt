-- ===== src/Lib.antt =====
-- BobaClaw: a self-hosted agent that answers over chat channels, runs tools and remembers its sessions.
--
-- This library models the core of the program and proves what makes it correct. Paths are from the
-- repository's root; each file names the functions that it translates, under their names in the code.
--
-- The parts and how they interact:
--   * Gate (crates/bobaclaw-agent/src/scope_gate.rs): every turn enters the gate of its scope; one
--     turn runs at a time in a scope, a user's message preempts the one before, and a semaphore limits
--     the turns of all scopes. The futures and guards are explicit phases of entries, and Gate.Steps
--     has every interleaving of their effects.
--   * Sessions (crates/bobaclaw-state/src/session.rs and routes.rs): the messages of a session, and
--     in Sessions.Routes which session a request goes to. SQL statements are functions on the list of
--     a table's rows; a broken constraint is an error value.
--   * Summary, Conversation, Compaction (crates/bobaclaw-agent/src/prompt.rs, context.rs and
--     compaction.rs, and crates/bobaclaw-provider/src/tools_chat.rs): a long session is summarized by
--     a row of its own, and the model sees the latest summary and what it does not cover. A turn calls
--     the budget check of Compaction.Run before each request.
--   * ToolLoop (crates/bobaclaw-agent/src/tool_loop.rs and cancel.rs): the turn itself, the loop of
--     requests to the model and calls of tools. Its surroundings are a record of functions.
--   * Scheduler (crates/bobaclaw-state/src/scheduled.rs, crates/bobaclaw-scheduler/src/runner.rs):
--     one-shot tasks; Scheduler.Runner is one tick and the sleep behind it, Scheduler.Workers is the
--     steps of several processes over one table.
--   * Cron (crates/bobaclaw-state/src/cron.rs, crates/bobaclaw-scheduler/src/runner.rs): recurring jobs,
--     the table of jobs, the record of their runs and one check of `run_due_cron`; the occurrences of an
--     expression are an argument.
--   * Background (crates/bobaclaw-state/src/spawn_jobs.rs, crates/bobaclaw-agent/src/spawn_completer.rs,
--     subagent/mod.rs and turn_context.rs): jobs of subagents. Background.Completer is the end of a job,
--     which may wake the parent; Background.Manager is the run of a subagent around its backend.
--   * Runs (crates/bobaclaw-state/src/ledger.rs, crates/bobaclaw-core/src/run.rs): the ledger of runs and
--     its log of events.
--   * Reply (crates/bobaclaw-agent/src/turn.rs): what a turn shows to the user and what it stores.
--   * FileSystem, FileTools (crates/bobaclaw-agent/src/tools/files.rs and workspace_path.rs): paths and
--     files as Rust's standard library has them, and the tools that read, write and edit the files of a
--     workspace. FileSystem is shared with the skills.
--   * Skills (crates/bobaclaw-skills/src, crates/bobaclaw-agent/src/tools/skills.rs): the skills of a
--     workspace, over a tree of files and directories without symbolic links, with the file of the
--     skills' records beside it. Skills.Validate and Skills.Guard are the checks, Skills.State the
--     records, Skills.Io and Skills.Manager the operations, Skills.Handler the tool that the agent calls
--     and Skills.Registry how skills are loaded.
--   * Pairing and Trust (crates/bobaclaw-state/src/pairing.rs, crates/bobaclaw-core/src/policy.rs and
--     channels.rs): who may talk to the agent, and which agent group answers.
--   * Gateway (crates/bobaclaw-gateway/src/auth.rs): the bearer token in front of the HTTP interface.
--     The parser of IP addresses is an argument.
--   * Split (crates/bobaclaw-channel-telegram/src/split.rs): long replies as several messages.
--
-- Numbers are natural numbers; a cast or a counter that wraps has its `% 2 ^ w` written out, and a
-- saturating subtraction is the one of the natural numbers. A text is the list of its Unicode scalar
-- values (Prelude.Chars). Times are milliseconds or seconds as the file says. Clocks, fresh ids, the
-- provider, the tools, deliveries and third-party code are arguments.
--
-- Bounds and fuel: the tool loop and the retries recurse on the numbers of the settings; the split of
-- a text recurses on fuel, the number of its characters, and its theorem says that this is enough.
-- The digits of a number are made with its successor as fuel.
--
-- Not modelled: the other tools, the executor, the gateway's handlers and the web channel, the network
-- side of Telegram, the MCP and provider clients, the command line and the configuration files. They are
-- input and output for the most part.
pub mod Prelude
pub mod FileSystem
pub mod FileTools
pub mod Gate
pub mod Gateway
pub mod Sessions
pub mod Skills
pub mod Summary
pub mod Conversation
pub mod Compaction
pub mod Scheduler
pub mod ToolLoop
pub mod Pairing
pub mod Trust
pub mod Split
pub mod Reply
pub mod Cron
pub mod Background
pub mod Runs
