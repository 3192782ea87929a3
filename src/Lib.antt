-- ===== src/Lib.antt =====
-- a0 is an agent: a core process takes goals from a terminal or a command line, asks a language model,
-- runs the tools that the model calls, and answers them, until the model gives a result. Agents talk
-- to a supervisor (b1) and that to a control server (c2) over sockets. Bytes of a text are native
-- numbers in a list, and an integer of the program that is never negative is a native number; no
-- counter comes near the end of its machine range.
--
-- Which file models which part of the repository:
--   Core, Core/Driven, Core/Text: the state machine of DrivenCore in src/core/driven_core.cpp
--     (submitGoal, tick, cancel and their helpers) and its repair and truncation of texts. What it
--     calls (provider, skill manager, database, prompt files) is the record `Env` over a world.
--     A read of the pending calls out of range is `none`.
--   Executor/Graph: DependencyGraph (src/executor/dependency_graph.cpp), the scheduling of tool calls.
--   Executor/Runner: runAll and shellEscape of src/executor/command_runner.cpp over an interface `Os`.
--     The loop of runAll that starts the commands has as fuel the number of commands, which is enough:
--     each round starts at least one.
--   Executor/ToolRunner: src/executor/tool_runner.cpp, the command lines of tools; Words reads them as
--     the shell does.
--   Executor/Protection, Executor/Streams: docker_security_filter.cpp, stream_registry.cpp and
--     tool_state.cpp of src/executor.
--   Llm/Decoder: ResponseDecoder (src/llm/response_decoder.cpp), from the bytes of a response to
--     events. An exception is a result `threw` with the decoder as it was.
--   Ipc/Message, Ipc/Socket: src/ipc/ipc_protocol.cpp, messages as lines of JSON, and their framing.
--   Shared/Mpsc: the channel of src/shared/mpsc.h, with the handles of its senders in Handles and the
--     interleavings of send and drain in Wakeup; Shared/Events has the types of events and commands.
--   Shared/Json: nlohmann::json, a third-party library, as an interface with laws.
--   Skills/Types, Skills/Names: the records of src/skills/skills.h and qualified names; Types.Manager is
--     the skill manager as the core uses it.
--   Skills/Loader: src/skills/skill_loader.cpp, the components in memory, with the manifest file in
--     Loader/Manifest and the walk over the directories in Loader/Loading.
--   Skills/Versions: src/skills/version_manager.cpp. Files are changed through the record `Disk` over a
--     world.
--   Skills/Prompts, Skills/Table, Skills/Execute, Skills/Removal: the chains of prompts, the dispatch
--     table and the lists, the execution of tools (streamed in
--     Execute/Streaming), and remove in src/skills/skill_manager.cpp. A chain has as fuel the depth of
--     calls and the search for a name its rounds; for both it is proved which fuel is enough, as for the
--     loop of the collector of versions.
--   Skills/Validation: src/skills/validation_engine.cpp, its verdict in Validation/Verdicts with validate
--     of src/skills/skill_manager.cpp.
--   Supervisor: src/b1/supervisor.cpp, its tables and handlers; Supervisor/Loop: a round of its loop over
--     what poll, accept and recv gave.
--   Core/Thread: the loop of src/core/app_core_thread.cpp over its channel and the core.
--   Persistence/Replay: src/persistence/replay_engine.cpp.
--   Control: src/c2/sse_manager.cpp and src/c2/b1_registry.cpp.
--   Base: lists, texts, maps and tests that all parts share. Tests: the theorems at concrete inputs.
--
-- The parts interact as in the program: Llm/Decoder makes the events of Shared/Events that
-- Core/Driven handles; Core/Driven schedules its calls through Executor/Graph, which runs commands
-- through Executor/Runner and tools through the interface of Skills.
--
-- The loop of xSanitizeUtf8 has the length of the text as fuel, which is enough since each round takes
-- at least one byte. std::unordered_map is an association list with one entry to a key.
--
-- Exceptions are values: a call of the core ends in `Ran` of Core/Driven/State, which is a return, an
-- exception or a read out of range; the decoder in `Fed`. No exception of the core is caught below the
-- end of its thread. The process id and the chunk number of a message are not narrowed to int where
-- it is read; a message that the program wrote has them as ints.
--
-- Not modelled: processes, pipes and signals, HTTP, the terminal, SQL; the schema of manifests; how the
-- supervisor starts and ends; the server's listener; start-up.
mod Base
pub mod Shared
pub mod Ipc
pub mod Llm
pub mod Skills
pub mod Executor
pub mod Core
pub mod Persistence
pub mod Control
pub mod Supervisor
pub mod Tests
