-- ===== src/Lib.antt =====
-- A model of MimeCrypt's mail transactions. A source device produces a mail envelope, a processor
-- turns it into a processed mail with an execution plan, and sink devices consume it; the
-- coordinator drives the transaction, persists its state after each step, and deletes and
-- acknowledges the message at its source. A topology of named credentials, sources, sinks and routes
-- says which parts there are. A command selects a route and its sources, compiles them to runs, and
-- runs a cycle over the messages of each source.
--
-- Which file models which part:
--   Mailflow/Types, Plan, Ports, Errors   internal/mailflow/types.go: the values of a transaction,
--       ExecutionPlan.Validate and DeliveryTarget.Key, the interfaces, the sentinel errors.
--       DeleteSemantics is from internal/provider/contracts.go.
--   Mailflow/FileStore   internal/mailflow/file_store.go; FileStore/Refines compares it with a map from
--       paths to states.
--   Mailflow/Coordinator   internal/mailflow/coordinator.go: Policy has the tests on the state,
--       Deliver the loop over the targets, Finish deletion, acknowledgement and completion, Run the
--       whole of Coordinator.Run. Journal says what a run does, seen from outside; Safety and
--       Correct prove it.
--   Mailflow/Runner   internal/mailflow/runner.go: a message from the producer through the
--       coordinator.
--   Provider   internal/provider/contracts.go, capabilities.go and drivers.go: what the program asks
--       of a mail service, and what a driver says of itself.
--   Providers/Registry   internal/providers/registry.go: the drivers and the lookups by name.
--   Providers/Webhook   internal/providers/webhook/ingress.go and config.go, and the replay retention
--       of internal/flowruntime/push.go: Digest has digests, signatures and the window of time
--       stamps, Ingress the settings and Handle; Spooling and Authentic prove what reaches the queue,
--       Window how long a request is acceptable.
--   Adapters/Envelope   internal/mailflow/adapters/reader_envelope.go.
--   Adapters/Polling   internal/mailflow/adapters/provider_polling_producer.go: Feed is what it relies
--       on in the mail service, Progress and Acknowledge have the proofs.
--   Adapters/Push   internal/mailflow/adapters/push_producer.go, over the spool.
--   Adapters/Processors   internal/mailflow/adapters/noop_processor.go, encrypting_processor.go and
--       contextual_processor.go.
--   Adapters/Consumers   internal/mailflow/adapters/file_consumer.go and discard_consumer.go.
--   Adapters/Spool   internal/mailflow/adapters/push_spool.go: Disk has the directories and the
--       primitive steps on them, Queue EnqueueReader and ClaimNext, Ack PrepareAck, FinalizeAck and
--       RequeueProcessing. Operations puts them in sequence; Steps, Cleanup, Enqueue, Loss, Keeping,
--       Markers, Replay, Torn, Waiting, Claiming and Requeueing hold the proofs.
--   Appconfig   internal/appconfig/topology.go, instance_model.go and credential_kind.go: Topology has
--       the entries and their validation, Lookup the named and default entries and
--       ResolveCredentialRef, Validate the routes, the whole topology and Normalize. Entries, Routes
--       and Structure hold the proofs.
--   Appconfig/Config, Names, Urls, Overrides, Platform   internal/appconfig/config.go, state_layout.go,
--       credential_config.go, local_config.go and topology_file.go: the settings and their validation,
--       the names of state files, the URLs that are trusted, and the settings of a credential.
--       Platform is what they use of Go's library.
--   Flowruntime/Select, Resolve   internal/flowruntime/plan.go: the choice of the route and of its
--       sources, and ResolveRoutePlan. Selected and Runnable have the proofs.
--   Flowruntime/Build, Valid   internal/flowruntime/build.go: the execution plan of a route.
--   Flowruntime/Cycle   internal/flowruntime/source_executor.go: runSourceCycle; Cycle/Rounds compares it
--       with the list of what its rounds report.
--   Mimefile   internal/mimefile/store.go.
--   Fileutil   internal/fileutil/atomic.go; Fileutil/Stored is a value kept in a JSON file.
--
-- How the code is represented. A Go function that returns an error is an action
-- `W → Outcome Error A × W` on a world W; what it did before an error stays done. An interface is a
-- record of such actions, and the coordinator's theorems hold for every such record whose calls
-- show in a journal. A string is a sequence of Unicode characters, and letter case is that of
-- ASCII with the characters that have an ASCII letter for their lower case (the Kelvin sign and
-- U+0130) or fold into one (the Kelvin sign and the long s). A map is an association list; where the code tells
-- nil from an empty map, an Option. The aliasing of the attribute map between the state's trace
-- and the processed mail's trace, after a fresh plan was taken over, is modelled. A time is a
-- number of ticks, 0 the zero time, and a retention of 0 stands for one that is not positive. In the
-- spool each call of the operating system fails when the disk's oracle says so, and then changes
-- nothing. A key of the spool is the name of an entry of a directory; what PrepareAck and FinalizeAck
-- do with another key, with which filepath.Join leaves the directory, is a parameter. A difference of
-- times is cut to the longest duration, as Time.Sub does.
--
-- Code outside the repository is a parameter: SHA-256, HMAC and hexadecimal text, the parsers of
-- times, URLs and IP addresses, unicode.IsLetter and unicode.IsDigit, path/filepath, the file calls
-- behind a JSON file. So are the detector, the encryptor and the auditor of a processor, and the
-- probes and clients behind a driver. Of a JSON text only its value and whether it parses are kept.
--
-- Fuel. Every loop goes over a list, except that of runSourceCycle, which has no bound in the source:
-- Flowruntime/Cycle runs it on fuel and answers `none` when that runs out. If its rounds come to an end,
-- fuel that is more than the number of messages they report is enough; they need not, since a message
-- that is pending at its source after its transaction was completed is offered again and again
-- (Flowruntime/StuckTests).
--
-- Not modelled: cancellation, except as an error of a call; mutexes and the interleaving of
-- concurrent methods; what a RemoveAll that fails halfway has removed; the removal of the temporary
-- directory of an encryption that failed; the contents of the staging directory, which nothing reads
-- back; LoadFromEnv and the decoding of settings from JSON; the HTTP server around Handle, and the
-- goroutines of the source executor. Not part of the model: the memory state store, whose clone shares
-- empty maps with the caller, so that its states are no values; the backup and write-back consumers;
-- building consumers and token sources for a run; package encrypt; authentication and the token stores;
-- the credential plan; the clients of IMAP, Graph and EWS; and the command line.
pub mod Base
pub mod Mailflow
pub mod Fileutil
pub mod Provider
pub mod Mimefile
pub mod Adapters
pub mod Appconfig
pub mod Providers
pub mod Flowruntime
