-- ===== src/Lib.antt =====
-- Verification of tierceron: the Go program that keeps configuration, secrets and templates in a
-- vault, and its flow service, which mirrors vault data into an in memory database.
--
-- Parts and files:
-- Base holds the shared names, Boolean tests, lists and integers. GoStrings models the functions
-- of the package strings that the code calls, on byte lists, and GoNumbers strconv.Atoi,
-- strconv.Itoa and sort.Ints.
-- Logging models pkg/utils/errorUtils.go: each function takes the process state (World) to the
-- state after it. ExitOnFailure is the first argument of a function, and an exit or a panic is a
-- status.
-- PathFilter models FilterPaths of pkg/cli/trcconfigbase/utils/filter.go: Slots is the slot array
-- with its counter, scan the inner loop, scan_all the outer one, collect the last loop.
-- InitFlags models pkg/utils/indexedFlagUtil.go: the flag pointers are a record, and an exit is
-- the reason that is printed. check_init_flags is CheckInitFlags, which sets each flag to its
-- default (init_globals) before its tests (check_values).
-- Versions models pkg/utils/versionUtil.go and RemoveDuplicateValues of pkg/utils/diffUtil.go: Env
-- the names of environments, Projects those of projects and services, Accepted
-- GetAcceptedTemplatePaths of pkg/utils/vaultUtil.go, Unique the removal of duplicates, Numbers
-- the version numbers and the bound check, which exits through Logging.
--
-- Modifier models pkg/vaulthelper/kv/Modifier.go: Paths the full path of each operation
-- (write_path for Write, read_data_path for ReadData, and so on), Retry the loop around a request,
-- Operations Write, List, ListEnv, ReadMetadata, ReadVersionMetadata and SoftDelete, HardDelete
-- and ReadData the functions of these names, Counters AdjustValue, VersionValues GetVersionValues,
-- Templates the walks of getPaths, GetTemplateFilePaths, ListSubsection and FindIndexForService
-- over a tree of folders or over what List answers, Environment PreCheckEnvironment and
-- ValidateEnvironment, Cache the map modifierCache with NewModifier, Release, PruneCache and
-- CleanCache. The vault is a parameter: a function from the number of requests so far and a
-- request to a reply. The channel of a cache entry is a list of at most twenty modifiers; a send
-- on a full one is an outcome, blocked. Calls on the cache come one after another.
--
-- ChangeTracking models the part of the flow service that tracks changed rows. Queries are the
-- query builders of atrium/trcflow/core/context_helper.go, Removal its three remove functions
-- under changesLock, of which remove_entries is the common course, and Triggers the triggers of
-- atrium/trcflow/core/context.go under the lock of the tables. The database is a parameter, a
-- function from the number of queries so far and a query to its rows, or to an error. That a wait
-- for a lock never ends is an outcome, blocked.
--
-- Flow models the core of the flow service, atrium/trcflow/core. Persist is
-- vaultPersistPushRemoteChanges of context_helper.go: persist_entry takes one changed row from its
-- query to the vault and to the remote data source, rotated says how the query of a row turns the
-- arrays of the index columns, and what has been done is a list of the effects of Effects. Rows
-- are Query and QueryWithBindings of atrium/trcdb/db.go over what the cursor of the engine
-- returns. Calls is CallDBQuery, Tables the tables that Init makes and the triggers around the
-- filling of a table, and Cycle SyncTableCycle and the loop of seedVaultCycle, both of context.go:
-- the cycle runs over the list of what arrives on its channels, and calls Persist, which calls
-- Removal of ChangeTracking.
--
-- Statistics models atrium/trcflow/core/dataFlowStatistics.go: the tree of nodes and the fleet
-- that InitArgosyFleet reads from the table of statistics, Updates InitDataFlow,
-- UpdateDataFlowStatistic and EfficientLog, Finish FinishStatistic and FinishStatisticLog,
-- Retrieve RetrieveStatistic. Entries and Fleet follow the rows into the tree, Written and
-- Recorded a statistic from its update to the vault.
--
-- SeedWrites models SeedVaultFromData and WriteData of pkg/trcinit/initlib/vault-seed.go:
-- collections is the loop over the stack of maps, one round for each map of the file, Values the
-- loop over what is written of them, and Writes one write with the modifier from then on, which is
-- one of Modifier. Stack compares the loop with a walk over the tree, Lost follows a write that
-- fails and those behind it.
--
-- SeedFields models pkg/trcx/xencrypt/xencrypt.go: field_validator, get_encryptors, field_reader
-- and field_replacer are the functions of these names, and Prompt is PromptUserForFields. The
-- cipher is a parameter.
--
-- ConfigStore models pkg/cli/trcconfigbase/utils/dataStorePopulator.go. Selection says which paths
-- Init reads and where a file is kept, Links how the links among the values of a path are
-- resolved, Init how the store is filled, Paths is getPaths and GetPathsFromProject over a tree of
-- folders, and VersionData InitTemplateVersionData. Found, Stored and Filled follow the values of
-- one path through Init, Linked, Buckets and Followed one link among them, and Lookup is GetValue
-- on the store. What ReadData answers for a path is a function. GoMaps has the maps of Go with
-- text keys.
--
-- SeedSections models pkg/trcx/extract/xparser.go over the arguments of the actions of a template:
-- to_seed is the loop of ToSeed, parse is Parse, parse_and_set_section is parseAndSetSection,
-- which asks ConfigStore for a value, and Structure has GetInitialTemplateStructure and
-- AppendToTemplateSection. Kept follows a value that stands, Chosen says which value is set
-- (Expected by the parts of the code). Merge is MergeMaps and CombineSection of
-- pkg/trcx/xutil/xmanager.go, Merged follows an entry through them.
--
-- Kube models the argument parsers of atrium/vestibulum/trcsh/kube/native/trckube.go, and Plugins
-- pkg/core/util/properties.go: the section of NewProperties, ResolveTokenName, GetPluginData and
-- WritePluginData, which reads and writes by Modifier.
--
-- Capauth models the checks of hosts and the retried query of pkg/capauth/agentconfig.go, over the
-- endpoints, the domains and the answers of the agent as parameters.
--
-- Numbers: int and uint64 are 64 bits wide, and Atoi saturates as strconv does. Loops are
-- structural recursion on the lists that they run over, or on the number of retries left, so no
-- definition takes fuel, but for the stack of SeedWrites, whose loop is given one round for each
-- map of the file and one more, which is enough. A Go map that is ranged over is a list of its
-- entries in the order of the visit. Functions on text work on the bytes of the string.
--
-- CreateTrigger is taken to succeed where triggers are created, since the code ignores its error,
-- and strings.ToLower is that of ASCII.
--
-- Not modelled: the vault and database clients, the network and file input and output, command
-- line programs that only parse flags and call these parts, and the diff printing; the goroutines
-- of the flow service and the waits on their channels, the one for room in the channel of alerts
-- included, the reads of seed files in pkg/trcx/xutil, and the generated services of trcweb.
pub mod Base
pub mod GoStrings
pub mod GoNumbers
pub mod GoMaps
pub mod Logging
pub mod PathFilter
pub mod InitFlags
pub mod Versions
pub mod Modifier
pub mod ChangeTracking
pub mod Flow
pub mod ConfigStore
pub mod SeedSections
pub mod Statistics
pub mod SeedWrites
pub mod SeedFields
pub mod Kube
pub mod Capauth
pub mod Plugins
