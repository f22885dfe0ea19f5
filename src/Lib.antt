-- ===== src/Lib.antt =====
-- APFS for Windows: the WinFsp worker and the mount service.
--
-- The program has two processes of its own that this library is about. The service
-- (src/service/apfs_mount_service.cpp) reads the mount configuration, changes it at a client's
-- request, looks at the partition tables of the disks for APFS volumes, adds mounts for them, and
-- keeps one worker process running for each mount. The worker (src/worker/apfs_winfs_worker.cpp)
-- mounts one volume by WinFsp; the names, paths, sizes and times that pass between Windows and the
-- APFS core go through its pure functions.
--
-- Common: Boolean tests, lists, texts as lists of code units (`Text`), and the text functions of Qt
-- as the parameter `Qt`; `ascii_qt` is an instance of it, so that every definition can be run.
-- Worker.Base32, Ea, ApfsPath and Volume model the worker: encodeBase32 and decodeBase32; the rules
-- for names of extended attributes; normalizeApfsPath and the functions that split paths; the write
-- policy, alignAllocation and the conversions of times.
--
-- The worker's class ApfsMountState is a state `Mounted` over a world `W`, which is everything
-- outside the process. Worker.Core has the parameters: `Core` is the reader and writer of APFS,
-- `Host` the files, the clock and the security functions of Windows. Worker.Call is the monad of
-- its methods: a result, a status, or the end of the process, beside the state that is left.
-- Worker.Mount is openTarget, reloadTargetNoLock and resolvePathNoLock; Worker.FileInfo is
-- attributesFor, fillFileInfo and the flags of setBasicInfo; Worker.Commit has the ten functions
-- commit…; Worker.Handle has FileContext with reading, writing, resizing, overwriting and
-- flushing, where the state of a method is the context beside the mount (`Open`); Worker.Mutate
-- has canDelete, deleteFile, renameFile, createHardLink, setBasicInfo and setSecurity;
-- Worker.EaWire and EaCalls have getEa and setEa; Worker.Listing is listDirectory;
-- Worker.Reparse and Links have the symbolic links. Worker.FileSystem has the tables of open and
-- retired contexts, where a pointer is a handle's number, and Worker.Callbacks every callback
-- Fs… as a `Request`, with the relation `History` of the states that callbacks lead to. The
-- modules named Safe show, for every method, which properties of the mount it keeps;
-- Callbacks.Session and Callbacks.ReadOnly put them together. Worker.Example is a small volume,
-- by which the theorems are applied.
--
-- Worker.Process is main and runMount: the options, the parameters of the volume, and the calls
-- of WinFsp that make, place, run and end a file system, among them the one of consoleHandler.
-- QCommandLineParser is a parameter with the law `Parses`.
--
-- Service.Partition models readPartitions and what it calls, over a device given by its reads,
-- where a read past an array is `none`. Service.Config and Service.Control model
-- readMountConfig, writeMountConfig, the commands addMountConfigJson, removeMountConfigJson,
-- setMountConfigJson, setMountEnabledConfigJson and setMountPolicyConfigJson, and
-- applyControlRequest; the file is a value of `ConfigFile`, a JSON document (Service.Json) whose
-- fields are read and written by their keys. Service.Drive is normalizeDriveMount and
-- driveLetterInUse. Service.Target models raw targets (parseRawTarget, rawTargetIdentity,
-- canonicalDiscoveredTarget). Service.Discovery models nextAvailableMount, mergeDiscoveredMounts
-- and canonicalizeDiscoveredMountAliases. Service.Supervisor models startWorker,
-- syncConfiguredWorkers, superviseWorkers and stopWorkers, where processes, the clock and the
-- availability of a target are parameters. Service.Window is WindowDevice. Service.Scan is
-- discoverApfsVolumes over the drives, where opening a drive and detecting a file system are
-- parameters.
--
-- Service.Scm models installService, uninstallService, stopServiceAndWait and the queries, over
-- a service control manager whose state and clock are a parameter (`Manager`); the waiting loop
-- runs on fuel, and one round more than the milliseconds of the timeout is enough, since the
-- clock goes on in each. Service.Main is serviceMain: its start, and its loop as a sequence of
-- steps, each of which is a control that the handler gets or a turn of the loop with all that it
-- meets. Service.Client is the command line: a command writes the configuration itself or asks
-- the service, whose delivery of an answer is a parameter. Worker.Handle.Staged.Spec has the
-- abstract file that staged writes refine.
--
-- Machine integers are the native numbers with their wrap-around written out (`u64`); the
-- counters that are only logged have none. The loops that replace double slashes and that drop
-- slashes at the end run on the path's length as fuel: each round makes the path shorter. The
-- loop that takes symbols of five bits out of the buffer runs on the number of bits in it.
--
-- Not modelled: the APFS core and LZFSE under third_party, which are other projects' libraries;
-- the mutex of the worker, which every callback holds, its tracing, its self tests and what it
-- prints; the memory of the buffers that WinFsp passes, which are values here; the log, the
-- health report, the diagnostics and the self tests of the service, its notifications of
-- devices, the bytes that pass a socket, the text of a JSON document, and the choice of a
-- command in its main function; the manager, the probe tool, the self test and the scripts.
pub mod Common
pub mod Worker
pub mod Service
