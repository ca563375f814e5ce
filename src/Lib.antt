-- ===== src/Lib.antt =====
-- The agent of dockpal: a process beside a docker daemon that a server drives, directly over HTTP or
-- through a websocket that the agent opens (edge mode). This library models its Go code, as far as
-- it computes: what it parses, what it refuses, which calls it makes and what it sends.
--
-- - Edge (internal/edge): `handleRequest` and `handleStackRequest` with the streams of logs, stats
--   and deployments. A handler is a state-passing function that records the calls it makes of
--   packages docker and host and the frames that it sends; what the calls come to, a result, an
--   error or a panic, is a parameter and may depend on the calls before. What channels, tickers and
--   readers deliver is a list of steps; a loop whose steps run out is still waiting. The session's background goroutine, the
--   connection loop and the socket are not modelled.
-- - Compose (internal/docker/compose.go): the dependency order and the parsers of ports, volumes,
--   environment, labels and commands. A Go map is a list of entries in the order of its iteration,
--   so that a theorem for every list covers every order. The recursion of `topologicalSort` takes
--   fuel, two more than there are keys: the stack holds different keys and at most one other name.
-- - ServiceLabel (internal/docker/compose_labels.go): `SetServiceLabel` on the tree of yaml.v3, whose
--   parser, printer and decoder are parameters.
-- - Files (internal/docker/files.go): the validation of container ids and paths, and the commands that
--   ListFiles, ReadFile, WriteFile and DeleteFile run in a container. The daemon is a parameter; what
--   is asked of it is recorded.
-- - Stack (internal/docker/stack_store.go, locks of internal/composecli): the names and directories of
--   stacks, SaveStack and GetStack on a disk whose operations may fail, the global environment, and
--   the lifecycle operations under their lock. `World` is the disk, the locks held and the commands
--   run; `Outside` holds the parsers, the failures and the answers of docker.
-- - Exec (internal/docker/exec.go): how `ExecCommand` splits docker's output stream, with a cap on what
--   is kept. Its loop takes fuel, twice the length of the stream and one more.
-- - Auth (internal/auth/middleware.go): which requests `TokenMiddleware` serves.
-- - Deploy (internal/docker/compose.go, images.go and deploy_stream.go): what DeployCompose,
--   StopCompose, RemoveCompose and DeployComposeStreamed ask of the docker daemon and of the disk. The
--   operations are a log; their answers are a parameter and may depend on the log. An outcome is a
--   result, an error or a panic (network.MustParsePort). The session of a streamed deployment is its
--   channel of 50 places with what its reader has received; how much the reader receives before each
--   event is a parameter. The manager of the sessions is an association list.
-- - Server (internal/server/routes.go, stacks.go and apps.go): the handlers of the direct mode, over the
--   same calls as Edge, which do not panic here (the server's Recoverer middleware catches a panic), with
--   the token middleware of Auth before them. `Route` is what the router has
--   chosen; `Outside` holds what tickers, readers and channels deliver. A socket loop says whether it
--   has returned.
-- - Containers (internal/docker/containers.go): RemoveContainer and EditContainer, with the recreation of
--   the container, as a log of what is asked of the daemon, whose answers are a parameter. A CPU limit
--   is the nanocpus that it is converted to.
-- - Apps (internal/docker/apps.go): `ListApps`, from the daemon's two lists of containers. Package sort
--   is an insertion sort; what is sorted has different names.
-- - Config (internal/config/config.go, `runHealthcheck` of main.go): the configuration from the
--   environment, and the scheme and port that the health check reads there.
-- - FilePath: `Clean` and `Join` of path/filepath.
-- - Base: lists over native numbers, Go's strings as lists of bytes, Go's (value, error) pairs.
--
-- Not modelled: the router's choice of a route, the listener and its certificates, the background
-- goroutines behind the answers of the handlers, the listing, inspection and statistics of single
-- containers, the timeout of exec, host statistics and the enrolment.

pub mod Apps
pub mod Auth
pub mod Base
pub mod Compose
pub mod Config
pub mod Containers
pub mod Deploy
pub mod Edge
pub mod Exec
pub mod FilePath
pub mod Files
pub mod Server
pub mod ServiceLabel
pub mod Stack
