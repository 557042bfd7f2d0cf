-- ===== src/Lib.antt =====
-- KWS gives its users Ubuntu containers on LXD, WireGuard addresses to reach them, domains behind
-- an nginx proxy, and roles and databases on a Postgres server. The web handlers of src/cmd change
-- the state through the stores of src/internal/store; work on a container is a message on RabbitMQ,
-- which a consumer in src/cmd/instance_utility.go turns into calls of LXD and of the stores, and
-- whose result it puts into Redis.
--
-- State and calls. World holds the rows of the tables in src/internal/database/migrations, the
-- memory of Redis, the map `retries`, and a log of the commands that the services have carried out.
-- An operation is a function from the world to a result, a value or an error, and a world. Each
-- call of a service takes one tick of a clock, and the record Services says, by the tick, whether
-- it fails and what it answers; a call that fails has had no effect. Redis's commands are
-- parameters with the laws RedisLaws and StringLaws, encoding/json is one with the law that reading
-- gives back what was written, LoginLaws says the like of bcrypt, crypto/sha256 and the print of
-- go-redis, and the answers of LXD, of os.Remove and of wgtypes.ParseKey are free. The errors
-- follow src/consts/status/status.go. `exited` is the end of the process by log.Fatal,
-- `nil_dereference` and `index_out_of_range` are panics, `waits_forever` is a receive that never
-- returns; no caller sees any of them. The uniqueness that the tables declare is in the INSERT
-- statements.
--
-- Files, with the code they follow:
--   Prelude: shared names: tests, lists, texts, integers, decimal numerals
--   World: errors, tables, services and the monad; World/Frame for what an operation leaves
--     alone
--   Address: src/internal/wg/ip_allocator.go: CreateIpAllocator, FindNoOfUsableHosts(Docker),
--     GenerateIP(LXC)
--   Allocation: the retry loop that src/internal/store/wg.go and instance.go share in
--     AllocateNextFreeIP
--   Peers: src/internal/store/wg.go: GetDevices, HitMaxLimit, AddPeer, RemovePeer,
--     AllocateNextFreeIP
--   Names: src/models/instance.go: sanitize, CreateInstanceType
--   Instances: src/internal/store/instance.go, all its methods
--   Allocator: src/internal/wg/ip_allocator.go: the methods that change state; PushFreeIp and
--     PopFreeIp of src/internal/store/redis.go
--   Domains: src/internal/store/domains.go, all its methods
--   Nginx: src/internal/nginx/add_template.go, and ReloadNginxConf of
--     src/internal/docker/docker.go
--   Results: src/internal/store/redis.go: the results of jobs
--   Lxd: src/lxd/lxd.go, with the commands run in a container in Lxd/Setup and the calls at the
--     start of the process in Lxd/Boot
--   Jobs: src/cmd/instance_utility.go: deploy, stop, kill, ConsumeMessageInstance; and in
--     Jobs/Broker the queues of src/internal/mq/connect_mq.go
--   Http: the responses of a handler
--   Postgres: src/internal/store/pg_service.go, src/internal/docker/services/pg.go and
--     src/cmd/pg_service_handler.go
--   Wireguard: src/internal/wg/operations.go, and the handlers of src/cmd/wireguard_handler.go
--   Publish: src/cmd/domain_handler.go
--   Tunnels: src/internal/store/tunnels.go
--   Users: the validators of src/models/users.go
--   Auth: src/internal/store/auth.go, the tokens of src/internal/store/redis.go,
--     src/cmd/auth_handler.go, src/cmd/middleware.go, and the login of src/cmd/tunnel_handler.go
--   Queue: src/internal/mq/pool.go, the declarations of src/internal/mq/connect_mq.go, and
--     PushMessageInstance of src/internal/store/messageQueue.go
--   InstanceHandlers: src/cmd/instance_handler.go
--   TunnelHandlers: src/cmd/tunnel_utility.go, and CreateTunnel and DestroyTunnel of
--     src/cmd/tunnel_handler.go
--   Pages: src/cmd/web_handler.go, src/models/web/web.go and src/consts/services/services.go:
--     the data of the pages
--   Untouched: what the stores, the services and the containers leave alone: four tables, the
--     retry counters, the answers to deliveries
--   Routes: src/cmd/routes.go: the table of routes, what is answered to a request, and histories
--     of requests and deliveries
--   Start: src/cmd/main.go: the start of the process
--   Tests: the definitions at concrete inputs
--
-- Bounds. The loop of AllocateNextFreeIP has five rounds, which are the code's own, so its
-- recursion is structural and needs no fuel; every other loop runs over a list. Numbers are natural
-- numbers where the code's are never negative, and integers where -1 is an answer; none comes near
-- 2^63. A text is a list of code points, and one of ASCII letters where bytes count.
--
-- Order of steps. A transaction of AllocateNextFreeIP runs as one step and is undone, but for the
-- clock, unless its COMMIT goes through; what concurrent transactions do to it is that a statement
-- conflicts. The goroutine of a job is run to its end before the next delivery, so interleavings of
-- jobs are not modelled. The consumer's delivery d and the decoding of its body are given.
-- Jobs/Broker has the two queues of instances as a step relation; they are served in order.
--
-- Not modelled: the templates of the web pages, the rate limiter of the login, the times to live of
-- keys in Redis, mail but for its being sent, certificates, and of src/cmd/main.go the
-- configuration, the session manager and the wiring of the structs. The text that a conf template
-- makes is known by what is put into it, and a session by the three values that the code puts into
-- it. chi finds a route as it documents; a static file is known by its path.
pub mod Prelude
pub mod World
pub mod Address
pub mod Allocation
pub mod Peers
pub mod Names
pub mod Instances
pub mod Allocator
pub mod Domains
pub mod Nginx
pub mod Results
pub mod Lxd
pub mod Jobs
pub mod Http
pub mod Postgres
pub mod Wireguard
pub mod Publish
pub mod Tunnels
pub mod Users
pub mod Auth
pub mod Queue
pub mod InstanceHandlers
pub mod TunnelHandlers
pub mod Pages
pub mod Untouched
pub mod Routes
pub mod Start
pub mod Tests
