-- ===== src/Lib.antt =====
-- The hide platform gives its users development environments in the browser. Clients hold a socket
-- to one of several gateways; the gateways share a cache, route the messages of a session to the
-- environment that it has open, and give sessions and environments up by timers. The workspace
-- service keeps workspaces, their members, invitations and access codes in tables; the
-- notification service stores and spreads what users are to know. An environment's instance holds
-- the documents that several users edit, the terminals, and the watches of directories; it shares
-- the cache with the gateways.
--
-- How the files correspond to the code:
--   Base and Base/ hold the shared types: texts, lists, maps in insertion order, and service
--     methods as functions from a state to a result and a state. What a method wrote before an
--     exception stays written.
--   Cache and Cache/Keys model libs/common/cache: the cached types and the texts of the keys.
--   Platform holds the messages of libs/common/message and the world that every handler works on:
--     the cache, the locks that are held, and what has been sent.
--   Gateway/Membership models gateway/src/socket/membership.service.ts; Loops and Laws prove of it.
--   Gateway/Presence models gateway/src/socket/presence.service.ts; Workspaces, Telling, Frame and
--     Sessions prove what the end of a workspace or of a session's timer does, and what it leaves
--     alone.
--   Gateway/Socket models gateway/src/socket/socket.gateway.ts; Connections and Disconnections are
--     about sessions and their locks, Delivery about messages that are not passed on.
--   Gateway/Timers has the events that reach the gateways as steps of a relation, in any order;
--     Keeping, Timed and Endings go through the handlers, Invariant through the sequences of steps.
--   Gateway/Proxy models gateway/src/proxy/translations.ts and proxy.controller.ts; Sound is about
--     the table of its rules.
--   Gateway/Public/Names and Accounts model gateway/src/public, Gateway/Public/Guards
--     gateway/src/common/guard; Seeding is about the filter of names, Removal about what stays
--     cached of a deleted user, Entry about whom a guard lets in.
--   Workspaces holds the tables (workspace/src/common/model); Workspaces/Invite models
--     workspace/src/invite/invite.service.ts; Workspaces/Manage, Manage/Deletion, Owned, Access
--     and Capacity model workspace/src/manage/manage.service.ts; Workspaces/Codes models
--     workspace/src/utils/index.ts. Roster, Members, Tables, Owned/Laws and Access/Laws prove what
--     operations leave of the tables, Capacity/Units what a node's quantity of processors counts
--     for.
--   Users models user/src/profile/profile.service.ts; Users/Laws is about the documents of users.
--   Notifications models notification/src/app.service.ts.
--   Env holds the state of an environment's instance (its documents, the bursts and batches of its
--     workspaces, its connections) and the answers of what is outside. Env/Sessions is about whom
--     it writes to. Env/Files with Bursts and Batches models env/src/core/fs.service.ts,
--     Env/Documents env/src/utils/shareddoc.ts and what sync.service.ts does with one document,
--     Env/Sync and Sync/Messages the rest of env/src/core/sync.service.ts, Env/Terminals
--     env/src/core/sshproxy.service.ts, Env/Locks, Opening, Closing and Requests
--     env/src/core/workspace.service.ts, Env/Channels env/src/core/core.controller.ts.
--     Files/Watchers, Watching, Framing and Listing take the watchers as a set, Files/Counting and
--     Bounds count the events of a burst; Unlocking and Released follow the locks, Restoring and
--     Leaving the watchers of a user who closes a workspace; Sync/Filed, Users, Opened and Left go
--     through the handlers of documents, Picking, Processing and Keeping through a batch, Reached
--     through sequences of steps; Conflicts and Losing show documents that handlers give up.
--   The modules called Tests apply the theorems to small concrete states.
--
-- A handler runs as one step: the awaits inside it are not interleaved with other handlers, except
-- where a theorem is about two requests whose parts alternate (access codes). A lock is a name in a
-- list; a handler that finds it held fails, as after the last retry, and a lock lapses in a step of
-- its own. Times are numbers that the caller gives.
--
-- Other services are parameters: the answers to the check of a membership, to an authentication,
-- to a health check and to the disposal of an environment (Gateway.Services); tokens, random
-- identifiers, profiles, what the database accepts and, by the state that it would leave, whether
-- it commits a transaction (Workspaces.Outside); mail, and how a query treats an undefined value
-- (Workspaces.Access.AccessOutside); the quantities of the cluster (Workspaces.Capacity.Cluster);
-- the matching of service names (an argument in Gateway.Proxy); what the public routes ask of
-- others, the lower case of a text, and the filter of names, whose state is the history of its
-- calls (Gateway.Public.Web); the number of a user's providers (Users.Accounts). The database of
-- users always answers in Users. The random bytes of a code are a list of passes, which takes the
-- place of fuel: a code is drawn as soon as they hold enough bytes.
--
-- Of the environment, what a workspace's container, other instances and the provisioner answer is
-- a parameter of each handler (Env.Remote), and so are Yjs and its protocols (Env.Yjs): a document
-- is the history of what was done to it, and its text a function of that. A debounced call is a
-- flag that says that it is due, and a step that runs it; a callback of an ssh connection is an
-- operation of its own. That a handler runs as one step also holds of the environment, so that
-- events which join a batch while it is processed are not seen here. Quantities of processors are
-- texts with digits at the front, as Kubernetes writes them, and a flush that is due for a
-- document that openFile drops with its workspace's map is not run.
--
-- Not modelled: the listener of a gateway's own channel and its shutdown, the listing of
-- workspaces with profiles, the search of the user service, the clients of third-party systems,
-- and the parts in other languages (auth, provisioner, lease-controller, logging, deployment).
pub mod Base
pub mod Cache
pub mod Platform
pub mod Gateway
pub mod Workspaces
pub mod Notifications
pub mod Users
pub mod Env
