-- ===== src/Env/Terminals.antt =====
-- env/src/core/sshproxy.service.ts: a user's ssh connection to a workspace, and its terminals.
use hide_server.Base.{
  member, add_new, for_each, str_dec, str_key, nat_key, lookup, insert, erase, Map, has, String,
  ite, Bool, true, false, Option, none, some, List, [], Void, if◌then◌else◌, ok, err,
}
use hide_server.Cache.{CachedWorkspace}
use hide_server.Platform.{World, Event, SocketMessage, get_workspace, set_workspace}
use hide_server.Gateway.Presence.{type_error}
use hide_server.Env.{Config, Connection, Instance, Task, in_shared, emit, or_empty}

-- `conns[uid]`, and `conns[uid]?.[uuid]`
abbrev pub conns_of : String → Instance → Option (Map String Connection)
conns_of uid s = lookup uid s.conns

unfoldable pub connection_of : String → String → Instance → Option Connection
connection_of uid uuid s = elim (conns_of uid s) [ none ↦ none | some cs ↦ lookup uuid cs ]

unfoldable pub set_connections : String → Map String Connection → Instance → Instance
set_connections uid cs s = record s { conns = insert uid cs s.conns }

abbrev with_sshs : Map String String → CachedWorkspace → CachedWorkspace
with_sshs sshs x = record x { sshs = sshs }

abbrev sshs_for : Config → String → Bool → Map String String → Map String String
sshs_for cfg sid true m = insert sid cfg.instance_id m
sshs_for cfg sid false m = erase sid m

-- `updateConnCache`, up to the terminal that follows a new connection
unfoldable pub update_conn_cache : Config → String → String → Bool → World → World
update_conn_cache cfg sid uuid add w = elim (get_workspace w uuid) [
  | none ↦ w
  | some x ↦ set_workspace uuid (with_sshs (sshs_for cfg sid add x.sshs) x) w
]

-- `handleNewSSHSession` asks the connection for a shell, which `shell_opened` and `shell_failed`
-- answer.
unfoldable pub new_ssh_session : String → String → Task Void
unfolding connection_of
new_ssh_session uid uuid s = elim (connection_of uid uuid s) [
  | none ↦ (err type_error, s)
  | some c ↦ (ok tt, emit (Event.request_shell uid uuid) s)
]

-- `handleNewSSHConnection` connects, which `connection_ready`, `connection_failed` and
-- `connection_closed` answer.
unfoldable pub handle_ssh_connection : String → String → Task Void
unfolding set_connections new_ssh_session
handle_ssh_connection uid uuid s =
    let s' = set_connections uid (or_empty (conns_of uid s)) s in
    elim (lookup uuid (or_empty (conns_of uid s))) [
      | none ↦ (ok tt, emit (Event.connect uid uuid) s')
      | some c ↦ new_ssh_session uid uuid s'
    ]

-- `ready`: the connection is kept, and the first terminal is opened where the workspace is cached
unfoldable pub connection_ready : Config → String → String → String → Task Void
unfolding set_connections update_conn_cache new_ssh_session
connection_ready cfg uid sid uuid s = elim (conns_of uid s) [
  | none ↦ (err type_error, s)
  | some cs ↦
      let s' =
        set_connections uid (insert uuid (record { session_id = sid; sessions = [] }) cs) s in
      elim (get_workspace s.shared uuid) [
        | none ↦ (ok tt, s')
        | some x ↦ new_ssh_session uid uuid (in_shared (update_conn_cache cfg sid uuid true) s')
      ]
]

unfoldable pub connection_failed : String → String → Instance → Instance
connection_failed uid sid =
    emit (Event.socket_send uid sid (SocketMessage.ssh_failed "SSH connection failed"))

unfoldable pub forget_connection : String → String → Instance → Instance
unfolding set_connections
forget_connection uid uuid s = elim (conns_of uid s) [
  | none ↦ s
  | some cs ↦ if has uuid cs then set_connections uid (erase uuid cs) s else s
]

unfoldable pub connection_closed : Config → String → String → String → Instance → Instance
unfolding forget_connection update_conn_cache
connection_closed cfg uid sid uuid s =
    in_shared (update_conn_cache cfg sid uuid false) (forget_connection uid uuid s)

-- `handleSSHData`: a connection of the user must be there for the workspace, if any is
unfoldable pub handle_ssh_data : String → String → String → String → Task Void
handle_ssh_data uid uuid ssh_id input s = elim (conns_of uid s) [
  | none ↦ (ok tt, s)
  | some cs ↦ elim (lookup uuid cs) [
    | none ↦ (err type_error, s)
    | some c ↦
        (ok tt, if member ssh_id c.sessions then emit (Event.stream_write ssh_id input) s else s)
  ]
]

abbrev pub sessions_of : Option Connection → List String
sessions_of none = []
sessions_of (some c) = c.sessions

abbrev pub end_connection : String → String → Option Connection → Instance → Instance
end_connection uid uuid none s = s
end_connection uid uuid (some c) s = emit (Event.disconnect_ssh uid uuid) s

-- `sshSessionId === '#all'`: every terminal, and the connection
unfoldable pub close_all_ssh : Config → String → String → String → Instance → Instance
unfolding connection_of update_conn_cache
close_all_ssh cfg uid sid uuid s =
    let c = connection_of uid uuid s in
    in_shared (update_conn_cache cfg sid uuid false)
      (end_connection uid uuid c (for_each (λ id. emit (Event.stream_close id)) (sessions_of c) s))

unfoldable pub close_ssh : Config → String → String → String → String → Task Void
unfolding update_conn_cache
close_ssh cfg uid sid uuid ssh_id s = elim (conns_of uid s) [
  | none ↦ (ok tt, in_shared (update_conn_cache cfg sid uuid false) s)
  | some cs ↦ elim (lookup uuid cs) [
    | none ↦ (err type_error, s)
    | some c ↦
        let s' = if member ssh_id c.sessions then emit (Event.stream_close ssh_id) s else s in
        (
          ok tt,
          elim c.sessions [ [] ↦ in_shared (update_conn_cache cfg sid uuid false) s' | _ ↦ s' ],
        )
  ]
]

unfoldable pub handle_ssh_close : Config → String → String → String → String → Task Void
unfolding close_all_ssh close_ssh
handle_ssh_close cfg uid sid uuid ssh_id s =
    ite (str_dec ssh_id "#all") (ok tt, close_all_ssh cfg uid sid uuid s)
      (close_ssh cfg uid sid uuid ssh_id s)

abbrev opened_terminal : String → Connection → Connection
opened_terminal ssh_id c = record c { sessions = add_new c.sessions ssh_id }

-- the shell is there, under the identifier that is drawn for it
unfoldable pub shell_opened : String → String → String → String → String → Task Void
unfolding set_connections
shell_opened uid sid uuid client ssh_id s = elim (conns_of uid s) [
  | none ↦ (err type_error, s)
  | some cs ↦ elim (lookup uuid cs) [
    | none ↦ (err type_error, s)
    | some c ↦ (
      ok tt,
      emit (Event.socket_send uid sid (SocketMessage.ssh_opened ssh_id client))
          (set_connections uid (insert uuid (opened_terminal ssh_id c) cs) s),
    )
  ]
]

unfoldable pub shell_failed : Config → String → String → String → Task Void
unfolding handle_ssh_close
shell_failed cfg uid sid uuid s =
    handle_ssh_close cfg uid sid uuid ""
      (emit (Event.socket_send uid sid (SocketMessage.ssh_failed "Failed to start shell")) s)

-- what a terminal writes, and its end; the connection keeps the terminal
unfoldable pub stream_output : String → String → String → String → Instance → Instance
stream_output uid sid ssh_id output =
    emit (Event.socket_send uid sid (SocketMessage.ssh_output ssh_id output))

unfoldable pub stream_closed : String → String → String → Instance → Instance
stream_closed uid sid ssh_id = emit (Event.socket_send uid sid (SocketMessage.ssh_closed ssh_id))
