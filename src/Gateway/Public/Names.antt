-- ===== src/Gateway/Public/Names.antt =====
-- gateway/src/public/public.service.ts: the names of users, in a filter beside the database.
use hide_server.Base.{
  member, str_key, nat_key, keys, has, ℕ, ◌+◌, String, ite, Bool, true, false, not, ◌&&◌, ◌||◌,
  List, [], ◌∷◌, ◌++◌, ℕ_discrete, Failure, Result, Void, ◌>>◌, leb, if◌then◌else◌, ok, err,
}
use Prim.Native.Char.{Char, code}
use hide_server.Gateway.Public.{FilterCall, Front, Web, Visit, no_answer, reserved, added, removed}
use hide_server.Gateway.Socket.{acquire_lock, drop_lock}

-- the characters that a name must not have, but for white space
abbrev pub excluded : String
excluded = "!@#$%^&*()+={}[]`~:;\"?/<>"

unfoldable pub has_char : Char → String → Bool
has_char c String.[] = false
has_char c (String.◌∷◌ d s) = ite (ℕ_discrete (code d) (code c)) true (has_char c s)

-- `\s`
unfoldable pub is_space : ℕ → Bool
is_space n =
    leb 9 n && leb n 13
    || member n (32 ∷ 160 ∷ 5760 ∷ [])
    || leb 8192 n && leb n 8202
    || member n (8232 ∷ 8233 ∷ 8239 ∷ 8287 ∷ 12288 ∷ 65279 ∷ [])

unfoldable pub all_allowed : String → Bool
all_allowed String.[] = true
all_allowed (String.◌∷◌ c s) = not (has_char c excluded) && not (is_space (code c)) && all_allowed s

-- the length of a text in units of UTF-16
unfoldable pub units_of : String → ℕ
units_of String.[] = 0
units_of (String.◌∷◌ c s) = (if leb 65536 (code c) then 2 else 1) + units_of s

-- `usernameRegex.test`
unfoldable pub validate_username : String → Bool
validate_username name = leb 3 (units_of name) && all_allowed name

abbrev pub filter_error : Failure
filter_error = record { status = 0; message = "ReplyError" }

-- a call that changes the filter: it is taken, or it is an error
unfoldable pub call : Web → FilterCall → Visit Void
call web c s =
    if web.accepts s.names c
    then (ok tt, record s { names = s.names ++ c ∷ [] })
    else (err filter_error, s)

unfoldable pub cuckoo_check : Web → String → Front → Bool
cuckoo_check web value s = web.contains s.names value

unfoldable pub cuckoo_add : Web → String → Visit Void
cuckoo_add web value = call web (added value)

unfoldable pub cuckoo_remove : Web → String → Visit Void
cuckoo_remove web value = call web (removed value)

unfoldable pub cuckoo_reserve : Web → ℕ → Visit Void
cuckoo_reserve web capacity = call web (reserved capacity)

unfoldable pub add_username : Web → String → Visit Void
add_username web name = cuckoo_add web (web.lower name)

unfoldable pub remove_username : Web → String → Visit Void
remove_username web name = cuckoo_remove web (web.lower name)

-- the database is asked only if the filter has the name
unfoldable pub ask_database : Web → String → Visit Bool
ask_database web name s =
    if web.answers then (ok (not (has name s.users)), s) else (err no_answer, s)

abbrev pub invalid_username : Failure
invalid_username = record { status = 400; message = "INVALID_USER_USERNAME" }

-- `available`
unfoldable pub check_username_existence : Web → String → Visit Bool
check_username_existence web name s =
    if not (validate_username name)
    then (err invalid_username, s)
    else if cuckoo_check web (web.lower name) s
    then ask_database web name s
    else (ok true, s)

-- All names are added, whether or not others fail; the whole fails if one does.
unfoldable pub add_rest : Result Void → Result Void × Front → Result Void × Front
add_rest (ok _) rest = rest
add_rest (err e) (r, s) = (err e, s)

unfoldable pub add_all : Web → List String → Visit Void
add_all web [] s = (ok tt, s)
add_all web (name ∷ names) s =
    add_rest (cuckoo_add web name s).0 (add_all web names (cuckoo_add web name s).1)

abbrev pub init_lock : String
init_lock = "locks:usernames_cuckoo_init"

unfoldable pub release_init : Front → Front
release_init s = record s { world = record w { locks = drop_lock init_lock w.locks } }
  where
    open s use {world as w}

-- the lock is given back only if all has gone well
unfoldable pub populated : Result Void × Front → Front
populated (ok _, s) = release_init s
populated (err _, s) = s

-- the names as they stand in the database
unfoldable pub populate : Web → Visit Void
populate web s =
    if web.answers then (ok tt, populated (add_all web (keys s.users) s)) else (ok tt, s)

abbrev pub capacity : ℕ
capacity = 100000

unfoldable pub seed : Web → Visit Void
seed web s = if web.is_there s.names then populate web s else seed_new s
  where
    seed_new : Visit Void
    seed_new = cuckoo_reserve web capacity >> populate web

-- An error, of the lock as well as of the filter, is passed over.
unfoldable pub on_module_init : Web → Visit Void
on_module_init web s =
    let (r, w) = acquire_lock init_lock s.world in
    let seeded = (seed web (record s { world = w })).1 in
    elim r [ ok _ ↦ (ok tt, seeded) | err _ ↦ (ok tt, s) ]
