-- ===== src/Gateway/Public/Seeding.antt =====
-- The filter of names, once it has been filled from the database, beside the database.
use hide_server.Base.{str_key, nat_key, keys, String, ◌≡◌, refl, true, List, [], ◌∷◌, ◌++◌, ok}
use hide_server.Gateway.Public.{FilterCall, Front, Web, added}
use hide_server.Gateway.Public.Names.{call, release_init}

-- What the filter promises: a name that is added is found, and stays so when others are added.
pub record IsFilter (web : Web) : Type 0 where
  pub finds : (h : List FilterCall) (v : String) → web.contains (h ++ added v ∷ []) v ≡ true
  pub keeps :
      (h : List FilterCall) (v u : String)
      → web.contains h v ≡ true
      → web.contains (h ++ added u ∷ []) v ≡ true
  -- no call is refused
  pub takes : (h : List FilterCall) (c : FilterCall) → web.accepts h c ≡ true

abbrev appended : List FilterCall → List String → List FilterCall
appended h [] = h
appended h (name ∷ names) = appended (h ++ added name ∷ []) names

pub call_lem :
    (web : Web) (c : FilterCall) (s : Front)
    → web.accepts s.names c ≡ true
    → call web c s ≡ (ok tt, record s { names = s.names ++ c ∷ [] })
unfolding call
call_lem web c s a = rw a refl

abbrev IsSeeded : Front → Front → Type 0
IsSeeded s s' =
    (h : List FilterCall) × (s' ≡ release_init (record s { names = appended h (keys s.users) }))
