-- ===== src/Users/Tests.antt =====
-- The theorems on users at a user who takes another's name.
use hide_server.Base.{
  member, str_dec, str_empty, str_key, nat_key, lookup, String, ◌≡◌, refl, ◌≢◌, ite, true, false,
  none, some, [], ◌∷◌, arith, ℕ_discrete, ok,
}
use hide_server.Gateway.Public.{User}
use hide_server.Gateway.Public.Guards.{profile_in}
use hide_server.Gateway.Public.Names.{validate_username, has_char, is_space, all_allowed, units_of}
use hide_server.Users.{
  Directory, CreateUser, Changes, Accounts, validate_create_user, validate_update_user, new_user,
  create_user, with_changes, update_user, is_name, none_excluded, is_line_end, is_given, is_self,
  is_obj_empty,
}
use hide_server.Users.Laws.{Puts, create_user-Puts, update_user-Puts}

abbrev ann : User
ann = record {
  uid = "u1";
  name = "Anna";
  username = "anna";
  email = "anna@example.org";
  picture = "";
  issuer = "password";
  expire_at = none;
}

abbrev bob : User
bob = record ann { uid = "u2"; name = "Robert"; username = "robert" }

abbrev accounts : Accounts
accounts = record { providers = λ uid. some 1 }

-- the name of the other
abbrev wanted : CreateUser
wanted = record { name = "Robert"; username = "anna"; picture = none }

abbrev directory : Directory
directory = record { users = ("anna", ann) ∷ []; profiles = [] }

wanted_valid : validate_create_user wanted ≡ none
unfolding validate_create_user is_name none_excluded is_line_end validate_username has_char is_space
    all_allowed units_of str_dec str_empty member ℕ_discrete
wanted_valid = refl

create_user-Puts_example :
    let (r, s') = create_user accounts "2030" bob wanted directory in
    (r ≡ ok tt) × Puts "anna" (new_user bob wanted 1 "2030") directory s'
unfolding profile_in str_dec
create_user-Puts_example =
    create_user-Puts accounts "2030" bob wanted directory 1 wanted_valid refl refl

-- a change of the own name to another
abbrev changes : Changes
changes = record {
  uid = some "u1";
  name = none;
  username = some "robert";
  email = none;
  picture = none;
  expire_at = none;
}

apart : (s t : String) → ite (str_dec s t) true false ≡ false → s ≢ t
apart s t e = elim (str_dec s t) [ yes h ↦ ground arith | no n ↦ n ]

robert_anna : ◌≢◌ {A = String} "robert" "anna"
unfolding str_dec
robert_anna = apart "robert" "anna" refl

changes_valid : validate_update_user "u1" changes ≡ none
unfolding validate_update_user is_given is_self validate_username has_char is_space all_allowed
    units_of str_dec str_empty member ℕ_discrete
changes_valid = refl

update_user-Puts_example :
    let (r, s') = update_user "u1" changes directory in
    (r ≡ ok tt)
    × Puts "robert" (with_changes changes ann) directory s'
    × (lookup "anna" s'.users ≡ lookup "anna" directory.users)
unfolding profile_in str_dec is_obj_empty is_given str_empty
update_user-Puts_example =
    update_user-Puts "u1" "robert" changes ann directory changes_valid refl refl refl robert_anna
