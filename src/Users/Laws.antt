-- ===== src/Users/Laws.antt =====
-- What a registration and a change of name leave of the documents.
use hide_server.Base.{
  str_dec, str_key, nat_key, lookup, insert, Map, values, lookup-insert, lookup-insert_self, ℕ,
  String, ◌≡◌, refl, sym, ap, subst, ◌∙◌, ◌≢◌, ite, false, none, some, Result, Void, ok,
}
use mathlib.Core.Logic.{if_neg}
use hide_server.Gateway.Public.{User}
use hide_server.Gateway.Public.Guards.{profile_in, given}
use hide_server.Users.{
  Directory, CreateUser, Changes, Accounts, validate_create_user, validate_update_user, new_user,
  register, create_user, is_obj_empty, with_changes, change_doc, update_user, update_doc, text_or,
}

lookup-insert_other :
    (k j : String) (u : User) (m : Map String User) → k ≢ j → lookup j (insert k u m) ≡ lookup j m
lookup-insert_other k j u m n = lookup-insert k j u m ∙ if_neg (str_dec k j) n (some u) (lookup j m)

-- the state holds the document under the name, and the others as before
pub record Puts (name : String) (u : User) (s s' : Directory) : Type 0 where
  pub here : lookup name s'.users ≡ some u
  pub others : (other : String) → name ≢ other → lookup other s'.users ≡ lookup other s.users

create_user_lem :
    (accounts : Accounts) (ends : String) (u : User) (d : CreateUser) (s : Directory) (n : ℕ)
    → validate_create_user d ≡ none
    → profile_in u.uid (values s.users) ≡ none
    → accounts.providers u.uid ≡ some n
    → create_user accounts ends u d s ≡ (ok tt, register u (new_user u d n ends) s)
unfolding create_user
create_user_lem accounts ends u d s n v p a = rw (create_user, v, p, a) refl

-- A valid registration of a user without a document succeeds if Firebase knows the user. The user's
-- document then stands under the name asked for, whatever stood there before, another's document
-- included, and the document under any other name is as before.
pub create_user-Puts :
    (accounts : Accounts) (ends : String) (u : User) (d : CreateUser) (s : Directory) (n : ℕ)
    → validate_create_user d ≡ none
    → profile_in u.uid (values s.users) ≡ none
    → accounts.providers u.uid ≡ some n
    → (let (r, s') = create_user accounts ends u d s in
        (r ≡ ok tt) × Puts d.username (new_user u d n ends) s s')
unfolding register new_user
create_user-Puts accounts ends u d s n v p a =
    subst (λ x. (x.0 ≡ ok tt) × Puts d.username (new_user u d n ends) s x.1)
      (sym (create_user_lem accounts ends u d s n v p a))
      (
        refl,
        record {
          here = lookup-insert_self d.username _ s.users;
          others = λ other ne. lookup-insert_other d.username other _ s.users ne;
        },
      )

change_doc_lem :
    (name : String) (c : Changes) (old : User) (s : Directory)
    → given c.username ≡ some name
    → name ≢ old.username
    → change_doc c old s ≡ (ok tt, record s { users = insert name (with_changes c old) s.users })
unfolding change_doc
change_doc_lem name c old s g n =
    subst (λ x. ite (str_dec x old.username) (update_doc old.username c s) (put x) ≡ put name)
      (sym (ap (λ o. text_or o old.username) g))
      (if_neg (str_dec name old.username) n (update_doc old.username c s) (put name))
  where
    put : String → Result Void × Directory
    put x = (ok tt, record s { users = insert x (with_changes c old) s.users })

update_user_lem :
    (uid name : String) (c : Changes) (old : User) (s : Directory)
    → validate_update_user uid c ≡ none
    → is_obj_empty c ≡ false
    → profile_in uid (values s.users) ≡ some old
    → given c.username ≡ some name
    → name ≢ old.username
    → update_user uid c s ≡ (ok tt, record s { users = insert name (with_changes c old) s.users })
unfolding update_user
update_user_lem uid name c old s v o p g n =
    rw (update_user, v, o, p) (change_doc_lem name c old s g n)

-- A valid change to another name succeeds, and puts the changed document under the new name,
-- whatever stood there before; the document under the old name stays as it is.
pub update_user-Puts :
    (uid name : String) (c : Changes) (old : User) (s : Directory)
    → validate_update_user uid c ≡ none
    → is_obj_empty c ≡ false
    → profile_in uid (values s.users) ≡ some old
    → given c.username ≡ some name
    → name ≢ old.username
    → (let (r, s') = update_user uid c s in
        (r ≡ ok tt)
        × Puts name (with_changes c old) s s'
        × (lookup old.username s'.users ≡ lookup old.username s.users))
update_user-Puts uid name c old s v o p g n =
    subst
      (λ x.
        (x.0 ≡ ok tt)
        × Puts name (with_changes c old) s x.1
        × (lookup old.username x.1.users ≡ lookup old.username s.users))
      (sym (update_user_lem uid name c old s v o p g n))
      (
        refl,
        record {
          here = lookup-insert_self name _ s.users;
          others = λ other ne. lookup-insert_other name other _ s.users ne;
        },
        lookup-insert_other name old.username _ s.users n,
      )
