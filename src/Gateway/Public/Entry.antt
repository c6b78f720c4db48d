-- ===== src/Gateway/Public/Entry.antt =====
-- Whom the guard of the gateway's routes lets in.
use hide_server.Base.{
  str_dec, str_key, nat_key, values, lookup-insert_self, String, ◌≡◌, refl, sym, subst, ◌⊎◌, inl,
  inr, ite, Bool, true, false, not, Option, none, some, Failure, Result, pure, throw, or_throw,
  ◌>>=◌, ◌>>◌, throw_if, if◌then◌else◌, ok, err,
}
use hide_server.Gateway.Public.{
  User, Front, Web, Visit, Reply, Body, get_profile, set_profile, no_answer, unauthorized,
}
use hide_server.Gateway.Public.Accounts.{is_ok, no_object}
use hide_server.Gateway.Public.Guards.{
  Request, Passage, given, bearer, register_path, profile_in, find_profile, check_profile,
  authenticate, failing_as, fetch_failed, auth_guard, fetch_failed,
}

-- Whoever is let in with a request in the state: the auth service has vouched for the user by the
-- request's token, and either the user is registering, or has a profile that is now cached.
pub record IsVouched (web : Web) (req : Request) (u : User) : Type 0 where
  pub token : String
  pub reply : Reply
  pub body : Body
  pub carries : given req.authorization ≡ some token
  pub replies : web.validate (bearer token) ≡ some reply
  pub accepts : is_ok reply ≡ true
  pub has_body : reply.body ≡ some body
  pub names : body.user ≡ some u

abbrev pub IsKnown : Request → User → Front → Type 0
IsKnown req u s = (req.path ≡ register_path) ⊎ ((p : User) × (get_profile u.uid s ≡ some p))

-- what a step of the guard ends with: an exception, a refusal, or a passage that is founded
abbrev Founded : (Passage → Front → Type 0) → Result Passage × Front → Type 0
Founded P (ok p, s) = p.passes ≡ true → P p s
Founded P (err e, s) = Unit

module _ {A : Type 0} (P : Passage → Front → Type 0) where
  or_throw-Founded :
      (o : Option A) (e : Failure) (k : A → Visit Passage) (s : Front)
      → ((a : A) → o ≡ some a → Founded P (k a s))
      → Founded P ((or_throw o e >>= k) s)
  or_throw-Founded none e k s h = tt
  or_throw-Founded (some a) e k s h = h a refl

throw_if-Founded :
    (P : Passage → Front → Type 0) (b : Bool) (e : Failure) (k : Visit Passage) (s : Front)
    → (b ≡ false → Founded P (k s))
    → Founded P ((throw_if b e >> k) s)
throw_if-Founded P true e k s h = tt
throw_if-Founded P false e k s h = h refl

failing_as-Founded :
    (P : Passage → Front → Type 0) (e : Failure) (m : Visit Passage) (s : Front)
    → Founded P (m s)
    → Founded P (failing_as e m s)
unfolding failing_as
failing_as-Founded P e m s h = go (m s).0 h
  where
    go :
        (r : Result Passage)
        → Founded P (r, (m s).1)
        → Founded P (elim r [ ok a ↦ (ok a, (m s).1) | err _ ↦ (err e, (m s).1) ])
    go (ok a) k = k
    go (err x) k = tt

abbrev IsAs : Request → User → Passage → Front → Type 0
IsAs req u p s = (p.user ≡ u) × IsKnown req u s

stored :
    (req : Request) (u : User) (s : Front) (o : Option User)
    → Founded (IsAs req u) (elim o as (λ _. Result Passage × Front) [
      | none ↦ (ok (record { passes = false; user = u }), s)
      | some p ↦ (ok (record { passes = true; user = u }), set_profile u.uid p s)
    ])
stored req u s none = λ e. cc e
stored req u s (some p) = λ e. (refl, inr (p, lookup-insert_self u.uid p s.profiles))

asked :
    (req : Request) (u : User) (s : Front) (b : Bool) (r : Result Passage × Front)
    → Founded (IsAs req u) r
    → Founded (IsAs req u) (if not b then (err no_answer, s) else r)
asked req u s true r h = h
asked req u s false r h = tt

cached :
    (req : Request) (u : User) (s : Front) (o : Option User) (r : Result Passage × Front)
    → get_profile u.uid s ≡ o
    → Founded (IsAs req u) r
    → Founded (IsAs req u) (elim o as (λ _. Result Passage × Front) [
      | some _ ↦ (ok (record { passes = true; user = u }), s)
      | none ↦ r
    ])
cached req u s (some p) r q h = λ e. (refl, inr (p, q))
cached req u s none r q h = h

find_profile-Founded :
    (web : Web) (req : Request) (u : User) (s : Front) → Founded (IsAs req u) (find_profile web u s)
unfolding find_profile
find_profile-Founded web req u s =
    cached req u s (get_profile u.uid s) _ refl
      (asked req u s web.answers _ (stored req u s (profile_in u.uid (values s.users))))

check_profile-Founded :
    (web : Web) (req : Request) (u : User) (s : Front)
    → Founded (IsAs req u) (check_profile web req u s)
unfolding check_profile
check_profile-Founded web req u s =
    elim (str_dec req.path register_path)
      as (λ d.
        Founded (IsAs req u)
          (ite d (pure (record { passes = true; user = u })) (find_profile web u) s)) [
            | yes q ↦ λ e. (refl, inl q)
            | no n ↦ find_profile-Founded web req u s
          ]

abbrev LetsIn : Web → Request → Passage → Front → Type 0
LetsIn web req p s = IsVouched web req p.user × IsKnown req p.user s

-- what is known of the user of the token is known of the user of the passage
as-LetsIn :
    (web : Web) (req : Request) (u : User) (r : Result Passage × Front)
    → IsVouched web req u
    → Founded (IsAs req u) r
    → Founded (LetsIn web req) r
as-LetsIn web req u (err e, s) v h = tt
as-LetsIn web req u (ok p, s) v h =
    λ e. subst (λ x. IsVouched web req x × IsKnown req x s) (sym (h e).0) (v, (h e).1)

not-false : (b : Bool) → not b ≡ false → b ≡ true
not-false true e = refl
not-false false e = cc e

authenticate-Founded :
    (web : Web) (req : Request) (token : String) (s : Front)
    → given req.authorization ≡ some token
    → Founded (LetsIn web req) (authenticate web req token s)
unfolding authenticate
authenticate-Founded web req token s c =
    or_throw-Founded P (web.validate (bearer token)) fetch_failed with_reply s (λ r er.
      throw_if-Founded P (not (is_ok r)) (unauthorized "Invalid token") (with_accepted r) s (λ k.
        or_throw-Founded P r.body no_object with_body s (λ b eb.
          or_throw-Founded P b.user no_object (check_profile web req) s (λ u eu.
            as-LetsIn web req u (check_profile web req u s)
              (record {
                token = token;
                reply = r;
                body = b;
                carries = c;
                replies = er;
                accepts = not-false (is_ok r) k;
                has_body = eb;
                names = eu;
              })
              (check_profile-Founded web req u s)))))
  where
    P : Passage → Front → Type 0
    P = LetsIn web req

    with_body : Body → Visit Passage
    with_body b = or_throw b.user no_object >>= check_profile web req

    with_accepted : Reply → Visit Passage
    with_accepted r = or_throw r.body no_object >>= with_body

    with_reply : Reply → Visit Passage
    with_reply r = throw_if (not (is_ok r)) (unauthorized "Invalid token") >> with_accepted r

auth_guard-Founded :
    (web : Web) (req : Request) (s : Front) → Founded (LetsIn web req) (auth_guard web req s)
unfolding auth_guard
auth_guard-Founded web req s = go (given req.authorization) refl
  where
    go :
        (o : Option String)
        → given req.authorization ≡ o
        → Founded (LetsIn web req) (
            elim o as (λ _. Visit Passage) [
              | none ↦ throw (unauthorized "Authorization header missing")
              | some token ↦
                  failing_as (unauthorized "Authentication failed") (authenticate web req token)
            ]
              s)
    go none c = tt
    go (some token) c =
        failing_as-Founded (LetsIn web req) _ (authenticate web req token) s
          (authenticate-Founded web req token s c)

-- The guard of the users' routes lets a request in only for a user for whom the auth service has
-- vouched by the token that the request carries, and who is registering or has a cached profile
-- afterwards.
pub auth_guard-IsVouched :
    (web : Web) (req : Request) (s s' : Front) (p : Passage)
    → auth_guard web req s ≡ (ok p, s')
    → p.passes ≡ true
    → IsVouched web req p.user × IsKnown req p.user s'
auth_guard-IsVouched web req s s' p e t =
    subst (Founded (LetsIn web req)) e (auth_guard-Founded web req s) t
