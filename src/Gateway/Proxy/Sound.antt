-- ===== src/Gateway/Proxy/Sound.antt =====
-- The table of rules of the proxy: what may come of a request.
use hide_server.Base.{
  In, str_dec, str_key, nat_key, lookup, Map, String, ◌≡◌, refl, sym, subst, ◌∙◌, ◌≢◌, ◌⊎◌, inl,
  inr, ite, Bool, true, false, Option, none, some, List, [], ◌∷◌, arith, Bool-cases, Option-cases,
}
use hide_server.Gateway.Proxy.{
  Protocol, Translation, Paths, Rule, rules, match_rule, by_method, translate, translation_of,
  Passing, proxy_request, Passing, proxy_request,
}

-- the patterns of the messages
abbrev pub patterns : List String
patterns = "fs:open" ∷ "fs:close" ∷ "fs:save" ∷ "env.msg" ∷ []

-- a message is sent under one of the patterns
abbrev pub IsMessage : Translation → Type 0
IsMessage t = (t.target ≢ Protocol.http) × (p : String) × (t.pattern ≡ some p) × In p patterns

-- a translation is an HTTP request or a message
abbrev pub IsSound : Translation → Type 0
IsSound t = (t.target ≡ Protocol.http) ⊎ IsMessage t

abbrev pub AllSound : Map String Translation → Type 0
AllSound [] = Unit
AllSound ((k, t) ∷ m) = IsSound t × AllSound m

abbrev pub AllSoundPaths : Paths → Type 0
AllSoundPaths [] = Unit
AllSoundPaths ((k, m) ∷ ps) = AllSound m × AllSoundPaths ps

abbrev pub AllSoundRules : List Rule → Type 0
AllSoundRules [] = Unit
AllSoundRules (r ∷ rs) = AllSoundPaths r.paths × AllSoundRules rs

abbrev Sound? : Option Translation → Type 0
Sound? none = Unit
Sound? (some t) = IsSound t

either : {A B : Type 0} (P : A → Type 0) (d : Dec B) (x y : A) → P x → P y → P (ite d x y)
either P (yes e) x y h k = h
either P (no ne) x y h k = k

method_sound :
    (method : String) (m : Map String Translation) → AllSound m → Sound? (lookup method m)
unfolding lookup
method_sound method [] h = tt
method_sound method ((k, t) ∷ m) h =
    either Sound? (str_dec k method) (some t) (lookup method m) h.0 (method_sound method m h.1)

path_sound :
    (path method : String) (ps : Paths)
    → AllSoundPaths ps
    → Sound? (by_method method (lookup path ps))
unfolding lookup
path_sound path method [] h = tt
path_sound path method ((k, m) ∷ ps) h =
    either (λ o. Sound? (by_method method o)) (str_dec k path) (some m) (lookup path ps)
      (method_sound method m h.0) (path_sound path method ps h.1)

translate_sound :
    (rule : Rule) (path method : String)
    → AllSoundPaths rule.paths
    → Sound? (translate rule path method)
unfolding translate
translate_sound rule path method h =
    elim (Option-cases (by_method method (lookup path rule.paths))) [
      | inl e ↦ rw (e, translate) (path_sound "*" method rule.paths h)
      | inr (t, e) ↦ rw (e, translate) (subst Sound? e (path_sound path method rule.paths h))
    ]

rule_sound :
    (minimatch : String → String → Bool) (service : String) (rs : List Rule) (rule : Rule)
    → AllSoundRules rs
    → match_rule minimatch service rs ≡ some rule
    → AllSoundPaths rule.paths
unfolding match_rule
rule_sound minimatch service [] rule h e = cc
rule_sound minimatch service (r ∷ rs) rule h e = elim (Bool-cases (minimatch service r.service)) [
  | inl b ↦ subst (λ x. AllSoundPaths x.paths) (found_lem b) h.0
  | inr b ↦ rule_sound minimatch service rs rule h.1 (rest_lem b)
]
  where
    found_lem : minimatch service r.service ≡ true → r ≡ rule
    found_lem b = ground arith

    rest_lem : minimatch service r.service ≡ false → match_rule minimatch service rs ≡ some rule
    rest_lem b = ground arith

redis_http : Protocol.redis ≢ Protocol.http
redis_http e = cc e

nats_http : Protocol.nats ≢ Protocol.http
nats_http e = cc e

rules_sound : AllSoundRules rules
rules_sound = (
  ((inl refl, tt), ((inl refl, tt), ((inl refl, tt), ((inl refl, tt), ((inl refl, tt), tt))))),
  (
    ((inl refl, tt), ((inl refl, tt), ((inl refl, tt), tt))),
    (
      (
        (inr (redis_http, "fs:open", refl, inl refl), tt),
        (
          (inr (redis_http, "fs:close", refl, inr (inl refl)), tt),
          (
            (inr (redis_http, "fs:open", refl, inl refl), tt),
            (
              (inr (redis_http, "fs:close", refl, inr (inl refl)), tt),
              ((inr (redis_http, "fs:save", refl, inr (inr (inl refl))), tt), tt),
            ),
          ),
        ),
      ),
      (
        (
          (inl refl, tt),
          (
            (inl refl, tt),
            (
              (inl refl, tt),
              ((inl refl, tt), ((inl refl, tt), ((inl refl, tt), ((inl refl, tt), tt)))),
            ),
          ),
        ),
        (
          ((inl refl, tt), tt),
          (
            (
              (inr (nats_http, "env.msg", refl, inr (inr (inr (inl refl)))), tt),
              ((inr (nats_http, "env.msg", refl, inr (inr (inr (inl refl)))), tt), tt),
            ),
            tt,
          ),
        ),
      ),
    ),
  ),
)

translation_of-IsSound :
    (minimatch : String → String → Bool) (service path method : String) (t : Translation)
    → translation_of minimatch service path method ≡ some t
    → IsSound t
unfolding translation_of
translation_of-IsSound minimatch service path method t e =
    elim (Option-cases (match_rule minimatch service rules)) [
      | inl f ↦ subst Sound? (sym (missing f) ∙ e) tt
      | inr (rule, f) ↦
          subst Sound? (sym (present rule f) ∙ e) (
            translate_sound rule path method
              (rule_sound minimatch service rules rule rules_sound f))
    ]
  where
    missing :
        match_rule minimatch service rules ≡ none
        → translation_of minimatch service path method ≡ none
    missing f = rw (f, translation_of) refl

    present :
        (rule : Rule)
        → match_rule minimatch service rules ≡ some rule
        → translation_of minimatch service path method ≡ translate rule path method
    present rule f = rw (f, translation_of) refl

-- What is made of a request: an HTTP request to the same service and path, by a translation whose
-- target is HTTP, or a message by one whose target is not, under one of the patterns.
abbrev pub IsRight : Translation → String → String → Passing → Type 0
IsRight t service path (Passing.send_request s p) =
    (t.target ≡ Protocol.http) × (s ≡ service) × (p ≡ path)
IsRight t service path (Passing.send_message t') = (t' ≡ t) × IsMessage t

some_inj : {A : Type 0} {a b : A} → some a ≡ some b → a ≡ b
some_inj e = cc e

message : (t : Translation) → IsSound t → t.target ≢ Protocol.http → IsMessage t
message t (inl e) n = absurd (n e)
message t (inr m) n = m

passes :
    (t : Translation) (service path : String) (p : Passing) (g : Protocol)
    → t.target ≡ g
    → IsSound t
    → elim g [
      | Protocol.http ↦ some (Passing.send_request service path)
      | _ ↦ some (Passing.send_message t)
    ]
      ≡ some p
    → IsRight t service path p
passes t service path p Protocol.http e h q =
    subst (IsRight t service path) (some_inj q) (e, refl, refl)
passes t service path p Protocol.redis e h q =
    subst (IsRight t service path) (some_inj q) (refl, message t h (λ k. redis_http (sym e ∙ k)))
passes t service path p Protocol.nats e h q =
    subst (IsRight t service path) (some_inj q) (refl, message t h (λ k. nats_http (sym e ∙ k)))

-- Whatever the matching of the names, a request is passed on only by a translation of the table: to
-- the same service and path if the translation's target is HTTP, and as a message under one of the
-- four patterns if it is not.
pub proxy_request-IsRight :
    (minimatch : String → String → Bool) (service path method : String) (p : Passing)
    → proxy_request minimatch service path method ≡ some p
    → (t : Translation) × (translation_of minimatch service path method ≡ some t)
      × IsRight t service path p
unfolding proxy_request
proxy_request-IsRight minimatch service path method p =
    go (translation_of minimatch service path method) refl
  where
    go :
        (o : Option Translation)
        → translation_of minimatch service path method ≡ o
        → elim o [
          | none ↦ none
          | some t ↦ elim t.target [
            | Protocol.http ↦ some (Passing.send_request service path)
            | _ ↦ some (Passing.send_message t)
          ]
        ]
          ≡ some p
        → (t : Translation) × (o ≡ some t) × IsRight t service path p
    go none f e = cc e
    go (some t) f e = (
      t,
      refl,
      passes t service path p t.target refl
          (translation_of-IsSound minimatch service path method t f) e,
    )
