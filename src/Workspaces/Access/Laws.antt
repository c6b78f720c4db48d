-- ===== src/Workspaces/Access/Laws.antt =====
-- The life of an access code.
use hide_server.Base.{
  str_key, nat_key, ℕ, String, ◌≡◌, refl, sym, ap, ◌∙◌, ◌↔◌, inl, inr, Bool, true, false, none,
  some, List, [], ◌∷◌, Failure, Result, ◌>>◌, throw_if, bind_ok, bind_err, ltb, Bool-cases,
  Option-cases, ok, err,
}
use hide_server.Workspaces.{
  unused, used, AccessCode, Site, bad_request, forbidden, not_found, find_by, find_hit, find_miss,
  find_holds, eq_id_self, eq_id,
}
use hide_server.Workspaces.Access.{
  is_used, is_of, code_of, save_code, mark_used, mark_code_as_used, check_code, use_code,
  consume_access_code, reset_access_code,
}

abbrev marked : ℕ → AccessCode → AccessCode
marked now a = record a { status = used; used_at = some now }

some_inj : {A : Type 0} {a b : A} → some a ≡ some b → a ≡ b
some_inj e = cc

module _ (uid code : String) (now : ℕ) where
  mark_hit :
      (c : AccessCode) (cs : List AccessCode)
      → is_of uid code c ≡ true
      → mark_used uid code now (c ∷ cs) ≡ marked now c ∷ mark_used uid code now cs
  unfolding mark_used
  mark_hit c cs b = rw b refl

  mark_miss :
      (c : AccessCode) (cs : List AccessCode)
      → is_of uid code c ≡ false
      → mark_used uid code now (c ∷ cs) ≡ c ∷ mark_used uid code now cs
  unfolding mark_used
  mark_miss c cs b = rw b refl

  find-mark_used :
      (cs : List AccessCode) (a : AccessCode)
      → find_by (is_of uid code) cs ≡ some a
      → find_by (is_of uid code) (mark_used uid code now cs) ≡ some (marked now a)
  unfolding find_by
  find-mark_used [] a e = cc
  find-mark_used (c ∷ cs) a e = elim (Bool-cases (is_of uid code c)) [
    | inl b ↦
        ap (find_by (is_of uid code)) (mark_hit c cs b)
        ∙ find_hit (is_of uid code) (marked now c) _ b
        ∙ ap (λ x. some (marked now x)) (some_inj (sym (find_hit (is_of uid code) c cs b) ∙ e))
    | inr b ↦
        ap (find_by (is_of uid code)) (mark_miss c cs b)
        ∙ find_miss (is_of uid code) c _ b
        ∙ find-mark_used cs a (sym (find_miss (is_of uid code) c cs b) ∙ e)
  ]

abbrev after_use : String → String → ℕ → Site → Site
after_use uid code now s = record s { codes = mark_used uid code now s.codes }

module _ (uid code : String) (now : ℕ) (s : Site) (a : AccessCode)
    (found : code_of uid code s ≡ some a) where
  check_lem : check_code uid code now s ≡ (
      (throw_if (is_used a) (forbidden "ACCESS_CODE_ALREADY_USED")
          >> throw_if (ltb a.expires_at now) (bad_request "ACCESS_CODE_EXPIRED"))
        s)
  unfolding check_code
  check_lem = rw (found, check_code) refl

  use_lem : use_code uid code now s ≡ (ok tt, after_use uid code now s)
  unfolding use_code mark_code_as_used
  use_lem = rw (found, use_code) refl

  consume_lem :
      is_used a ≡ false
      → ltb a.expires_at now ≡ false
      → consume_access_code uid code now s ≡ (ok tt, after_use uid code now s)
  unfolding consume_access_code
  consume_lem e f =
      bind_ok (check_code uid code now) (λ _. use_code uid code now) s s tt
        (check_lem ∙ rw e (rw f refl))
      ∙ use_lem

  used_lem :
      is_used a ≡ true
      → consume_access_code uid code now s ≡ (err (forbidden "ACCESS_CODE_ALREADY_USED"), s)
  unfolding consume_access_code
  used_lem e =
      bind_err (check_code uid code now) (λ _. use_code uid code now) s s _ (check_lem ∙ rw e refl)

  expired_lem :
      is_used a ≡ false
      → ltb a.expires_at now ≡ true
      → consume_access_code uid code now s ≡ (err (bad_request "ACCESS_CODE_EXPIRED"), s)
  unfolding consume_access_code
  expired_lem e f =
      bind_err (check_code uid code now) (λ _. use_code uid code now) s s _
        (check_lem ∙ rw e (rw f refl))

check_missing :
    (uid code : String) (now : ℕ) (s : Site)
    → code_of uid code s ≡ none
    → check_code uid code now s ≡ (err (not_found "ACCESS_CODE_INVALID"), s)
unfolding check_code
check_missing uid code now s e = rw (e, check_code) refl

consume_missing :
    (uid code : String) (now : ℕ) (s : Site)
    → code_of uid code s ≡ none
    → consume_access_code uid code now s ≡ (err (not_found "ACCESS_CODE_INVALID"), s)
unfolding consume_access_code
consume_missing uid code now s e =
    bind_err (check_code uid code now) (λ _. use_code uid code now) s s _
      (check_missing uid code now s e)

failed :
    {A C : Type 0} {m : Result A × Site} {x : Failure} {s : Site} {a : A}
    → m ≡ (err x, s)
    → m.0 ≡ ok a
    → C
failed {x = x} {a = a} e f = elim (impossible (sym (ap (λ r. r.0) e) ∙ f)) [ ]
  where
    impossible : err x ≡ ok a → ⊥
    impossible h = cc

-- A user's code is consumed exactly if the user has such a code, it is not used, and it has not
-- expired: a code that the administrator has not granted yet is accepted like a granted one.
pub consume_access_code_iff :
    (uid code : String) (now : ℕ) (s : Site)
    → ((consume_access_code uid code now s).0 ≡ ok tt) ↔ (
        (a : AccessCode) × (code_of uid code s ≡ some a)
        × (is_used a ≡ false)
        × (ltb a.expires_at now ≡ false))
consume_access_code_iff uid code now s = (forward, backward)
  where
    forward :
        (consume_access_code uid code now s).0 ≡ ok tt
        → (a : AccessCode) × (code_of uid code s ≡ some a)
          × (is_used a ≡ false)
          × (ltb a.expires_at now ≡ false)
    forward e = elim (Option-cases (code_of uid code s)) [
      | inl f ↦ failed (consume_missing uid code now s f) e
      | inr (a, f) ↦ elim (Bool-cases (is_used a)) [
        | inl u ↦ failed (used_lem uid code now s a f u) e
        | inr u ↦ elim (Bool-cases (ltb a.expires_at now)) [
          | inl x ↦ failed (expired_lem uid code now s a f u x) e
          | inr x ↦ (a, f, u, x)
        ]
      ]
    ]

    backward :
        ((a : AccessCode) × (code_of uid code s ≡ some a)
          × (is_used a ≡ false)
          × (ltb a.expires_at now ≡ false))
        → (consume_access_code uid code now s).0 ≡ ok tt
    backward (a, f, u, x) = ap (λ r. r.0) (consume_lem uid code now s a f u x)

-- A code that has been consumed is not consumed again, at any later or earlier time.
pub consume_access_code_once :
    (uid code : String) (now later : ℕ) (s : Site)
    → (consume_access_code uid code now s).0 ≡ ok tt
    → let s' = (consume_access_code uid code now s).1 in
      consume_access_code uid code later s' ≡ (err (forbidden "ACCESS_CODE_ALREADY_USED"), s')
unfolding is_used
consume_access_code_once uid code now later s e = go ((consume_access_code_iff uid code now s).0 e)
  where
    go :
        ((a : AccessCode) × (code_of uid code s ≡ some a)
          × (is_used a ≡ false)
          × (ltb a.expires_at now ≡ false))
        → consume_access_code uid code later (consume_access_code uid code now s).1
          ≡ (err (forbidden "ACCESS_CODE_ALREADY_USED"), (consume_access_code uid code now s).1)
    go (a, f, u, x) = rw (consume_lem uid code now s a f u x) (
        used_lem uid code later (after_use uid code now s) (marked now a)
          (find-mark_used uid code now s.codes a f) refl)

-- Two requests for the same code that are both past the tests before either marks it both succeed.
pub consume_access_code_race :
    (uid code : String) (now later : ℕ) (s : Site)
    → (check_code uid code now s).0 ≡ ok tt
    → (check_code uid code later s).0 ≡ ok tt
    → let (r, s') = use_code uid code now s in
      let (r', _) = use_code uid code later s' in (r ≡ ok tt) × (r' ≡ ok tt)
consume_access_code_race uid code now later s e e' = elim (Option-cases (code_of uid code s)) [
  | inl f ↦ failed (check_missing uid code now s f) e
  | inr (a, f) ↦ rw (use_lem uid code now s a f) (
    refl,
    ap (λ r. r.0)
        (use_lem uid code later (after_use uid code now s) (marked now a)
          (find-mark_used uid code now s.codes a f)),
  )
]

find-save_code :
    (f : AccessCode → Bool) (cs : List AccessCode) (a b : AccessCode)
    → find_by f cs ≡ some a
    → f b ≡ true
    → b.id ≡ a.id
    → find_by f (save_code b cs) ≡ some b
unfolding save_code find_by
find-save_code f [] a b e h i = cc
find-save_code f (c ∷ cs) a b e h i = elim (Bool-cases (eq_id c.id b.id)) [
  | inl j ↦ rw (j, save_code) (find_hit f b cs h)
  | inr j ↦ elim (Bool-cases (f c)) [
    | inl k ↦ failed_id (some_inj (sym (find_hit f c cs k) ∙ e)) j
    | inr k ↦
        rw (j, save_code)
          (find_miss f c _ k ∙ find-save_code f cs a b (sym (find_miss f c cs k) ∙ e) h i)
  ]
]
  where
    unequal : true ≡ false → ⊥
    unequal q = cc

    failed_id : {C : Type 0} → c ≡ a → eq_id c.id b.id ≡ false → C
    failed_id p j =
        elim (unequal (sym (eq_id_self c.id) ∙ ap (eq_id c.id) (ap (λ r. r.id) p ∙ sym i) ∙ j)) [ ]

-- A code that is given back after its use can be used again, as long as it has not expired.
pub reset_access_code_again :
    (uid code : String) (later : ℕ) (s : Site) (a : AccessCode)
    → code_of uid code s ≡ some a
    → is_used a ≡ true
    → ltb a.expires_at later ≡ false
    → let (r, s') = reset_access_code uid code s in
      (r ≡ ok tt) × ((consume_access_code uid code later s').0 ≡ ok tt)
unfolding reset_access_code is_used
reset_access_code_again uid code later s a f u x =
    rw (f, reset_access_code)
      (rw (u, reset_access_code)
        (
          refl,
          (consume_access_code_iff uid code later _).1 (
            record a { status = unused },
            find-save_code (is_of uid code) s.codes a (record a { status = unused }) f
                (find_holds (is_of uid code) s.codes a f) refl,
            refl,
            x,
          ),
        ))
