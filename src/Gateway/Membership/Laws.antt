-- ===== src/Gateway/Membership/Laws.antt =====
-- What a cached membership says after the workspace service reports a change of the members.
use hide_server.Base.{
  In, str_dec, str_key, nat_key, insert, erase, has, lookup-insert, lookup-erase,
  lookup-insert_self, lookup-erase_self, String, ◌≡◌, refl, ap, ◌∙◌, ◌≢◌, ◌⊎◌, inl, inr, Bool, true,
  Option, none, some, List, [], ◌∷◌, arith, if◌then◌else◌, ok, err,
}
use hide_server.Gateway.Membership.Loops.{revised, not_revised, Cached, Revises}
use hide_server.Platform.{World}
use hide_server.Gateway.Membership.{
  get_membership, entry, invalidate, confirm, check_membership, fetch_membership, cache_membership,
  invalidate_removed_members, update_added_members, handle_members_modified,
}
use hide_server.Gateway.{Services}

abbrev dropped : String → Cached → Cached
dropped uuid none = none
dropped uuid (some m) = if has uuid m then some (erase uuid m) else some m

abbrev confirmed : String → Cached → Cached
confirmed uuid none = none
confirmed uuid (some m) = if has uuid m then some (insert uuid true m) else some m

-- Both loops revise by a function of the cached value.
invalidate-Revises : (uuid : String) → Revises (invalidate uuid) (dropped uuid)
unfolding invalidate
invalidate-Revises uuid = record {
  other = λ uid u c w ne. other uid u c w ne;
  self = λ uid c w e. self uid c w e;
}
  where
    other :
        (uid u : String) (c : Cached) (w : World)
        → uid ≢ u
        → get_membership (invalidate uuid (uid, c) w) u ≡ get_membership w u
    other uid u none w ne = refl
    other uid u (some m) w ne =
        ground (arith, lookup-insert uid u (erase uuid m) w.cache.memberships)

    self :
        (uid : String) (c : Cached) (w : World)
        → (get_membership w uid ≡ c) ⊎ (get_membership w uid ≡ dropped uuid c)
        → get_membership (invalidate uuid (uid, c) w) uid ≡ dropped uuid c
    self uid none w e = ground arith
    self uid (some m) w e =
        ground (arith, lookup-insert_self uid (erase uuid m) w.cache.memberships)

confirm-Revises : (uuid : String) → Revises (confirm uuid) (confirmed uuid)
unfolding confirm
confirm-Revises uuid = record {
  other = λ uid u c w ne. other uid u c w ne;
  self = λ uid c w e. self uid c w e;
}
  where
    other :
        (uid u : String) (c : Cached) (w : World)
        → uid ≢ u
        → get_membership (confirm uuid (uid, c) w) u ≡ get_membership w u
    other uid u none w ne = refl
    other uid u (some m) w ne =
        ground (arith, lookup-insert uid u (insert uuid true m) w.cache.memberships)

    self :
        (uid : String) (c : Cached) (w : World)
        → (get_membership w uid ≡ c) ⊎ (get_membership w uid ≡ confirmed uuid c)
        → get_membership (confirm uuid (uid, c) w) uid ≡ confirmed uuid c
    self uid none w e = ground arith
    self uid (some m) w e =
        ground (arith, lookup-insert_self uid (insert uuid true m) w.cache.memberships)

entry-dropped : (uuid : String) (c : Cached) → entry uuid (dropped uuid c) ≡ none
entry-dropped uuid none = refl
entry-dropped uuid (some m) = ground (arith, lookup-erase_self uuid m)

confirmed_absent : (uuid : String) (c : Cached) → entry uuid c ≡ none → confirmed uuid c ≡ c
confirmed_absent uuid none e = refl
confirmed_absent uuid (some m) e = ground arith

dropped_elsewhere :
    (uuid other : String) (c : Cached) → uuid ≢ other → entry other (dropped uuid c) ≡ entry other c
dropped_elsewhere uuid other none ne = refl
dropped_elsewhere uuid other (some m) ne = ground (arith, lookup-erase uuid other m)

confirmed_elsewhere :
    (uuid other : String) (c : Cached)
    → uuid ≢ other
    → entry other (confirmed uuid c) ≡ entry other c
confirmed_elsewhere uuid other none ne = refl
confirmed_elsewhere uuid other (some m) ne = ground (arith, lookup-insert uuid other true m)

confirmed-entry :
    (uuid : String) (c : Cached) {b : Bool}
    → entry uuid c ≡ some b
    → entry uuid (confirmed uuid c) ≡ some true
confirmed-entry uuid none e = cc
confirmed-entry uuid (some m) e = ground (arith, lookup-insert_self uuid true m)

dec-In : (u : String) (uids : List String) → In u uids ⊎ ¬ In u uids
dec-In u [] = inr (λ h. h)
dec-In u (v ∷ uids) = elim (str_dec v u) [
  | yes e ↦ inl (inl e)
  | no ne ↦ elim (dec-In u uids) [ inl h ↦ inl (inr h) | inr h ↦ inr (λ k. ground arith) ]
]

abbrev pub entry_of : World → String → String → Option Bool
entry_of w u uuid = entry uuid (get_membership w u)

module _ (uuid : String) (removed : List String) (w : World) (u : String) where
  value_removed :
      In u removed
      → get_membership (invalidate_removed_members removed uuid w) u
        ≡ dropped uuid (get_membership w u)
  unfolding invalidate_removed_members
  value_removed h = revised (invalidate-Revises uuid) u removed w h

  value_not_removed :
      ¬ In u removed
      → get_membership (invalidate_removed_members removed uuid w) u ≡ get_membership w u
  unfolding invalidate_removed_members
  value_not_removed h = not_revised (invalidate-Revises uuid) u removed w h

  value_added :
      In u removed
      → get_membership (update_added_members removed uuid w) u ≡ confirmed uuid (get_membership w u)
  unfolding update_added_members
  value_added h = revised (confirm-Revises uuid) u removed w h

  value_not_added :
      ¬ In u removed → get_membership (update_added_members removed uuid w) u ≡ get_membership w u
  unfolding update_added_members
  value_not_added h = not_revised (confirm-Revises uuid) u removed w h

module _ (uuid : String) (added removed : List String) (w : World) (u : String) where
  abbrev between : World
  between = invalidate_removed_members removed uuid w

  abbrev after : World
  after = handle_members_modified uuid added removed w

  pub entry_of-removed : In u removed → entry_of after u uuid ≡ none
  unfolding handle_members_modified
  entry_of-removed h = elim (dec-In u added) [
    | inl a ↦
        ap (entry uuid) (value_added uuid added between u a ∙ confirmed_absent uuid _ gone) ∙ gone
    | inr a ↦ ap (entry uuid) (value_not_added uuid added between u a) ∙ gone
  ]
    where
      gone : entry_of between u uuid ≡ none
      gone =
          ap (entry uuid) (value_removed uuid removed w u h)
          ∙ entry-dropped uuid (get_membership w u)

  -- After the members of a workspace have changed, the gateway asks the workspace service anew about
  -- each removed user, and gives its answer, whatever the cache held, also if the user is listed
  -- as added too.
  pub check_membership-handle_members_modified :
      (net : Services)
      → In u removed
      → (check_membership net u uuid after).0 ≡ elim (net.membership_check u uuid) [
        | none ↦ err (record { status = 0; message = "workspace.membership.check" })
        | some b ↦ ok b
      ]
  unfolding check_membership fetch_membership
  check_membership-handle_members_modified net h =
      rw (entry_of-removed h, check_membership) (ground arith)

  -- A change of a workspace's members changes nothing of what is cached about a user who is neither
  -- added nor removed.
  pub handle_members_modified_others :
      ¬ In u added → ¬ In u removed → get_membership after u ≡ get_membership w u
  unfolding handle_members_modified
  handle_members_modified_others a r =
      value_not_added uuid added between u a ∙ value_not_removed uuid removed w u r

  -- A change of a workspace's members changes no cached entry of another workspace, of any user.
  pub handle_members_modified_elsewhere :
      (other : String) → uuid ≢ other → entry_of after u other ≡ entry_of w u other
  unfolding handle_members_modified
  handle_members_modified_elsewhere other ne = second ∙ first
    where
      first : entry_of between u other ≡ entry_of w u other
      first = elim (dec-In u removed) [
        | inl h ↦
            ap (entry other) (value_removed uuid removed w u h) ∙ dropped_elsewhere uuid other _ ne
        | inr h ↦ ap (entry other) (value_not_removed uuid removed w u h)
      ]

      second : entry_of after u other ≡ entry_of between u other
      second = elim (dec-In u added) [
        | inl h ↦
            ap (entry other) (value_added uuid added between u h)
            ∙ confirmed_elsewhere uuid other _ ne
        | inr h ↦ ap (entry other) (value_not_added uuid added between u h)
      ]

  -- A change of a workspace's members changes no cached entry about a user who is neither added nor
  -- removed, and none about another workspace.
  pub handle_members_modified_keeps :
      (other : String)
      → (¬ In u added × ¬ In u removed) ⊎ (uuid ≢ other)
      → entry_of after u other ≡ entry_of w u other
  handle_members_modified_keeps other (inl (a, r)) =
      ap (entry other) (handle_members_modified_others a r)
  handle_members_modified_keeps other (inr ne) = handle_members_modified_elsewhere other ne

  -- An added user whose membership was cached, and who is not removed too, is a member from then on.
  pub handle_members_modified_added :
      {b : Bool}
      → In u added
      → ¬ In u removed
      → entry_of w u uuid ≡ some b
      → entry_of after u uuid ≡ some true
  unfolding handle_members_modified
  handle_members_modified_added a r e =
      ap (entry uuid) (value_added uuid added between u a)
      ∙ confirmed-entry uuid _ (ap (entry uuid) (value_not_removed uuid removed w u r) ∙ e)

-- What a check answers it remembers: a second one, of any services, gives the same and changes
-- nothing.
pub check_membership_twice :
    (net net' : Services) (uid uuid : String) (w w' : World) (b : Bool)
    → check_membership net uid uuid w ≡ (ok b, w')
    → check_membership net' uid uuid w' ≡ (ok b, w')
unfolding check_membership fetch_membership cache_membership
check_membership_twice net net' uid uuid w w' b e = grind (arith, lookup-insert_self)
