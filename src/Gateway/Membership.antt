-- ===== src/Gateway/Membership.antt =====
-- gateway/src/socket/membership.service.ts: memberships, cached by user and workspace.
mod Loops
pub mod Laws
use hide_server.Base.{
  String, Bool, true, Option, none, some, List, [], ◌∷◌, Map, lookup, insert, erase, has, for_each,
  if◌then◌else◌, pure, throw, modify, ◌>>=◌, ◌>>◌, Void, str_key,
}
use hide_server.Cache.{CachedMembership}
use hide_server.Platform.{World, Handler, set_membership}
use hide_server.Gateway.{Services}

abbrev pub get_membership : World → String → Option CachedMembership
get_membership w uid = lookup uid w.cache.memberships

unfoldable pub cache_membership : String → String → Bool → Option CachedMembership → World → World
cache_membership uid uuid is_member none = set_membership uid (insert uuid is_member [])
cache_membership uid uuid is_member (some m) = set_membership uid (insert uuid is_member m)

unfoldable pub fetch_membership :
    Services → String → String → Option CachedMembership → Handler Bool
fetch_membership net uid uuid cache = elim (net.membership_check uid uuid) [
  | none ↦ throw (record { status = 0; message = "workspace.membership.check" })
  | some is_member ↦ modify (cache_membership uid uuid is_member cache) >> pure is_member
]

-- the entry of a workspace in a cached value that may be absent
abbrev pub entry : String → Option CachedMembership → Option Bool
entry uuid none = none
entry uuid (some m) = lookup uuid m

unfoldable pub check_membership : Services → String → String → Handler Bool
check_membership net uid uuid w =
    let cached = get_membership w uid in
    elim (entry uuid cached) [
      | some is_member ↦ pure is_member w
      | none ↦ fetch_membership net uid uuid cached w
    ]

-- the values of the given users, each read before any is written
unfoldable pub read_all : World → List String → Map String (Option CachedMembership)
read_all w uids = for_each (λ uid m. insert uid (get_membership w uid) m) uids []

unfoldable pub invalidate : String → String × Option CachedMembership → World → World
invalidate uuid (uid, none) w = w
invalidate uuid (uid, some m) w = if has uuid m then set_membership uid (erase uuid m) w else w

unfoldable pub invalidate_removed_members : List String → String → World → World
invalidate_removed_members uids uuid w = for_each (invalidate uuid) (read_all w uids) w

unfoldable pub confirm : String → String × Option CachedMembership → World → World
confirm uuid (uid, none) w = w
confirm uuid (uid, some m) w = if has uuid m then set_membership uid (insert uuid true m) w else w

unfoldable pub update_added_members : List String → String → World → World
update_added_members uids uuid w = for_each (confirm uuid) (read_all w uids) w

unfoldable pub handle_members_modified : String → List String → List String → World → World
handle_members_modified uuid added removed w =
    update_added_members added uuid (invalidate_removed_members removed uuid w)

unfoldable pub handle_workspace_deleted : String → List String → World → World
handle_workspace_deleted uuid members = invalidate_removed_members members uuid
