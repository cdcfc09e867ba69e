-- ===== src/Tests/Access.antt =====
-- Runs of the authorization.
use ai_jin_shu.Common.{◌≡◌, true, some, str_eq, not, ◌&&◌, ◌||◌}
use ai_jin_shu.Authz.{
  Principal, ResourceContext, novel_update, authorize, user_permission, is_owner_scoped,
}
use ai_jin_shu.Authz.Decision.{reachable_by, authorize-allows}

abbrev ann : Principal
ann = record { user_uuid = some "ann"; role = "user"; status = "active"; is_authenticated = true }

abbrev novel_of_bob : ResourceContext
novel_of_bob = record { resource_type = "novel"; resource_id = "7"; owner_uuid = some "bob" }

abbrev novel_of_ann : ResourceContext
novel_of_ann = record novel_of_bob { owner_uuid = some "ann" }

authorize-allows_example : (authorize ann novel_update (some novel_of_ann)).allowed ≡ (
    true
    && str_eq "active" "active"
    && (str_eq "user" "admin"
        || (str_eq "user" "user"
            && user_permission novel_update
            && (not (is_owner_scoped novel_update) || reachable_by ann (some novel_of_ann)))))
authorize-allows_example = authorize-allows ann novel_update (some novel_of_ann)
