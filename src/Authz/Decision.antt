-- ===== src/Authz/Decision.antt =====
-- Who is let in by `authorize` of app/core/authz/engine.py.
use ai_jin_shu.Common.{
  ◌≡◌, ap, ◌∙◌, refl, if◌then◌else◌, ◌≢◌, Bool, true, false, not, ◌&&◌, ◌||◌, Option, none, some,
  String, str_eq, eq_iff, arith, sym, subst, Bool-cases, inl, inr,
}
use ai_jin_shu.Authz.{
  Permission, Principal, ResourceContext, user_permission, is_owner_scoped, owns, authorize, Reason,
  AuthorizationResult, answer, owner_answer, unauthenticated, user_status, permission_not_granted,
  admin_allow, owner_allow, owner_mismatch, role_allow,
}

-- What opens an owner-scoped permission: no resource was named, or it is the user's own.
abbrev pub reachable_by : Principal → Option ResourceContext → Bool
reachable_by p none = true
reachable_by p (some r) = owns p.user_uuid r.owner_uuid

active_only :
    (s : String)
    → str_eq s "active" ≡ true
    → (str_eq s "disabled" ≡ false) × (str_eq s "pending_activation" ≡ false)
active_only s h =
    subst (λ t. (str_eq t "disabled" ≡ false) × (str_eq t "pending_activation" ≡ false))
      (sym ((eq_iff s "active").0 h)) (refl, refl)

-- The chain of tests of `authorize`, with its tests as Booleans and the owner's answer given.
chain-allows :
    (auth disabled pending active admin user permitted scoped : Bool) (status : Reason)
    (o : AuthorizationResult)
    → (active ≡ true → (disabled ≡ false) × (pending ≡ false))
    → (if not auth
        then answer false unauthenticated
        else if disabled
        then answer false (user_status "disabled")
        else if pending
        then answer false (user_status "pending_activation")
        else if not active
        then answer false status
        else if not (if admin then true else if user then permitted else false)
        then answer false permission_not_granted
        else if admin
        then answer true admin_allow
        else if scoped
        then o
        else answer true role_allow).allowed
      ≡ (auth && active && (admin || (user && permitted && (not scoped || o.allowed))))
chain-allows false d p a m u g s st o h = refl
chain-allows true true p true m u g s st o h = ground (arith, h)
chain-allows true true p false m u g s st o h = refl
chain-allows true false true true m u g s st o h = ground (arith, h)
chain-allows true false true false m u g s st o h = refl
chain-allows true false false false m u g s st o h = refl
chain-allows true false false true true u g s st o h = refl
chain-allows true false false true false false g s st o h = refl
chain-allows true false false true false true false s st o h = refl
chain-allows true false false true false true true true st o h = refl
chain-allows true false false true false true true false st o h = refl

owner_answer-allows :
    (p : Principal) (resource : Option ResourceContext)
    → (owner_answer p resource).allowed ≡ reachable_by p resource
owner_answer-allows p none = refl
owner_answer-allows p (some r) = owned (owns p.user_uuid r.owner_uuid)
  where
    owned :
        (b : Bool)
        → (if b then answer true owner_allow else answer false owner_mismatch).allowed ≡ b
    owned true = refl
    owned false = refl

-- A request is allowed exactly when the user is authenticated and active, and either is an
-- administrator or has the role of a user, asks for one of that role's permissions, and, where the
-- permission is scoped to owners, names no resource or one of their own.
pub authorize-allows :
    (p : Principal) (permission : Permission) (resource : Option ResourceContext)
    → (authorize p permission resource).allowed ≡ (
        p.is_authenticated
        && str_eq p.status "active"
        && (str_eq p.role "admin"
            || (str_eq p.role "user"
                && user_permission permission
                && (not (is_owner_scoped permission) || reachable_by p resource))))
unfolding authorize
authorize-allows p permission resource =
    chain-allows p.is_authenticated (str_eq p.status "disabled")
      (str_eq p.status "pending_activation") (str_eq p.status "active") (str_eq p.role "admin")
      (str_eq p.role "user") (user_permission permission) (is_owner_scoped permission)
      (user_status p.status) (owner_answer p resource) (active_only p.status)
    ∙ ap
        (λ b.
          p.is_authenticated
          && str_eq p.status "active"
          && (str_eq p.role "admin"
              || (str_eq p.role "user"
                  && user_permission permission
                  && (not (is_owner_scoped permission) || b))))
        (owner_answer-allows p resource)

owns_own : (user owner : Option String) → owns user owner ≡ true → owner ≡ user
owns_own user none h = ground arith
owns_own none (some o) h = ground arith
owns_own (some u) (some o) h = ground (arith, eq_iff u o)

not_owns : (user owner : Option String) → owner ≢ user → owns user owner ≡ false
not_owns user owner h = elim (Bool-cases (owns user owner)) [
  | inl e ↦ ground (arith, h (owns_own user owner e))
  | inr e ↦ e
]

all_shut :
    (auth active admin user permitted scoped mine : Bool)
    → admin ≡ false
    → scoped ≡ true
    → mine ≡ false
    → (auth && active && (admin || (user && permitted && (not scoped || mine)))) ≡ false
all_shut auth active admin user permitted scoped mine a o h = ground arith

-- A user who is not an administrator is never let in to an owner-scoped permission on a resource
-- that has no owner, or whose owner is someone else.
pub foreign_resource_denied :
    (p : Principal) (permission : Permission) (r : ResourceContext)
    → str_eq p.role "admin" ≡ false
    → is_owner_scoped permission ≡ true
    → r.owner_uuid ≢ p.user_uuid
    → (authorize p permission (some r)).allowed ≡ false
foreign_resource_denied p permission r a o h =
    let not_owned : owns p.user_uuid r.owner_uuid ≡ false = not_owns p.user_uuid r.owner_uuid h in
    authorize-allows p permission (some r)
    ∙ all_shut p.is_authenticated (str_eq p.status "active") (str_eq p.role "admin")
        (str_eq p.role "user") (user_permission permission) (is_owner_scoped permission)
        (owns p.user_uuid r.owner_uuid) a o not_owned
