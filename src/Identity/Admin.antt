-- ===== src/Identity/Admin.antt =====
-- The administration of users: internal/identity/admin_user_service.go. `propagates` says whether the
-- auth provider takes a ban, and `commits` whether the transaction goes through, audit included.
use forecastiq.Prelude.{
  ℕ, ◌≡◌, ◌≢◌, refl, Bool, true, false, not, ◌&&◌, ◌||◌, Option, none, some, List, [], ◌∷◌, ltb,
  ◌==◌, if◌then◌else◌, Result, ok, err, arith,
}
use forecastiq.Identity.{
  User, Role, UserStatus, active, disabled, is_active, is_admin, IdentityError, self_lockout,
  upstream_auth, invalid_field, storage_error, get_by_id, update_user, delete_user,
}

-- `limit <= 0 || limit > 200` asks for 50; a limit that is not positive is 0.
unfoldable pub page_limit : ℕ → ℕ
page_limit limit = if (limit == 0) || ltb 200 limit then 50 else limit

-- The texts that a request can ask for.
pub data StatusText : Type 0 where
  to_status : UserStatus → StatusText
  other_status : StatusText

pub data RoleText : Type 0 where
  to_role : Role → RoleText
  other_role : RoleText

-- `status != "active" && status != "disabled"` is refused.
unfoldable pub settable : StatusText → Option UserStatus
settable (to_status active) = some active
settable (to_status disabled) = some disabled
settable _ = none

unfoldable pub known_role : RoleText → Option Role
known_role (to_role r) = some r
known_role other_role = none

abbrev pub with_status : UserStatus → User → User
with_status s u = record u { status = s }

abbrev pub with_role : Role → User → User
with_role r u = record u { role = r }

pub record AdminFaults : Type 0 where
  pub reads : Bool
  pub propagates : Bool
  pub commits : Bool

unfoldable pub change_user :
    AdminFaults → Bool → (User → User) → ℕ → List User → List User × Result IdentityError User
change_user faults propagates change target table =
    if faults.reads
    then elim (get_by_id target table) [
      | err e ↦ (table, err e)
      | ok u ↦
          if propagates
          then if faults.commits
            then (update_user change target table, ok (change u))
            else (table, err storage_error)
          else (table, err upstream_auth)
    ]
    else (table, err storage_error)

unfoldable pub set_status :
    AdminFaults
    → (actor target : ℕ) → StatusText
    → List User
    → List User × Result IdentityError User
set_status faults actor target text table = elim (settable text) [
  | none ↦ (table, err invalid_field)
  | some s ↦
      if target == actor
      then (table, err self_lockout)
      else change_user faults faults.propagates (with_status s) target table
]

-- No auth provider is asked.
unfoldable pub set_role :
    AdminFaults → (actor target : ℕ) → RoleText → List User → List User × Result IdentityError User
set_role faults actor target text table = elim (known_role text) [
  | none ↦ (table, err invalid_field)
  | some r ↦
      if target == actor
      then (table, err self_lockout)
      else change_user faults true (with_role r) target table
]

-- The auth provider is asked after the commit, and its answer is only logged.
unfoldable pub delete_account :
    AdminFaults
    → Bool
    → (actor target : ℕ) → List User
    → List User × Result IdentityError (Unit {0})
delete_account faults self_service actor target table =
    if not self_service && (target == actor)
    then (table, err self_lockout)
    else if faults.reads
    then elim (get_by_id target table) [
      | err e ↦ (table, err e)
      | ok u ↦
          if faults.commits then (delete_user target table, ok tt) else (table, err storage_error)
    ]
    else (table, err storage_error)

-- The requests of the admin routes, each by the user of its principal.
pub data AdminRequest : Type 0 where
  setting_status : (target : ℕ) → StatusText → AdminRequest
  setting_role : (target : ℕ) → RoleText → AdminRequest
  deleting : (target : ℕ) → AdminRequest

unfoldable pub perform : AdminFaults → ℕ → AdminRequest → List User → List User
perform faults actor (setting_status target text) table =
    (set_status faults actor target text table).0
perform faults actor (setting_role target text) table = (set_role faults actor target text table).0
perform faults actor (deleting target) table = (delete_account faults false actor target table).0

-- An active admin of the id, as the routes ask for.
unfoldable pub is_active_admin : ℕ → List User → Bool
is_active_admin id [] = false
is_active_admin id (u ∷ us) =
    ((u.id == id) && is_active u.status && is_admin u.role) || is_active_admin id us

-- A request is performed only if its principal is an active admin when it arrives; the check and the
-- request are one step.
unfoldable pub admitted : AdminFaults → ℕ → AdminRequest → List User → List User
admitted faults actor request table =
    if is_active_admin actor table then perform faults actor request table else table

unfoldable pub run : List (AdminFaults × ℕ × AdminRequest) → List User → List User
run [] table = table
run ((faults, actor, request) ∷ rest) table = run rest (admitted faults actor request table)

unfoldable pub has_admin : List User → Bool
has_admin [] = false
has_admin (u ∷ us) = (is_active u.status && is_admin u.role) || has_admin us

active_admin-update :
    (change : User → User) (id target : ℕ) (table : List User)
    → target ≢ id
    → ((u : User) → (change u).id ≡ u.id)
    → is_active_admin id (update_user change target table) ≡ is_active_admin id table
unfolding is_active_admin update_user
active_admin-update change id target [] d keep = refl
active_admin-update change id target (u ∷ us) d keep =
    ground (arith, keep u, active_admin-update change id target us d keep)

active_admin-delete :
    (id target : ℕ) (table : List User)
    → target ≢ id
    → is_active_admin id (delete_user target table) ≡ is_active_admin id table
unfolding is_active_admin delete_user
active_admin-delete id target [] d = refl
active_admin-delete id target (u ∷ us) d = ground (arith, active_admin-delete id target us d)

active_admin-change :
    (faults : AdminFaults) (propagates : Bool) (change : User → User) (actor target : ℕ)
    (table : List User)
    → target ≢ actor
    → ((u : User) → (change u).id ≡ u.id)
    → is_active_admin actor (change_user faults propagates change target table).0
      ≡ is_active_admin actor table
unfolding change_user
active_admin-change faults propagates change actor target table d keep =
    ground (arith, active_admin-update change actor target table d keep)

perform-keeps :
    (faults : AdminFaults) (actor : ℕ) (request : AdminRequest) (table : List User)
    → is_active_admin actor (perform faults actor request table) ≡ is_active_admin actor table
unfolding perform set_status set_role delete_account settable known_role
perform-keeps faults actor (setting_status target (to_status active)) table =
    ground
      (arith, active_admin-change faults faults.propagates (with_status active) actor target table)
perform-keeps faults actor (setting_status target (to_status disabled)) table =
    ground (
      arith,
      active_admin-change faults faults.propagates (with_status disabled) actor target table,
    )
perform-keeps faults actor (setting_status target (to_status UserStatus.archived)) table = refl
perform-keeps faults actor (setting_status target other_status) table = refl
perform-keeps faults actor (setting_role target (to_role r)) table =
    ground (arith, active_admin-change faults true (with_role r) actor target table)
perform-keeps faults actor (setting_role target other_role) table = refl
perform-keeps faults actor (deleting target) table =
    ground (arith, active_admin-delete actor target table)

has_admin_of :
    (id : ℕ) (table : List User) → is_active_admin id table ≡ true → has_admin table ≡ true
unfolding is_active_admin has_admin
has_admin_of id [] h = cc
has_admin_of id (u ∷ us) h = ground (arith, has_admin_of id us)

-- However many requests the admin routes serve, one after the other, by whatever principals, and whatever
-- fails: if there is an active admin at first, there is one at the end.
pub run-has_admin :
    (requests : List (AdminFaults × ℕ × AdminRequest)) (table : List User)
    → has_admin table ≡ true
    → has_admin (run requests table) ≡ true
unfolding run admitted
run-has_admin [] table h = h
run-has_admin ((faults, actor, request) ∷ rest) table h =
    run-has_admin rest (admitted faults actor request table) (
      ground (
        arith,
        h,
        perform-keeps faults actor request table,
        has_admin_of actor (perform faults actor request table),
      ))
