-- ===== src/Server/Members.antt =====
-- The `sync.Map`s from user ids to `true` of internal/server/channel.go, as the list of their keys.
use imserver.Prelude.{
  ◌≡◌, refl, ap, Bool, true, false, not, ◌||◌, ◌&&◌, List, [], ◌∷◌, ◌++◌, if◌then◌else◌, arith,
}
use imserver.Proto.Types.{Text}
use imserver.Okstore.File.{equal, equal→≡, equal_refl}

-- `Load(uid)`
unfoldable pub contains : Text → List Text → Bool
contains uid [] = false
contains uid (x ∷ uids) = equal x uid || contains uid uids

-- `Store(uid, true)`
unfoldable pub store : Text → List Text → List Text
unfolding contains
store uid uids = if contains uid uids then uids else uids ++ (uid ∷ [])

-- `Delete(uid)`
unfoldable pub delete : Text → List Text → List Text
delete uid [] = []
delete uid (x ∷ uids) = if equal x uid then delete uid uids else x ∷ delete uid uids

-- The loops that store or delete each of some users.
unfoldable pub store_each : List Text → List Text → List Text
unfolding store
store_each [] uids = uids
store_each (x ∷ more) uids = store_each more (store x uids)

unfoldable pub delete_each : List Text → List Text → List Text
unfolding delete
delete_each [] uids = uids
delete_each (x ∷ more) uids = delete_each more (delete x uids)

pub contains-append :
    (uid : Text) (xs ys : List Text)
    → contains uid (xs ++ ys) ≡ (contains uid xs || contains uid ys)
unfolding contains
contains-append uid [] ys = refl
contains-append uid (x ∷ xs) ys = ground (arith, contains-append uid xs ys)

-- Users that are equal are contained alike.
contains-equal :
    (x uid : Text) (uids : List Text) → equal x uid ≡ true → contains x uids ≡ contains uid uids
contains-equal x uid uids e = ap (λ t. contains t uids) (equal→≡ x uid e)

pub contains-store :
    (uid x : Text) (uids : List Text)
    → contains uid (store x uids) ≡ (contains uid uids || equal x uid)
unfolding store contains
contains-store uid x uids =
    ground (arith, contains-append uid uids (x ∷ []), contains-equal x uid uids)

pub contains-delete :
    (uid x : Text) (uids : List Text)
    → contains uid (delete x uids) ≡ (contains uid uids && not (equal x uid))
unfolding delete contains
contains-delete uid x [] = refl
contains-delete uid x (y ∷ uids) =
    ground
      (arith, contains-delete uid x uids, equal→≡ y x, equal→≡ y uid, equal→≡ x uid, equal_refl uid)

pub contains-store_each :
    (uid : Text) (more uids : List Text)
    → contains uid (store_each more uids) ≡ (contains uid uids || contains uid more)
unfolding store_each contains
contains-store_each uid [] uids = ground arith
contains-store_each uid (x ∷ more) uids =
    ground (arith, contains-store_each uid more (store x uids), contains-store uid x uids)

pub contains-delete_each :
    (uid : Text) (more uids : List Text)
    → contains uid (delete_each more uids) ≡ (contains uid uids && not (contains uid more))
unfolding delete_each contains
contains-delete_each uid [] uids = ground arith
contains-delete_each uid (x ∷ more) uids =
    ground (arith, contains-delete_each uid more (delete x uids), contains-delete uid x uids)

-- No user stands twice.
abbrev pub Distinct : List Text → Type 0
Distinct [] = Unit
Distinct (x ∷ uids) = (contains x uids ≡ false) × Distinct uids
