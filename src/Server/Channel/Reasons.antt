-- ===== src/Server/Channel/Reasons.antt =====
-- Whether a user may send to a channel is decided, and a refusal has a reason.
use imserver.Prelude.{ℕ, ◌≡◌, ◌≢◌, ◌⊎◌, refl, sym, ap, ◌∙◌, Bool, true, false, inl, inr, arith}
use imserver.Proto.Reason
use imserver.Proto.Types.{Text}
use imserver.Server.Channel.{Channel, Found, allow_listed, allow, has_permission}
use imserver.Server.Channel.Permission.{MaySend, permitted_reason, may_permitted}

allow_listed-refuses :
    (whitelist_off : ℕ) (uid : Text) (c : Channel)
    → (allow_listed whitelist_off uid c).0 ≡ false
    → (allow_listed whitelist_off uid c).1 ≢ Reason.success
unfolding allow_listed
allow_listed-refuses whitelist_off uid c h e = ground arith

allow-refuses :
    (whitelist_off : ℕ) (is_system : Bool) (uid : Text) (c : Channel)
    → (allow whitelist_off is_system uid c).0 ≡ false
    → (allow whitelist_off is_system uid c).1 ≢ Reason.success
unfolding allow
allow-refuses whitelist_off is_system uid c h e =
    ground (arith, allow_listed-refuses whitelist_off uid c)

has_permission-refuses :
    (get_channel : Text → ℕ → Found) (whitelist_off : ℕ) (is_system : Bool) (uid : Text)
    (c : Channel)
    → (has_permission get_channel whitelist_off is_system uid c).0 ≡ false
    → (has_permission get_channel whitelist_off is_system uid c).1 ≢ Reason.success
unfolding has_permission
has_permission-refuses get_channel whitelist_off is_system uid c h e =
    ground (arith, allow-refuses whitelist_off is_system uid c)

-- What `hasPermission` answers: a user that may send, or one that may not, and a reason.
pub has_permission-decides :
    (get_channel : Text → ℕ → Found) (whitelist_off : ℕ) (is_system : Bool) (uid : Text)
    (c : Channel) (answer : Bool × ℕ)
    → has_permission get_channel whitelist_off is_system uid c ≡ answer
    → (MaySend get_channel whitelist_off is_system uid c × (answer.0 ≡ true))
      ⊎ ((¬ (MaySend get_channel whitelist_off is_system uid c))
          × (answer.0 ≡ false)
          × (answer.1 ≢ Reason.success))
has_permission-decides get_channel whitelist_off is_system uid c (true, reason) h = inl (
  permitted_reason get_channel whitelist_off is_system uid c (ap (λ (r : Bool × ℕ). r.0) h),
  refl,
)
has_permission-decides get_channel whitelist_off is_system uid c (false, reason) h = inr (
  λ may.
      (let yes : true ≡ false =
          sym (
            ap (λ (r : Bool × ℕ). r.0)
              (may_permitted get_channel whitelist_off is_system uid c may))
          ∙ ap (λ (r : Bool × ℕ). r.0) h in
        absurd (cc)),
  refl,
  λ e.
      has_permission-refuses get_channel whitelist_off is_system uid c
        (ap (λ (r : Bool × ℕ). r.0) h) (ap (λ (r : Bool × ℕ). r.1) h ∙ e),
)
