-- ===== src/Delivery/Health.antt =====
-- `DeliveryHealth` of delivery.py.
use agent_wake.Prelude.{
  ℕ, suc, ◌+◌, String, Bool, ◌&&◌, not, Option, some, List, [], ◌∷◌, ◌++◌, ◌==◌, if◌then◌else◌,
  contains, map, keep, any,
}

-- The failures by channel and principal, with their last error
pub record DeliveryHealth : Type 0 where
  pub failures : List (String × String × String)
  pub unknown_principals : List String
  pub delivered_count : ℕ
  pub lost_alerts : ℕ
  pub last_lost_alert : Option String

abbrev pub is_at : String → String → (String × String × String) → Bool
is_at channel principal_id f = f.0 == channel && f.1 == principal_id

unfoldable pub record_success : String → String → DeliveryHealth → DeliveryHealth
record_success channel principal_id h = record h {
  failures = keep (λ f. not (is_at channel principal_id f)) h.failures;
  delivered_count = h.delivered_count + 1;
}

unfoldable pub record_failure : String → String → String → DeliveryHealth → DeliveryHealth
record_failure channel principal_id error h = record h {
  failures =
      if any (is_at channel principal_id) h.failures
      then map (λ f. if is_at channel principal_id f then (channel, principal_id, error) else f)
          h.failures
      else h.failures ++ (channel, principal_id, error) ∷ [];
}

unfoldable pub record_unknown_principal : String → DeliveryHealth → DeliveryHealth
record_unknown_principal p h = record h {
  unknown_principals =
      if contains h.unknown_principals p
      then h.unknown_principals
      else h.unknown_principals ++ p ∷ [];
}

unfoldable pub record_lost_alert : String → DeliveryHealth → DeliveryHealth
record_lost_alert ref h = record h { lost_alerts = suc h.lost_alerts; last_lost_alert = some ref }
