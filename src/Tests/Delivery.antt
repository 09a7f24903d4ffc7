-- ===== src/Tests/Delivery.antt =====
-- A human delivery over two channels, of which one fails.
use agent_wake.Prelude.{
  String, ◌≡◌, refl, ◌⊎◌, Bool, true, false, ◌&&◌, ◌||◌, ◌++◌, none, some, [], ◌∷◌, All, ◌==◌,
  contains,
}
use agent_wake.Json.{end, text_at}
use agent_wake.Store.DeadLetters.{insert_dead_letter}
use agent_wake.Delivery.Channels.{Answer, answered, raised}
use agent_wake.Delivery.{HumanDelivery, DeliveryWorld, ended, progress, finish, alert_payload}
use agent_wake.Delivery.Accounted.{alert_accounted, IsHonest}
use agent_wake.Delivery.Landed.{says_delivered, reached}
use agent_wake.Tests.Fixtures.{event, two_rows}

answer_of : Bool → Answer
answer_of true = answered "delivered" none
answer_of false = raised "connection refused"

abbrev mail_only : DeliveryWorld
mail_only = record {
  answers = λ k. answer_of (k == "email");
  write_fails = false;
  dead_letter_id = "d7";
  now = 9;
}

honest : (b : Bool) → IsHonest (answer_of b)
unfolding answer_of
honest true = refl
honest false = tt

abbrev human : HumanDelivery
human = record {
  config = end;
  adapters = "webhook" ∷ "email" ∷ [];
  health = record {
    failures = [];
    unknown_principals = [];
    delivered_count = 0;
    lost_alerts = 0;
    last_lost_alert = none;
  };
  store = some two_rows;
}

alert_accounted_example :
    let p = progress mail_only [] "ann" ("webhook" ∷ "email" ∷ []) human in
    let s = finish mail_only (event "e1" "ci") [] "ann" p human in
    ((s.1 ≡ ended "delivered" (some "ann") p.results)
      × (s.0.store ≡ some two_rows)
      × All
          (λ k.
            (contains [] k || (contains human.adapters k && says_delivered (mail_only.answers k)))
            ≡ true)
          ("webhook" ∷ "email" ∷ []))
    ⊎ ((error : String) × (s.0.store
          ≡ some (
              insert_dead_letter "d7" 9 "human_delivery"
                (text_at "source" (event "e1" "ci"))
                (text_at "event_id" (event "e1" "ci"))
                (alert_payload
                  (event "e1" "ci")
                  "ann"
                  (reached mail_only.answers human.adapters [] ("webhook" ∷ "email" ∷ []) ++ []))
                (some error)
                1
                two_rows)))
alert_accounted_example =
    alert_accounted mail_only (event "e1" "ci") [] "ann" ("webhook" ∷ "email" ∷ []) human two_rows
      (λ k. honest (k == "email")) refl refl
