-- ===== src/Limiter/Tests.antt =====
-- Sends under the default limits.
use seiza_server.Base.{◌≡◌, refl, [], arith, text, text_eq}
use seiza_server.Limiter.Windows.{
  wait, retain_recent, recipient_cost, recent_cost, weighted_retry_after, total_cost, released_at,
  count_retry_after, nth, seconds_until_expiry,
}
use seiza_server.Limiter.Sends.{
  EmailSendRateState, default_limits, check_at, sweep, swept, update, retain_entries, events_of,
  retry_after,
}
use seiza_server.Limiter.Admission.{IsWithin, check_at-IsWithin}
use seiza_server.Limiter.Kept.{Records, HasKeys}
use seiza_server.Limiter.Answers.{IsAnswer, check_at-IsAnswer}

abbrev idle : EmailSendRateState
idle = record { sources = []; recipients = []; global = [] }

idle-IsWithin : IsWithin default_limits 0 idle
idle-IsWithin = record {
  sources = tt;
  recipients = tt;
  global = record { hour = omega arith; daily = omega arith };
}

abbrev sent : EmailSendRateState
sent = (check_at default_limits (text "s") (text "anna") 5 idle).1

-- A second message to a recipient waits for the cooldown.
second_waits : (check_at default_limits (text "s") (text "anna") 1000000005 sent).0 ≡ wait 59
second_waits =
    unfold text_eq check_at sweep swept update retain_recent retain_entries events_of recipient_cost
      recent_cost retry_after weighted_retry_after total_cost released_at count_retry_after nth
      seconds_until_expiry in
    refl

check_at-IsWithin_example :
    IsWithin default_limits 5 sent
    × Records default_limits
        (text "s")
        (text "anna")
        5
        idle
        (check_at default_limits (text "s") (text "anna") 5 idle).0
        sent
    × HasKeys default_limits sent
check_at-IsWithin_example =
    check_at-IsWithin default_limits (text "s") (text "anna") 0 5 idle (omega arith) (omega arith)
      (omega arith) idle-IsWithin (tt, tt)

check_at-IsAnswer_example :
    IsAnswer (check_at default_limits (text "s") (text "anna") 1000000005 sent).0
check_at-IsAnswer_example =
    check_at-IsAnswer default_limits (text "s") (text "anna") 1000000005 sent (omega arith)
      (omega arith) (omega arith) (omega arith)
