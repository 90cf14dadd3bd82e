-- ===== src/Delivery/Tests.antt =====
-- Two queues whose receives return what a list says, in turn.
use seiza_server.Base.{ℕ, ◌+◌, ◌≡◌, ◌↔◌, List, [], ◌∷◌, arith, text}
use seiza_server.Delivery.Polling.{
  SqsQueueSchedule, Received, received, nothing, failed, Receiver, receive_weighted_sqs_message,
}
use seiza_server.Delivery.Turns.{
  normals, normals_in_round, receive_weighted_sqs_message-failed, first_poll, second_poll,
}

abbrev scripted : Receiver ℕ
scripted = record {
  State = List (Received ℕ);
  receive_sqs_message = λ url timeout wait q. first_of q;
}
  where
    first_of : List (Received ℕ) → Received ℕ × List (Received ℕ)
    first_of [] = (nothing, [])
    first_of (r ∷ rs) = (r, rs)

abbrev schedule : SqsQueueSchedule
schedule = record { priority_weight = 3; cursor = 2 }

normals_in_round_example : normals (3 + 1) schedule ≡ 1
normals_in_round_example = normals_in_round schedule (omega arith)

receive_weighted_sqs_message-failed_example :
    ((receive_weighted_sqs_message scripted
        (text "n")
        (text "p")
        schedule
        90
        (failed ∷ received 7 ∷ [])).0
      ≡ failed)
    ↔ ((first_poll scripted (text "n") (text "p") schedule 90 (failed ∷ received 7 ∷ [])).0
        ≡ failed)
      × ((second_poll scripted (text "n") (text "p") schedule 90 (failed ∷ received 7 ∷ [])).0
          ≡ failed)
receive_weighted_sqs_message-failed_example =
    receive_weighted_sqs_message-failed scripted (text "n") (text "p") schedule 90
      (failed ∷ received 7 ∷ [])
