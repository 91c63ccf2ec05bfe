-- ===== src/Client/Send/Tests.antt =====
-- A server that is overloaded, and one that limits the rate.
use cftm.Base.{◌≡◌, refl, true, false, some, ◌*◌}
use cftm.Model.Clock.{second}
use cftm.Client.Rate.{check_budget}
use cftm.Client.Rate.Tests.{client, bare}
use cftm.Client.Send.{Outside, response, attempt, of_status, retryable, send_from, send}

abbrev overloaded : Outside
overloaded = record {
  now = λ n. 10 * second;
  reply = λ n. response 503 bare (some "");
  waits = λ n. true;
}

abbrev limited : Outside
limited = record {
  now = λ n. 10 * second;
  reply = λ n. response 429 bare (some "");
  waits = λ n. true;
}

three_times : (send overloaded false client second).requests ≡ 3
unfolding send send_from attempt of_status retryable check_budget
three_times = refl
