-- ===== src/Tests/Vercel.antt =====
-- A deployment whose alias never becomes ready, on a clock that only sleeps move.
use governance_seatbelt.Prelude.{ℕ, some, none, false, ◌+◌, ◌≡◌, refl, arith}
use governance_seatbelt.Relay.Vercel.{
  CreatedDeployment, Machine, publish_deployment, create_publish_alias_with_retry, retry_from,
  create_publish_alias, alias_answer, is_retryable_alias_error, read_alias_error_code,
}
use governance_seatbelt.Relay.Vercel.Laws.{IsPublished, publish_deployment-IsPublished}

abbrev machine : Machine ℕ
machine = record {
  clock = λ s. s;
  post_alias = λ id hostname s. (some (record { status = 503; is_ok = false; body = none }), s);
  sleep = λ ms s. s + ms;
}

abbrev deployment : CreatedDeployment
deployment = record { id = "dpl_1"; deployment_url = "https://seatbelt.vercel.app" }

-- The waits are 1, 2, 4 and what is left.
waits_lem :
    (create_publish_alias_with_retry machine "dpl_1" "a-1.publish.scopelift.co" 10 1 5 0).1 ≡ 10
unfolding create_publish_alias_with_retry retry_from create_publish_alias alias_answer
    is_retryable_alias_error read_alias_error_code
waits_lem = refl

publish_deployment-IsPublished_example :
    IsPublished deployment "a-1.publish.scopelift.co"
      (publish_deployment machine deployment "a-1.publish.scopelift.co" 10 1 5 0).0
publish_deployment-IsPublished_example =
    publish_deployment-IsPublished machine deployment "a-1.publish.scopelift.co" 10 1 5 0
      (record { request_later = λ id hostname s. omega arith; sleep_later = λ ms s. omega arith })
      (omega arith) (omega arith)
