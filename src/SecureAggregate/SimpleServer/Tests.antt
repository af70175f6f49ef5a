-- ===== src/SecureAggregate/SimpleServer/Tests.antt =====
-- The server with one mask, on small inputs
-- (neursafe_fl/python/libs/secure/secure_aggregate/ssa_simple_server.py).
use yanshi_shield.Base.{
  ℕ, ◌+◌, ◌≡◌, ◌≤◌, refl, Option, none, some, List, [], ◌∷◌, length, ok, raise, nat_eq,
}
use yanshi_shield.Base.Dict.{insert}
use yanshi_shield.SecureAggregate.SimpleServer.{
  SimpleServer, SimpleEvent, key_comes, report_comes, initialized_simple, is_in, common_number,
  handle_simple_all, handle_simple, handle_simple_key, accumulate_simple, decrypt_simple,
  assert_client_not_drop, client_dropped,
}
use yanshi_shield.SecureAggregate.SimpleServer.Complete.{IsDistinct, decrypt_simple_complete}

abbrev add_report : Option ℕ → ℕ → ℕ
add_report none weight = weight
add_report (some total) weight = total + weight

abbrev served : List (SimpleEvent ℕ ℕ) → SimpleServer ℕ ℕ
served events = handle_simple_all add_report events (initialized_simple 2 2)

abbrev both_report : SimpleServer ℕ ℕ
both_report = served (key_comes 4 11 ∷ key_comes 7 12 ∷ report_comes 30 7 ∷ report_comes 20 4 ∷ [])

given_away : (decrypt_simple both_report).1 ≡ ok (some 50)
unfolding handle_simple_all handle_simple handle_simple_key accumulate_simple insert decrypt_simple
    assert_client_not_drop common_number
given_away = refl

-- A client that reports twice keeps the total back.
kept_back :
    (decrypt_simple
      (served (key_comes 4 11 ∷ key_comes 7 12 ∷ report_comes 30 7 ∷ report_comes 20 7 ∷ []))).1
    ≡ raise client_dropped
unfolding handle_simple_all handle_simple handle_simple_key accumulate_simple insert decrypt_simple
    assert_client_not_drop common_number
kept_back = refl

decrypt_simple_complete_example :
    (some 50 ≡ both_report.total_data)
    × IsDistinct both_report.rpt_masked_result_clients
    × ((z : ℕ)
        → is_in z both_report.rpt_masked_result_clients
          ≡ is_in z both_report.rpt_public_key_clients)
    × (both_report.min_client_num ≤ length both_report.rpt_masked_result_clients)
decrypt_simple_complete_example = decrypt_simple_complete both_report (some 50) given_away
