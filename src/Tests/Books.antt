-- ===== src/Tests/Books.antt =====
-- The ledger, the operations and the reconciler on one payment.
use atlas_pay.Prelude.{
  if◌then◌else◌, any, ok, list_beq, text_eq, ◌==◌, nat_eq, Text, codes, upper, is_blank, ascii_only,
  ◌≡◌, refl, ◌≢◌, ◌↔◌, true, false, none, some, List, [], ◌∷◌, ◌++◌, arith,
}
use atlas_pay.Prelude.Int.{pos, ◌+ℤ◌, ◌-ℤ◌}
use atlas_pay.Payments.Database.{
  PaymentStatus, authorized, captured, capture, refund, debit, credit, operation_text, status_eq,
  Payment, LedgerAccount, Database, empty_database, find, update, insert_transaction, insert_entry,
  insert_entries, side_total, assert_balanced, insert_operation, insert_event,
}
use atlas_pay.Payments.Ledger.{
  LedgerPosting, posting_total, validate_postings, entry_rows, write_journal, post, account_balance,
}
use atlas_pay.Payments.Ledger.Balance.{IsBooked}
use atlas_pay.Payments.Operations.{
  OperationRequest, OperationResult, FreshIds, expected_from, target_status, result_from_row,
  set_status, operation_entries, operation_row, event_row, write_operation, execute_on,
  execute_keyed, execute,
}
use atlas_pay.Payments.Operations.Execution.{after_operation, IsExecuted, execute-IsExecuted}
use atlas_pay.Payments.Operations.Replay.{execute-replay}
use atlas_pay.Payments.Operations.Conservation.{
  executes, Reach, start, next, Reach-IsBooked, execute-account_balance,
}
use atlas_pay.Payments.Reconciliation.{
  missing_payments, missing_journals, missing_events, missing_operations, mismatches_of, mismatches,
  check_journal, bad_journals, structural, sort_report, inspect, is_clean,
}
use atlas_pay.Payments.Reconciliation.Preserved.{execute-IsStructured}
use atlas_pay.Payments.Reconciliation.Structure.{IsStructured, structural-IsStructured}
use atlas_pay.Payments.Reconciliation.Mismatch.{has_other_target, execute-unclean}

abbrev payment_of : PaymentStatus → Payment
payment_of status = record {
  id = codes "pay_1";
  amount = 12550;
  currency = codes "MAD";
  merchant_reference = codes "order";
  status = status;
  created_at = 0;
}

abbrev cash : LedgerAccount
cash = record { id = codes "cash"; name = codes "Cash"; currency = codes "MAD" }

abbrev merchant : LedgerAccount
merchant = record { id = codes "merchant"; name = codes "Merchant"; currency = codes "MAD" }

abbrev opened : Database
opened = record empty_database {
  payments = payment_of authorized ∷ [];
  accounts = cash ∷ merchant ∷ [];
}

-- A digest that keeps the payment, the operation and the two accounts apart.
abbrev digest : OperationRequest → Text
digest r =
    operation_text r.operation
    ++ (codes "/"
        ++ (r.payment_id
            ++ (codes "/" ++ (r.source_account_id ++ (codes "/" ++ r.destination_account_id)))))

abbrev capture_request : OperationRequest
capture_request = record {
  payment_id = codes "pay_1";
  operation = capture;
  source_account_id = codes "cash";
  destination_account_id = codes "merchant";
}

abbrev refund_request : OperationRequest
refund_request = record {
  payment_id = codes "pay_1";
  operation = refund;
  source_account_id = codes "merchant";
  destination_account_id = codes "cash";
}

abbrev ids : Text → FreshIds
ids s = record {
  operation_id = codes "op_" ++ s;
  journal_id = codes "jrn_" ++ s;
  event_id = codes "evt_" ++ s;
}

abbrev after_capture : Database
after_capture =
    after_operation capture_request (codes "k1") (digest capture_request) (ids (codes "1")) 7
      authorized 12550 (codes "MAD") opened

abbrev capture_result : OperationResult
capture_result =
    result_from_row
      (operation_row capture_request (codes "k1") (digest capture_request) (ids (codes "1"))
        authorized)
      false

capture_test :
    execute ascii_only digest capture_request (codes "k1") (ids (codes "1")) 7 opened
    ≡ ok (capture_result, after_capture)
unfolding execute execute_keyed execute_on write_operation insert_transaction insert_entries
    insert_entry insert_operation insert_event assert_balanced set_status operation_entries
    operation_row event_row expected_from target_status side_total upper find update list_beq
    is_blank
capture_test = refl

once : capture_result.replayed ≡ false
unfolding result_from_row
once = refl

execute-IsExecuted_example :
    IsExecuted ascii_only digest capture_request
      (codes "k1")
      (ids (codes "1"))
      7
      opened
      after_capture
      capture_result
execute-IsExecuted_example =
    execute-IsExecuted ascii_only digest capture_request (codes "k1") (ids (codes "1")) 7 opened
      after_capture capture_result capture_test once

execute-replay_example :
    execute ascii_only digest capture_request (codes "k1") (ids (codes "2")) 8 after_capture
    ≡ ok (record capture_result { replayed = true }, after_capture)
execute-replay_example =
    execute-replay ascii_only digest capture_request (codes "k1") (ids (codes "1")) 7 opened
      after_capture capture_result capture_test (ids (codes "2")) 8

digests_differ : digest refund_request ≢ digest capture_request
digests_differ = λ h. ground (arith, h)

accounts_differ : codes "merchant" ≢ codes "cash"
accounts_differ = λ h. ground (arith, h)

captured-Reach : Reach ascii_only digest after_capture
captured-Reach =
    next (start opened refl)
      (executes capture_request (codes "k1") (ids (codes "1")) 7 capture_result capture_test)

Reach-IsBooked_example : IsBooked after_capture.entries
Reach-IsBooked_example = Reach-IsBooked ascii_only digest captured-Reach

found_payment : find (λ p. p.id == codes "pay_1") opened.payments ≡ some (payment_of authorized)
unfolding find list_beq
found_payment = refl

cash_differs : codes "cash" ≢ codes "merchant"
cash_differs = λ h. ground (arith, h)

execute-account_balance_example : account_balance (codes "cash") after_capture ≡ (
    if codes "cash" == codes "cash"
    then account_balance (codes "cash") opened +ℤ pos 12550
    else if codes "merchant" == codes "cash"
    then account_balance (codes "cash") opened -ℤ pos 12550
    else account_balance (codes "cash") opened)
execute-account_balance_example =
    execute-account_balance ascii_only digest capture_request (codes "k1") (ids (codes "1")) 7
      opened after_capture capture_result (payment_of authorized) (codes "cash") cash_differs
      found_payment capture_test once

abbrev postings : List LedgerPosting
postings =
    record { account_id = codes "cash"; side = debit; amount = 300 }
    ∷ record { account_id = codes "merchant"; side = credit; amount = 300 }
    ∷ []

abbrev after_post : Database
after_post = record opened {
  transactions = record { id = codes "j"; reference = codes "ref"; currency = codes "MAD" } ∷ [];
  entries = entry_rows (codes "j") (codes "MAD") postings;
}

post_test :
    post ascii_only (codes "ref") (codes "mad") postings none (codes "j") opened
    ≡ ok (codes "j", after_post)
unfolding post validate_postings posting_total write_journal entry_rows insert_transaction
    insert_entries insert_entry assert_balanced side_total upper list_beq
post_test = refl

opened-IsStructured : IsStructured opened
opened-IsStructured = record {
  payments_there = tt;
  journals_there = tt;
  events_there = tt;
  operations_there = tt;
  journals_sound = tt;
}

opened-IsBooked : IsBooked opened.entries
opened-IsBooked = Reach-IsBooked ascii_only digest (start opened refl)

structural-IsStructured_example : (structural opened ≡ []) ↔ IsStructured opened
structural-IsStructured_example = structural-IsStructured opened

execute-IsStructured_example : IsStructured after_capture
execute-IsStructured_example =
    execute-IsStructured ascii_only digest capture_request (codes "k1") (ids (codes "1")) 7 opened
      after_capture capture_result opened-IsStructured opened-IsBooked capture_test

abbrev after_refund : Database
after_refund =
    after_operation refund_request (codes "k2") (digest refund_request) (ids (codes "2")) 9 captured
      12550 (codes "MAD") after_capture

abbrev refund_result : OperationResult
refund_result =
    result_from_row
      (operation_row refund_request (codes "k2") (digest refund_request) (ids (codes "2")) captured)
      false

refund_test :
    execute ascii_only digest refund_request (codes "k2") (ids (codes "2")) 9 after_capture
    ≡ ok (refund_result, after_refund)
unfolding execute execute_keyed execute_on write_operation insert_transaction insert_entries
    insert_entry insert_operation insert_event assert_balanced set_status operation_entries
    operation_row event_row expected_from target_status side_total upper find update list_beq
    is_blank
refund_test = refl

refunded_once : refund_result.replayed ≡ false
unfolding result_from_row
refunded_once = refl

captured_before :
    any (has_other_target (codes "pay_1") (target_status refund)) after_capture.operations ≡ true
unfolding operation_row target_status list_beq
captured_before = refl

execute-unclean_example : is_clean (inspect after_refund) ≡ false
execute-unclean_example =
    execute-unclean ascii_only digest refund_request (codes "k2") (ids (codes "2")) 9 after_capture
      after_refund refund_result captured_before refund_test refunded_once

-- After the capture alone the report is clean.
clean_test : inspect after_capture ≡ []
unfolding inspect sort_report structural missing_payments missing_journals missing_events
    missing_operations bad_journals check_journal mismatches mismatches_of operation_row event_row
    operation_entries target_status side_total update list_beq
clean_test = refl
