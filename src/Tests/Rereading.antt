-- ===== src/Tests/Rereading.antt =====
-- A receipt that is written in the small outside, and read again.
use dmlpact.Base.{
  arith, String, ◌≡◌, refl, some, none, [], ◌∷◌, ◌++◌, ◌==◌, if◌then◌else◌, text_eq, true, false,
  subst,
}
use mathlib.Core.Option.{some-injective}
use dmlpact.Base.Text.{as_bytes, is_blank}
use dmlpact.Base.Text.Lines.{HasNoBreak}
use dmlpact.Error.{AppResult, ok, err}
use dmlpact.Model.{ReceiptState, ReceiptResult, ReceiptEvent, is_final}
use dmlpact.System.{System, affected}
use dmlpact.System.Monad.{
  ◌>>=◌, ask_or, attempt, lift, pure, perform, refuse_if, branch, match_result, map_err,
}
use dmlpact.Receipt.Seal.{verified_plan_sha256, seal_event, prepared_event, final_event}
use dmlpact.Receipt.Journal.{ReceiptJournal}
use dmlpact.Receipt.Check.{verification}
use dmlpact.Receipt.Writing.{IsFinalLine}
use dmlpact.Receipt.Opening.{IsPreparedFor}
use dmlpact.Receipt.Verify.{verify_receipt}
use dmlpact.Receipt.Verify.Reread.{ReadsBack, verify_receipt-written}
use dmlpact.Engine.Planning.{create_plan}
use dmlpact.Tests.World.{world, no_event}
use dmlpact.Tests.Runs.{made_plan}

abbrev pub or_else {ℓ} : {A : Type ℓ} → A → AppResult A → A
or_else a (ok x) = x
or_else a (err e) = a

-- The outside in which an event is written as its number.
abbrev writer : System
writer = record (world none no_event (affected 2) true) {
  event_json = λ e. if e.sequence == 1 then some "{1}" else some "{2}";
}

abbrev plan_hash : String
plan_hash = or_else "" (verified_plan_sha256 writer made_plan)

abbrev first : ReceiptEvent
first = or_else no_event (seal_event writer (prepared_event writer plan_hash "f" 7))

abbrev pub result : ReceiptResult
result = record {
  affected_rows = some 2;
  reason_code = "applied";
  sqlstate = none;
  database = none;
  table_schema_sha256 = none;
}

abbrev second : ReceiptEvent
second =
    or_else no_event (seal_event writer (final_event writer first 7 ReceiptState.committed result))

-- That outside with the two lines on disk and their parser.
abbrev reader : System
reader = record writer {
  parse_event = λ text. if text_eq text "{1}" then some first else some second;
  metadata = λ _ _. some (record { is_file = true; len = 8 });
  read_to_string = λ _ _. some "{1}\n{2}\n";
}

abbrev journal : ReceiptJournal
journal = record { path = "r"; prepared = first }

first_prepared : IsPreparedFor reader made_plan "f" first
unfolding create_plan verified_plan_sha256 seal_event prepared_event ◌>>=◌ ask_or attempt lift pure
    perform refuse_if branch match_result map_err
first_prepared = record {
  hash = plan_hash;
  verified = refl;
  moment = [];
  timestamp = 7;
  clock_read = refl;
  sealed = refl;
}

second_ended : IsFinalLine reader first ReceiptState.committed result (as_bytes "{2}" ++ (10 ∷ []))
unfolding create_plan verified_plan_sha256 seal_event prepared_event final_event is_final ◌>>=◌
    ask_or attempt lift pure perform refuse_if branch match_result map_err
second_ended = record {
  terminal = refl;
  moment = [];
  timestamp = 7;
  clock_read = refl;
  event = second;
  sealed = refl;
  line = record { text = "{2}"; serialised = refl; spelled = refl };
}

first_back : ReadsBack reader first
unfolding is_blank seal_event prepared_event
first_back text e =
    subst (λ s. (reader.parse_event s ≡ some first) × HasNoBreak s × (is_blank s ≡ false))
      (some-injective "{1}" text e)
      (
        refl,
        (
          (λ h. omega (arith, h)),
          (λ h. omega (arith, h)),
          (
            (λ h. omega (arith, h)),
            (λ h. omega (arith, h)),
            ((λ h. omega (arith, h)), (λ h. omega (arith, h)), tt),
          ),
        ),
        refl,
      )

second_back : ReadsBack reader second
unfolding is_blank seal_event final_event
second_back text e =
    subst (λ s. (reader.parse_event s ≡ some second) × HasNoBreak s × (is_blank s ≡ false))
      (some-injective "{2}" text e)
      (
        refl,
        (
          (λ h. omega (arith, h)),
          (λ h. omega (arith, h)),
          (
            (λ h. omega (arith, h)),
            (λ h. omega (arith, h)),
            ((λ h. omega (arith, h)), (λ h. omega (arith, h)), tt),
          ),
        ),
        refl,
      )

verify_receipt-written_example :
    (hash : String) × (second.event_sha256 ≡ some hash)
    × ((verify_receipt reader "r" []).0 ≡ ok (verification first second 2 hash))
unfolding first_prepared second_ended as_bytes seal_event prepared_event final_event
verify_receipt-written_example =
    verify_receipt-written reader made_plan "f" "r" "{1}\n{2}\n" journal ReceiptState.committed
      result (as_bytes "{1}" ++ (10 ∷ [])) (as_bytes "{2}" ++ (10 ∷ [])) [] first_prepared
      second_ended (record { text = "{1}"; serialised = refl; spelled = refl }) (omega arith)
      first_back second_back refl (omega arith)
      (record {
        found = record { is_file = true; len = 8 };
        looked_up = refl;
        regular = refl;
        size = refl;
        read = refl;
      })
