-- ===== src/Tests/Chains.antt =====
-- The theorems on the chain of a receipt at concrete events.
use Prim.Native.Char.{char}
use mathlib.Core.Option.{some-injective}
use text.Mathlib.TextLemmas.{nil≢cons, cons≢nil, tail-eq_of_cons-eq}
use dmlpact.Base.{String, Option, none, some, false, arith, [], ◌∷◌, ◌≡◌, refl, ap, ◌⊎◌, ◌↔◌}
use dmlpact.Error.{ok, err}
use dmlpact.Model.{ReceiptState, ReceiptEvent, ReceiptVerification}
use dmlpact.System.{System}
use dmlpact.Integrity.Collision.{Collision}
use dmlpact.Receipt.Seal.{unsigned_event, seal_event, prepared_event, final_event}
use dmlpact.Receipt.Check.{verify_events}
use dmlpact.Receipt.Check.Chain.{IsPrepared, Continues}
use dmlpact.Receipt.Check.Backwards.{chain_error, verify_events-backwards}
use dmlpact.Receipt.Check.Exact.{verify_events_iff, verify_events-Collision}
use dmlpact.Tests.World.{no_event}
use dmlpact.Tests.Runs.{planner}
use dmlpact.Tests.Rereading.{or_else, result}

abbrev link_text : Option String → String
link_text none = ""
link_text (some h) = String.◌∷◌ (char 104 tt) h

-- The outside in which the text of an event is its link.
abbrev linker : System
linker = record planner { event_json = λ e. some (link_text e.previous_event_sha256) }

same_link : (x y : Option String) → link_text x ≡ link_text y → x ≡ y
same_link none none e = refl
same_link none (some h) e = absurd (nil≢cons e)
same_link (some h) none e = absurd (cons≢nil e)
same_link (some h) (some k) e = ap some (tail-eq_of_cons-eq e)

abbrev prepared : ReceiptEvent
prepared = or_else no_event (seal_event linker (prepared_event linker "h" "f" 5))

abbrev final : ReceiptEvent
final =
    or_else no_event
      (seal_event linker (final_event linker prepared 6 ReceiptState.committed result))

abbrev no_verification : ReceiptVerification
no_verification = record {
  schema_version = "";
  receipt_id = "";
  integrity_valid = false;
  complete = false;
  event_count = 0;
  final_state = ReceiptState.prepared;
  plan_sha256 = "";
  final_event_sha256 = "";
}

abbrev report : ReceiptVerification
report = or_else no_verification (verify_events linker (prepared ∷ final ∷ []))

verify_events_iff_example :
    ((v : ReceiptVerification) × (verify_events linker (prepared ∷ final ∷ []) ≡ ok v))
    ↔ (IsPrepared linker prepared × Continues linker prepared final)
verify_events_iff_example = verify_events_iff linker prepared final

verify_events-Collision_example :
    ((linker.event_json (unsigned_event final) ≡ linker.event_json (unsigned_event final))
      × (linker.event_json (unsigned_event prepared) ≡ linker.event_json (unsigned_event prepared)))
    ⊎ Collision linker
unfolding verify_events seal_event prepared_event final_event
verify_events-Collision_example =
    verify_events-Collision linker (λ bytes. (omega arith, tt))
      (λ a b e. same_link a.previous_event_sha256 b.previous_event_sha256 (some-injective _ _ e))
      prepared final prepared final report report refl refl refl

abbrev early_final : ReceiptEvent
early_final =
    or_else no_event
      (seal_event linker (final_event linker prepared 4 ReceiptState.committed result))

verify_events-backwards_example :
    verify_events linker (prepared ∷ early_final ∷ []) ≡ err chain_error
unfolding seal_event prepared_event final_event
verify_events-backwards_example =
    verify_events-backwards linker "h" "f" 5 4 ReceiptState.committed result prepared early_final
      refl refl (omega arith)
