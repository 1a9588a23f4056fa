-- ===== src/Receipt/Verify/Reread.antt =====
-- What `create` and `finalize` of src/receipt.rs write to a file, `verify_receipt` accepts when it
-- reads that file again.
use dmlpact.Base.{
  ◌≤◌, String, true, false, ◌≡◌, refl, ap, ◌∙◌, some, [], ◌∷◌, ◌++◌, not_lt→ltb, len,
}
use dmlpact.Base.Text.{Bytes, as_bytes, is_blank, lines}
use dmlpact.Base.Text.Lines.{HasNoBreak, lines-line_then, two_lines}
use dmlpact.Error.{AppResult, ok}
use dmlpact.Model.{Plan, ReceiptState, ReceiptResult, ReceiptEvent, ReceiptVerification}
use dmlpact.System.{System, Effect, Trace, Metadata}
use dmlpact.System.Monad.{lift}
use dmlpact.System.Steps.{step, asked, not_refused}
use dmlpact.Receipt.Version.{max_receipt_bytes}
use dmlpact.Receipt.Journal.{ReceiptJournal}
use dmlpact.Receipt.Writing.{IsLine, IsFinalLine}
use dmlpact.Receipt.Opening.{IsPreparedFor}
use dmlpact.Receipt.Check.{verify_events, verify_text, parse_events, verification}
use dmlpact.Receipt.Check.Written.{verify_events-final_event}
use dmlpact.Receipt.Verify.{verify_receipt}

module _ (S : System) where
  -- The serialisation of the event is one line that the parser reads back as the event.
  abbrev pub ReadsBack : ReceiptEvent → Type 0
  ReadsBack event =
      (text : String)
      → S.event_json event ≡ some text
      → (S.parse_event text ≡ some event) × HasNoBreak text × (is_blank text ≡ false)

  -- The file at the path holds the text when it is looked at first and read next.
  pub record Holds (t : Trace) (path content : String) : Type 0 where
    pub found : Metadata
    pub looked_up : S.metadata t path ≡ some found
    pub regular : found.is_file ≡ true
    pub size : found.len ≡ len content
    pub read : S.read_to_string (Effect.read_metadata path ∷ t) path ≡ some content

  parsed :
      (a b : String) (first second : ReceiptEvent)
      → S.parse_event a ≡ some first
      → S.parse_event b ≡ some second
      → parse_events S (a ∷ b ∷ []) ≡ ok (first ∷ second ∷ [])
  unfolding parse_events
  parsed a b first second e e' = rw (e, e') refl

  checked :
      (a b content : String) (first second : ReceiptEvent) (v : ReceiptVerification)
      → lines content ≡ a ∷ b ∷ []
      → is_blank a ≡ false
      → is_blank b ≡ false
      → len content ≤ max_receipt_bytes
      → parse_events S (a ∷ b ∷ []) ≡ ok (first ∷ second ∷ [])
      → verify_events S (first ∷ second ∷ []) ≡ ok v
      → verify_text S content ≡ ok v
  unfolding verify_text
  checked a b content first second v two full full' fits read accepted =
      rw (not_lt→ltb max_receipt_bytes (len content) fits, two, full, full', read, accepted) refl

  reread :
      (path content : String) (v : ReceiptVerification) (t : Trace)
      → Holds t path content
      → len content ≤ max_receipt_bytes
      → verify_text S content ≡ ok v
      → (verify_receipt S path t).0 ≡ ok v
  unfolding verify_receipt lift
  reread path content v t held fits accepted =
      ap (λ (p : AppResult ReceiptVerification × Trace). p.0)
        (step _ _ t (asked _ _ _ t held.looked_up) (
          step _ _ _
            (not_refused _ _ _
              (rw (held.regular, held.size) (not_lt→ltb max_receipt_bytes (len content) fits)))
            (step _ _ _ (asked _ _ _ _ held.read) refl)))
      ∙ accepted

  -- A receipt file that holds the line of a prepared event and then that of its terminal event, as
  -- `create` and `finalize` write them, is accepted by `verify_receipt` if the clock has not gone
  -- back in between, the file is within its limit and the two lines parse as the events that they
  -- were written for; the report is complete and has the identity, the plan and the final state of
  -- the receipt.
  pub verify_receipt-written :
      (plan : Plan) (file path content : String) (journal : ReceiptJournal) (state : ReceiptState)
      (result : ReceiptResult) (first second : Bytes) (t : Trace)
      (prepared : IsPreparedFor S plan file journal.prepared)
      (ended : IsFinalLine S journal.prepared state result second)
      → IsLine (S.event_json journal.prepared) first
      → prepared.timestamp ≤ ended.timestamp
      → ReadsBack journal.prepared
      → ReadsBack ended.event
      → as_bytes content ≡ first ++ second
      → len content ≤ max_receipt_bytes
      → Holds t path content
      → (hash : String) × (ended.event.event_sha256 ≡ some hash)
        × ((verify_receipt S path t).0 ≡ ok (verification journal.prepared ended.event 2 hash))
  verify_receipt-written plan file path content journal state result first second t prepared ended
        line later back back' same fits held =
      let (hash, sealed, accepted) =
        verify_events-final_event S prepared.hash file prepared.timestamp ended.timestamp state
          result journal.prepared ended.event prepared.sealed ended.sealed ended.terminal later in
      let (read, no_break, full) = back line.text line.serialised in
      let (read', no_break', full') = back' ended.line.text ended.line.serialised in
      let whole =
        two_lines line.text ended.line.text content
          (same ∙ (λ i. line.spelled i ++ ended.line.spelled i)) in
      (
        hash,
        sealed,
        reread path content _ t held fits (
            checked line.text ended.line.text content journal.prepared ended.event _
              (ap lines whole ∙ lines-line_then line.text ended.line.text no_break no_break') full
              full' fits (parsed _ _ _ _ read read') accepted),
      )
