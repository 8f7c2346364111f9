-- ===== src/Audit/Tests.antt =====
-- Examples of logs.
use mathlib.Core.Path.{subst}
use lockrail.Prelude.{
  ◌≡◌, ◌≢◌, ◌↔◌, refl, sym, ap, ◌∙◌, true, false, inl, inr, some, List, [], ◌∷◌, arith, length,
  take, ok, All,
}
use lockrail.Prelude.Text.{codes, text_eq, split, push_first}
use lockrail.Prelude.Text.Trim.{is_blank, trim_start}
use lockrail.Protocol.Json.{Json}
use lockrail.Audit.{
  AuditEvent, AuditCodec, covered, genesis_hash, strip_cr, pieces, lines, parse, read_all,
  event_hash, next_event, write_line, add_event, append, events, verify_rows, verify,
}
use lockrail.Audit.Append.{CodecLaws, smooth, append-verify}
use lockrail.Audit.Chain.{Chained, verify_rows_iff}
use lockrail.Audit.Tamper.{CollisionFree, tamper_evident, truncation_verifies}

-- The hash of every event is "sha256:x".
abbrev event : AuditEvent
event = record {
  sequence = 1;
  timestamp = 1000;
  actor = codes "local-user";
  action = codes "proxy.request";
  resource = codes "cap";
  metadata = Json.null;
  previous_hash = genesis_hash;
  event_hash = codes "sha256:x";
}

abbrev codec : AuditCodec
codec = record {
  to_vec = λ e. some (codes "{}");
  sha256 = λ x. codes "x";
  to_string = λ e. some (codes "{}");
  from_str = λ s. some event;
}

abbrev second : AuditEvent
second = record event { sequence = 2; previous_hash = codes "sha256:x" }

abbrev log : List AuditEvent
log = event ∷ second ∷ []

sound : verify_rows codec (length log) 1 genesis_hash log ≡ ok (true, events (length log))
unfolding verify_rows event_hash text_eq
sound = refl

one_sound : verify_rows codec 1 1 genesis_hash (event ∷ []) ≡ ok (true, events 1)
unfolding verify_rows event_hash text_eq
one_sound = refl

verify_rows_iff_example :
    (verify_rows codec (length log) 1 genesis_hash log ≡ ok (true, events (length log)))
    ↔ Chained codec 1 genesis_hash log
verify_rows_iff_example = verify_rows_iff codec log

truncation_verifies_example :
    verify_rows codec (length (take 1 log)) 1 genesis_hash (take 1 log)
    ≡ ok (true, events (length (take 1 log)))
truncation_verifies_example = truncation_verifies codec 1 log sound

one_free : CollisionFree codec (event ∷ []) (event ∷ [])
one_free e f h (inl m) (inl n) p q = ap covered (sym m ∙ n)
one_free e f h (inl m) (inr n) p q = absurd n
one_free e f h (inr m) n p q = absurd m

tamper_evident_example : (event ∷ []) ≡ (event ∷ [])
tamper_evident_example =
    tamper_evident codec (event ∷ []) (event ∷ []) one_free one_sound one_sound refl refl

event-CodecLaws : CodecLaws codec event
unfolding strip_cr is_blank trim_start
event-CodecLaws = record {
  from-to = λ line h. refl;
  one_line = λ line h.
      let e : codes "{}" ≡ line = ground arith in subst (All (λ c. c ≢ 10)) e (ground arith);
  no_cr = λ line h. let e : codes "{}" ≡ line = ground arith in subst (λ l. strip_cr l ≡ l) e refl;
  no_blank =
      λ line h. let e : codes "{}" ≡ line = ground arith in subst (λ l. is_blank l ≡ false) e refl;
}

empty_read : read_all codec (some []) ≡ ok []
unfolding read_all lines pieces parse split push_first
empty_read = refl

empty_sound :
    verify codec (some []) ≡ ok (true, events (length (let e : List AuditEvent = [] in e)))
unfolding verify verify_rows read_all lines pieces parse split push_first
empty_sound = refl

appended :
    (append codec smooth 1000 (codes "proxy.request") (codes "cap") Json.null (some [])).0
    ≡ ok event
unfolding append add_event write_line next_event event_hash read_all lines pieces parse split
    push_first
appended = refl

append-verify_example :
    (read_all codec
        (append codec smooth 1000 (codes "proxy.request") (codes "cap") Json.null (some [])).1
      ≡ ok (event ∷ []))
    × (verify codec
          (append codec smooth 1000 (codes "proxy.request") (codes "cap") Json.null (some [])).1
        ≡ ok (true, events 1))
append-verify_example =
    append-verify codec 1000 (codes "proxy.request") (codes "cap") Json.null [] [] event
      event-CodecLaws (inl refl) empty_read empty_sound appended
