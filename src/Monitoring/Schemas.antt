-- ===== src/Monitoring/Schemas.antt =====
-- The schemas that the evidence of an alert is parsed with (apps/worker/src/monitoring-orchestrator.ts).
use Prim.Native.Char.{code}
use Prim.Native.String.{[], ◌∷◌}
use cloudshield_enterprise.Prelude.{
  String, ℕ, Bool, true, not, ◌&&◌, ◌||◌, Option, none, some, all, if◌then◌else◌, leb, ◌==◌, nat_eq,
}
use cloudshield_enterprise.Worker.Text.{utf16_length, is_white, is_blank_text}
use cloudshield_enterprise.Monitoring.{AlertEvidence, EvaluatedAlert}

abbrev trim_start : String → String
trim_start [] = []
trim_start (c ∷ s) = let rest = trim_start s in if is_white (code c) then rest else c ∷ s

abbrev trim_end : String → String
trim_end [] = []
trim_end (c ∷ s) = let rest = trim_end s in if is_blank_text (c ∷ s) then [] else c ∷ rest

-- `/^[^\u0000-\u001F\u007F]*$/`
abbrev has_no_control : String → Bool
has_no_control [] = true
has_no_control (c ∷ s) = not (leb (code c) 31 || code c == 127) && has_no_control s

-- `boundedSafeString`
unfoldable pub is_bounded_safe : String → Bool
unfolding utf16_length is_blank_text
is_bounded_safe s =
    let t = trim_end (trim_start s) in
    leb 1 (utf16_length t) && (leb (utf16_length t) 255 && has_no_control t)

abbrev or_null : Option String → Bool
or_null none = true
or_null (some s) = is_bounded_safe s

-- The last millisecond of the year 9999: `toISOString` writes later years with a sign and six digits, which
-- `datetime` does not take.
abbrev pub last_datetime : ℕ
last_datetime = 253402300799999

-- The schema for each kind of evidence.
unfoldable pub evidence_parses : AlertEvidence → Bool
evidence_parses (AlertEvidence.connection status) = is_bounded_safe status
evidence_parses (AlertEvidence.last_scan at) = leb at last_datetime
evidence_parses (AlertEvidence.rule rule_id) = is_bounded_safe rule_id
evidence_parses (AlertEvidence.scan_run id error_code) = is_bounded_safe id && or_null error_code
evidence_parses (AlertEvidence.increase previous current amount ids) = all is_bounded_safe ids
evidence_parses (AlertEvidence.regression control previous current) =
    is_bounded_safe control && (is_bounded_safe previous && is_bounded_safe current)

-- The evidence parses, and then the record is appended: `appends` tells whether the repository does so.
unfoldable pub is_accepted : (EvaluatedAlert → Bool) → EvaluatedAlert → Bool
is_accepted appends e = evidence_parses e.evidence && appends e
