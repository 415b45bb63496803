-- ===== src/Envelope/Mapping.antt =====
-- map-business-backend/app/runtime/error_mapping.py.
use map.Base.{ℕ, String, ◌∷◌, [], ◌++◌}
use map.StateMachine.{Dict, get}
use map.Envelope.Canonical.{Text, codes, quoted}

-- HTTP_STATUS_BY_ERROR_CODE
abbrev pub http_status_by_error_code : Dict ℕ
http_status_by_error_code =
    ("STATE_TRANSITION_VIOLATION", 409)
    ∷ ("IDEMPOTENCY_CONFLICT", 409)
    ∷ ("RUN_TERMINAL_STATE", 409)
    ∷ ("EVENT_STALE_SEQ", 409)
    ∷ ("CAPABILITY_DISABLED", 409)
    ∷ ("UNKNOWN_EVENT_VERSION", 400)
    ∷ ("UNKNOWN_EVENT_TYPE", 400)
    ∷ ("PAYLOAD_NOT_SERIALIZABLE", 400)
    ∷ ("ARTIFACT_REF_INVALID", 400)
    ∷ ("EVENT_ENVELOPE_INVALID", 400)
    ∷ ("ARTIFACT_PAYLOAD_TOO_LARGE", 413)
    ∷ []

abbrev pub default_http_status : ℕ
default_http_status = 500

-- `http_status_for`
unfoldable pub http_status_for : String → ℕ
unfolding get
http_status_for code = get code http_status_by_error_code default_http_status

-- `sse_error_frame`, whose JSON has the default separators of `json.dumps`.
unfoldable pub sse_error_frame : String → String → Text
unfolding codes quoted
sse_error_frame code message =
    codes "event: error\ndata: "
    ++ (codes "{\"code\": "
        ++ quoted code
        ++ codes ", \"message\": "
        ++ quoted message
        ++ codes "}")
    ++ 10 ∷ 10 ∷ []
