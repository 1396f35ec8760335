-- ===== src/Handlers/Probe.antt =====
-- ProbeHandler of probes/Probe.h. The flag is read once; the exceptions that the handlers catch come only
-- from the response's own calls, which are taken not to throw.
use uidentity.Base.{Bool, true, false, codes}
use uidentity.Http.{Response}
use uidentity.Handlers.AuthHandler.{set_status, add_field, set_body}

unfoldable pub liveness : Response → Response
liveness response = set_status 204 response

-- The status message is not part of the model.
unfoldable pub readiness : Bool → Response → Response
readiness running response = elim running [
  | false ↦
      set_body (codes "{\"status\":\"starting\"}")
        (add_field (codes "Content-Type") (codes "application/json") (set_status 503 response))
  | true ↦ set_status 204 response
]

unfoldable pub startup : Bool → Response → Response
startup running response = elim running [
  | false ↦
      set_body (codes "{\"status\":\"starting\"}")
        (add_field (codes "Content-Type") (codes "application/json") (set_status 503 response))
  | true ↦ set_status 204 response
]
