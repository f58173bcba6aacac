-- ===== src/Session/Status.antt =====
-- The codes of stu_http_request.h that stand for the outcome of a request.
use chatease_server.Common.{ℕ}

abbrev pub ok : ℕ
ok = 200

abbrev pub bad_request : ℕ
bad_request = 400

abbrev pub unauthorized : ℕ
unauthorized = 401

abbrev pub method_not_allowed : ℕ
method_not_allowed = 405

abbrev pub conflict : ℕ
conflict = 409

abbrev pub expectation_failed : ℕ
expectation_failed = 417

abbrev pub internal_server_error : ℕ
internal_server_error = 500

abbrev pub switching_protocols : ℕ
switching_protocols = 101

abbrev pub not_implemented : ℕ
not_implemented = 501
